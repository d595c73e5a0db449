-- ===== src/Worker/Joined.antt =====
-- crates/tls-probe-cli/src/commands/capture.rs: the hellos of a connection, one in a packet each, from
-- the captures to the event with their negotiation.
use tls_probe.Common.Capture.{
  RawTlsCapture, ConnKey, payload_slice, is_client_hello, is_server_hello,
}
use tls_probe.Correlate
use tls_probe.Correlate.{Correlator, Negotiation, build_negotiation, summarise}
use tls_probe.Correlate.Bounds.{IsBounded}
use tls_probe.Correlate.Events.{after}
use tls_probe.Correlate.Joins.{on_server_hello-on_client_hello}
use tls_probe.Event.{Host, CaptureEvent}
use tls_probe.Event.Build.{analyze_capture, analyze_capture_with_payload, enrich_with_cgroup}
use tls_probe.Outcome.{Outcome, ok, Returns-value}
use tls_probe.Parser.Analysis.{client_hello, server_hello, parse_tls_payload, effective_version}
use tls_probe.Parser.Types.{ParsedClientHello, ParsedServerHello}
use tls_probe.Prelude.{
  ℕ, ◌+◌, ◌%◌, ◌^◌, ◌≡◌, refl, ap, ◌∙◌, Bool, true, false, [], ◌∷◌, Option, some, Bool-cases, inl,
  inr, leb, ◌==◌,
}
use tls_probe.Wire.{Bytes}
use tls_probe.Worker.{is_part, Round, round_of, ended, emitted, process, sweep, handle}
use tls_probe.Worker.Branches.{
  Worker, Clocks, Step, went_on, answered, conn_key, client_branch, flight_branch, walked_records,
  walked_events, note_requests, fast_branch,
}
use tls_probe.Worker.Safety.{analyze-Ends}

-- The counter does not make this round sweep.
abbrev pub is_due : Worker → Bool
is_due w = (w.timeout_counter + 1) % 2 ^ 32 % 500 == 0

enrich-negotiation :
    (e : CaptureEvent) (c : RawTlsCapture) (resolve_inode : ℕ → Option Bytes)
    → (enrich_with_cgroup e c resolve_inode).negotiation ≡ e.negotiation
unfolding enrich_with_cgroup
enrich-negotiation e c resolve_inode = elim (Bool-cases (c.cgroup_id == 0)) [
  | inl no_group ↦ rw no_group refl
  | inr group ↦ rw group refl
]

event_lem : (h : Host) (c : RawTlsCapture) → (e : CaptureEvent) × (analyze_capture h c ≡ ok e)
unfolding analyze_capture
event_lem h c =
    let (e, found, _) =
      Returns-value _ (analyze_capture_with_payload h c (payload_slice c))
        (analyze-Ends h c (payload_slice c)) in
    (e, found)

module _ (h : Host) (resolve_inode : ℕ → Option Bytes) (now : Clocks) (w : Worker)
    (c : RawTlsCapture) where
  -- A packet of its own, whose branch goes on with a step.
  handle-step :
      (e : CaptureEvent) (s : Step)
      → is_part c ≡ false
      → analyze_capture h c ≡ ok e
      → fast_branch h resolve_inode now w c (payload_slice c) e ≡ ok s
      → handle h resolve_inode now w c ≡ ended h resolve_inode now (round_of resolve_inode c s)
  unfolding handle process
  handle-step e s whole found step = rw (handle, whole, process, whole, found, step)

ended-idle :
    (h : Host) (resolve_inode : ℕ → Option Bytes) (now : Clocks) (r : Round)
    → r.skipped ≡ false
    → is_due r.worker ≡ false
    → ended h resolve_inode now r
      ≡ ok (record r {
        worker = record (r.worker) { timeout_counter = (r.worker.timeout_counter + 1) % 2 ^ 32 };
      })
unfolding sweep
ended-idle h resolve_inode now r goes_on not_due = rw (goes_on, sweep, not_due)

-- A round of a packet that ends with a step and no sweep.
handle-idle :
    (h : Host) (resolve_inode : ℕ → Option Bytes) (now : Clocks) (w : Worker) (c : RawTlsCapture)
    (e : CaptureEvent) (s : Step)
    → is_part c ≡ false
    → analyze_capture h c ≡ ok e
    → fast_branch h resolve_inode now w c (payload_slice c) e ≡ ok s
    → s.skipped ≡ false
    → s.worker.timeout_counter ≡ w.timeout_counter
    → is_due w ≡ false
    → handle h resolve_inode now w c
      ≡ ok (record {
        worker = record (s.worker) { timeout_counter = (s.worker.timeout_counter + 1) % 2 ^ 32 };
        events = emitted resolve_inode c s;
        skipped = s.skipped;
      })
handle-idle h resolve_inode now w c e s whole found step goes_on same not_due =
    let due : is_due s.worker ≡ false =
      ap (λ (n : ℕ). (n + 1) % 2 ^ 32 % 500 == 0) same ∙ not_due in
    handle-step h resolve_inode now w c e s whole found step
    ∙ ended-idle h resolve_inode now (round_of resolve_inode c s) goes_on due

module _ (h : Host) (resolve_inode : ℕ → Option Bytes) (now : Clocks) (w : Worker)
    (c : RawTlsCapture) where
  fast-client :
      (version : ℕ) (hello : ParsedClientHello) (e : CaptureEvent)
      → is_client_hello c ≡ true
      → parse_tls_payload (payload_slice c) true ≡ ok (client_hello version hello)
      → fast_branch h resolve_inode now w c (payload_slice c) e
        ≡ ok (
            went_on
              (record w {
                correlator =
                    (Correlate.on_client_hello now.wall w.correlator
                      (conn_key c)
                      (client_hello version hello)).0;
              })
              e)
  unfolding fast_branch client_branch
  fast-client version hello e client parsed = rw (fast_branch, client, client_branch, parsed)

  fast-server :
      (version : ℕ) (hello : ParsedServerHello) (e : CaptureEvent)
      → is_client_hello c ≡ false
      → is_server_hello c ≡ true
      → parse_tls_payload (payload_slice c) false ≡ ok (server_hello version hello)
      → leb (effective_version (server_hello version hello)) 0x0303 ≡ false
      → fast_branch h resolve_inode now w c (payload_slice c) e
        ≡ ok (
            answered w [] e
              (Correlate.on_server_hello w.correlator (conn_key c) (server_hello version hello)))
  unfolding fast_branch flight_branch walked_records walked_events note_requests
  fast-server version hello e not_client server parsed late =
      rw (fast_branch, not_client, server, flight_branch, parsed, walked_records, late)

  handle-client_hello :
      (version : ℕ) (hello : ParsedClientHello)
      → is_part c ≡ false
      → is_client_hello c ≡ true
      → parse_tls_payload (payload_slice c) true ≡ ok (client_hello version hello)
      → is_due w ≡ false
      → (r : Round) × (handle h resolve_inode now w c ≡ ok r)
        × (r.worker.correlator
            ≡ (Correlate.on_client_hello now.wall w.correlator
                (conn_key c)
                (client_hello version hello)).0)
        × (r.worker.timeout_counter ≡ (w.timeout_counter + 1) % 2 ^ 32)
  handle-client_hello version hello whole client parsed not_due =
      let (e, found) = event_lem h c in
      let w' : Worker = record w {
        correlator =
            (Correlate.on_client_hello now.wall w.correlator (conn_key c)
              (client_hello version hello)).0;
      } in
      (
        record {
          worker = record w' { timeout_counter = (w.timeout_counter + 1) % 2 ^ 32 };
          events = emitted resolve_inode c (went_on w' e);
          skipped = false;
        },
        handle-idle h resolve_inode now w c e (went_on w' e) whole found
            (fast-client version hello e client parsed) refl refl not_due,
        refl,
        refl,
      )

-- A packet that holds a client hello, and one that holds a server hello of TLS 1.3 or later.
pub record HoldsClientHello (c : RawTlsCapture) (version : ℕ) (hello : ParsedClientHello)
    : Type 0 where
  pub whole : is_part c ≡ false
  pub client : is_client_hello c ≡ true
  pub parsed : parse_tls_payload (payload_slice c) true ≡ ok (client_hello version hello)

pub record HoldsServerHello (c : RawTlsCapture) (version : ℕ) (hello : ParsedServerHello)
    : Type 0 where
  pub whole : is_part c ≡ false
  pub not_client : is_client_hello c ≡ false
  pub server : is_server_hello c ≡ true
  pub parsed : parse_tls_payload (payload_slice c) false ≡ ok (server_hello version hello)
  pub late : leb (effective_version (server_hello version hello)) 0x0303 ≡ false

-- The one event of a round, with a negotiation.
pub record Reports (m : Outcome Round) (negotiation : Negotiation) : Type 0 where
  pub round : Round
  pub ended : m ≡ ok round
  pub event : CaptureEvent
  pub alone : round.events ≡ event ∷ []
  pub reported : event.negotiation ≡ some negotiation

handle-server_hello :
    (h : Host) (resolve_inode : ℕ → Option Bytes) (now : Clocks) (w : Worker) (c : RawTlsCapture)
    (version : ℕ) (hello : ParsedServerHello) (negotiation : Negotiation)
    → HoldsServerHello c version hello
    → is_due w ≡ false
    → (Correlate.on_server_hello w.correlator (conn_key c) (server_hello version hello)).1
      ≡ some negotiation
    → Reports (handle h resolve_inode now w c) negotiation
unfolding emitted
handle-server_hello h resolve_inode now w c version hello negotiation k not_due joins =
    let (e, found) = event_lem h c in
    let c' = (Correlate.on_server_hello w.correlator (conn_key c) (server_hello version hello)).0 in
    let e' : CaptureEvent = record e { negotiation = some negotiation } in
    let s = answered w [] e (c', some negotiation) in
    let step =
      fast-server h resolve_inode now w c version hello e k.not_client k.server k.parsed k.late
      ∙ ap (λ (n : Option Negotiation). ok (answered w [] e (c', n))) joins in
    record {
      round = record {
        worker = record (s.worker) { timeout_counter = (w.timeout_counter + 1) % 2 ^ 32 };
        events = emitted resolve_inode c s;
        skipped = false;
      };
      ended = handle-idle h resolve_inode now w c e s k.whole found step refl refl not_due;
      event = enrich_with_cgroup e' c resolve_inode;
      alone = refl;
      reported = enrich-negotiation e' c resolve_inode;
    }

after_none :
    (c : Correlator) (key : ConnKey) (version : ℕ) (hello : ParsedServerHello)
    → (Correlate.on_server_hello c key (server_hello version hello)).1
      ≡ (Correlate.on_server_hello (after c []) key (server_hello version hello)).1
unfolding after
after_none c key version hello = refl

-- A client hello and the server's answer of TLS 1.3, in a packet each of one connection, the
-- second handled behind the first by a worker whose correlator is within its bounds, in rounds that do
-- not sweep: the answer's event is the one event of its round, and reports the negotiation of the
-- two hellos, whatever the rest of the captures holds and whenever they come.
pub handle-handle :
    (h : Host) (resolve_inode : ℕ → Option Bytes) (now later : Clocks) (w : Worker)
    (c answer : RawTlsCapture) (version version' : ℕ) (hello : ParsedClientHello)
    (hello' : ParsedServerHello)
    → HoldsClientHello c version hello
    → HoldsServerHello answer version' hello'
    → conn_key answer ≡ conn_key c
    → IsBounded w.correlator
    → is_due w ≡ false
    → (((w.timeout_counter + 1) % 2 ^ 32 + 1) % 2 ^ 32 % 500 == 0) ≡ false
    → (r : Round) × (handle h resolve_inode now w c ≡ ok r)
      × Reports
          (handle h resolve_inode later r.worker answer)
          (build_negotiation (summarise now.wall hello) hello')
handle-handle h resolve_inode now later w c answer version version' hello hello' k k' same bounded
      not_due not_due' =
    let (r, first, correlated, counted) =
      handle-client_hello h resolve_inode now w c version hello k.whole k.client k.parsed not_due in
    let pair =
      on_server_hello-on_client_hello now.wall w.correlator (conn_key c) version hello [] version'
        hello' bounded tt in
    let joins =
      ap
        (λ (x : Correlator).
          (Correlate.on_server_hello x (conn_key answer) (server_hello version' hello')).1)
        correlated
      ∙ ap
          (λ (key : ConnKey).
            (Correlate.on_server_hello
              (Correlate.on_client_hello now.wall w.correlator (conn_key c)
                (client_hello version hello)).0
              key (server_hello version' hello')).1)
          same
      ∙ after_none
          (Correlate.on_client_hello now.wall w.correlator (conn_key c)
            (client_hello version hello)).0
          (conn_key c) version' hello'
      ∙ pair.0 in
    let due = ap (λ (n : ℕ). (n + 1) % 2 ^ 32 % 500 == 0) counted ∙ not_due' in
    (
      r,
      first,
      handle-server_hello h resolve_inode later r.worker answer version' hello'
          (build_negotiation (summarise now.wall hello) hello') k' due joins,
    )
