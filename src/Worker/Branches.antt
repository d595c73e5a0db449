-- ===== src/Worker/Branches.antt =====
-- crates/tls-probe-cli/src/commands/capture.rs: what the worker does with a capture of each kind.
use Prim.Native.String.{String}
use tls_probe.Certificate.{Certificate, Libraries, parse_certificate}
use tls_probe.Common.Capture.{
  RawTlsCapture, ConnKey, has_flag, flag_alert, flag_ingress, is_client_hello, is_server_hello,
}
use tls_probe.Correlate
use tls_probe.Correlate.{Correlator, Negotiation}
use tls_probe.Correlate.Names.{name_in}
use tls_probe.Event.{Host, CaptureEvent, plain_event}
use tls_probe.Event.Build.{parse_alert, enrich_with_cgroup}
use tls_probe.Event.Names.{tls_version_str}
use tls_probe.Outcome.{Outcome, ok, err, panic, spin, ◌>>=◌}
use tls_probe.Parser.Analysis.{TlsAnalysis, parse_tls_payload, effective_version}
use tls_probe.Prelude.{
  ℕ, ◌+◌, Bool, true, false, List, [], ◌∷◌, Option, none, some, leb, ltb, ◌==◌, length, drop,
  if◌then◌else◌,
}
use tls_probe.Reasm.{Reassembler}
use tls_probe.RecordWalk.{ExtractedRecord, walk_records}
use tls_probe.Wire.{Bytes}

-- The worker's variables and the counters that it shares.
pub record Worker : Type 0 where
  pub reassembler : Reassembler
  pub correlator : Correlator
  pub timeout_counter : ℕ
  pub correlator_sh_without_ch : ℕ
  pub alerts_dropped : ℕ
  pub certs_dropped_13 : ℕ

-- A reading of the clocks in nanoseconds: the monotonic one and the system's.
pub record Clocks : Type 0 where
  pub instant : ℕ
  pub wall : ℕ

-- What a branch leaves: the events before the capture's own, and that one, which is emitted unless
-- the branch goes on with the next capture at once.
pub record Step : Type 0 where
  pub worker : Worker
  pub before : List CaptureEvent
  pub event : CaptureEvent
  pub skipped : Bool

abbrev pub went_on : Worker → CaptureEvent → Step
went_on w event = record { worker = w; before = []; event = event; skipped = false }

unfoldable pub conn_key : RawTlsCapture → ConnKey
conn_key c = record {
  src_addr = c.src_addr;
  dst_addr = c.dst_addr;
  src_port = c.src_port;
  dst_port = c.dst_port;
}

-- `if let Ok(a) = m { f(a) }`, with what is done otherwise.
abbrev pub if_ok : {A B : Type 0} → Outcome A → (A → Outcome B) → Outcome B → Outcome B
if_ok (ok a) f other = f a
if_ok (err e) f other = other
if_ok panic f other = panic
if_ok spin f other = spin

unfoldable pub client_branch : Clocks → Worker → ConnKey → Bytes → CaptureEvent → Outcome Step
client_branch now w key payload event =
    if_ok (parse_tls_payload payload true)
      (λ (analysis : TlsAnalysis).
        let (correlator', _) = Correlate.on_client_hello now.wall w.correlator key analysis in
        ok (went_on (record w { correlator = correlator' }) event))
      (ok (went_on w event))

-- The event gets the negotiation; without one a counter goes up.
abbrev pub answered :
    Worker → List CaptureEvent → CaptureEvent → Correlator × Option Negotiation → Step
answered w before event (c, some negotiation) = record {
  worker = record w { correlator = c };
  before = before;
  event = record event { negotiation = some negotiation };
  skipped = false;
}
answered w before event (c, none) = record {
  worker = record w { correlator = c; correlator_sh_without_ch = w.correlator_sh_without_ch + 1 };
  before = before;
  event = event;
  skipped = false;
}

-- The server hello of a record that was put together, behind which nothing is walked.
unfoldable pub server_branch : Worker → ConnKey → Bytes → CaptureEvent → Outcome Step
server_branch w key payload event =
    if_ok (parse_tls_payload payload false)
      (λ (analysis : TlsAnalysis).
        ok (answered w [] event (Correlate.on_server_hello w.correlator key analysis)))
      (ok (went_on w event))

-- `records`, of the versions up to TLS 1.2.
unfoldable pub walked_records : ℕ → Bytes → Outcome (List ExtractedRecord)
walked_records record_version payload =
    if leb record_version 0x0303 then walk_records payload else ok []

abbrev pub first_byte : Bytes → ℕ
first_byte [] = 0
first_byte (b ∷ body) = b

-- The requests among the records.
unfoldable pub note_requests : ConnKey → List ExtractedRecord → Correlator → Correlator
note_requests key [] c = c
note_requests key (r ∷ rs) c =
    let c' = if first_byte r.body == 0x0D then Correlate.on_certificate_request c key else c in
    note_requests key rs c'

-- `record_walk::handshake_type_name`
unfoldable pub walked_type_name : ℕ → String
walked_type_name ht =
    name_in ht "Unknown" ((0x0B, "Certificate") ∷ (0x0D, "CertificateRequest") ∷ [])

unfoldable pub synthesize_event_from_walked_record :
    Host → RawTlsCapture → ExtractedRecord → CaptureEvent × ℕ
unfolding plain_event walked_type_name
synthesize_event_from_walked_record h capture r =
    let handshake_type = first_byte r.body in
    (
      record (plain_event h capture (tls_version_str r.version) (walked_type_name handshake_type)) {
        truncated = some r.truncated;
      },
      handshake_type,
    )

-- The certificate behind the first four bytes, where there are more.
unfoldable pub leaf_of : Libraries → Bytes → Outcome (Option Certificate)
leaf_of l payload = if ltb 4 (length payload) then parse_certificate l (drop 4 payload) else ok none

abbrev pub with_certificate : CaptureEvent → Option Certificate → CaptureEvent
with_certificate event none = event
with_certificate event (some cert) = record event { certificate = some cert }

unfoldable pub walked_event :
    Host → (ℕ → Option Bytes) → RawTlsCapture → ExtractedRecord → Outcome CaptureEvent
unfolding synthesize_event_from_walked_record leaf_of
walked_event h resolve_inode capture r =
    let (event, handshake_type) = synthesize_event_from_walked_record h capture r in
    let done = do
      cert ← (if handshake_type == 0x0B then leaf_of h.libraries r.body else ok none)
      ok (enrich_with_cgroup (with_certificate event cert) capture resolve_inode)
    in done

unfoldable pub walked_events :
    Host → (ℕ → Option Bytes) → RawTlsCapture → List ExtractedRecord → Outcome (List CaptureEvent)
unfolding walked_event
walked_events h resolve_inode capture [] = ok []
walked_events h resolve_inode capture (r ∷ rs) = do
  event ← walked_event h resolve_inode capture r
  events ← walked_events h resolve_inode capture rs
  ok (event ∷ events)

-- The server hello of a packet, with the certificate records behind it.
unfoldable pub flight_branch :
    Host
    → (ℕ → Option Bytes)
    → Worker
    → RawTlsCapture
    → ConnKey
    → Bytes
    → CaptureEvent
    → Outcome Step
unfolding walked_records note_requests walked_events
flight_branch h resolve_inode w capture key payload event =
    if_ok (parse_tls_payload payload false)
      (λ (analysis : TlsAnalysis). do
        records ← walked_records (effective_version analysis) payload
        let joined = Correlate.on_server_hello (note_requests key records w.correlator) key analysis
        events ← walked_events h resolve_inode capture records
        ok (answered w events event joined))
      (ok (went_on w event))

abbrev pub dropped_alert : Worker → CaptureEvent → Step
dropped_alert w event = went_on (record w { alerts_dropped = w.alerts_dropped + 1 }) event

abbrev pub alerted : Worker → CaptureEvent → Correlator × Option Negotiation → Step
alerted w event (c, some negotiation) =
    went_on (record w { correlator = c }) (record event { negotiation = some negotiation })
alerted w event (c, none) = dropped_alert (record w { correlator = c }) event

abbrev alert_parsed : Worker → ConnKey → CaptureEvent → Option (ℕ × ℕ) → Step
alert_parsed w key event none = dropped_alert w event
alert_parsed w key event (some (level, description)) =
    alerted w event (Correlate.on_alert w.correlator key level description)

unfoldable pub alert_branch : Worker → ConnKey → Bytes → CaptureEvent → Outcome Step
unfolding parse_alert
alert_branch w key payload event = ok (alert_parsed w key event (parse_alert payload))

-- A certificate message of TLS 1.3 is counted and not emitted.
abbrev pub dropped_13 : Worker → CaptureEvent → TlsAnalysis → Step
dropped_13 w event analysis =
    if effective_version analysis == 0x0304
    then record {
      worker = record w { certs_dropped_13 = w.certs_dropped_13 + 1 };
      before = [];
      event = event;
      skipped = true;
    }
    else went_on w event

abbrev pub with_negotiation : CaptureEvent → Option Negotiation → CaptureEvent
with_negotiation event none = event
with_negotiation event (some negotiation) = record event { negotiation = some negotiation }

unfoldable pub certificate_branch :
    Host → Worker → RawTlsCapture → ConnKey → Bytes → CaptureEvent → Outcome Step
unfolding leaf_of
certificate_branch h w capture key payload event = do
  cert ← leaf_of h.libraries payload
  let is_client = has_flag capture.flags flag_ingress
  let presented =
      if is_client then Correlate.on_client_certificate w.correlator key else (w.correlator, none)
  let w' = record w { correlator = presented.0 }
  let event' = with_negotiation (with_certificate event cert) presented.1
  if_ok (parse_tls_payload payload is_client)
      (λ (analysis : TlsAnalysis). ok (dropped_13 w' event' analysis)) (ok (went_on w' event'))

unfoldable pub request_branch : Worker → ConnKey → Bytes → CaptureEvent → Outcome Step
request_branch w key payload event =
    let w' = record w { correlator = Correlate.on_certificate_request w.correlator key } in
    if_ok (parse_tls_payload payload false)
      (λ (analysis : TlsAnalysis). ok (dropped_13 w' event analysis)) (ok (went_on w' event))

-- The branches behind the hellos, the same for a record and for a packet.
unfoldable pub other_branch : Host → Worker → RawTlsCapture → Bytes → CaptureEvent → Outcome Step
unfolding conn_key alert_branch certificate_branch request_branch
other_branch h w capture payload event =
    let key = conn_key capture in
    if has_flag capture.flags flag_alert
    then alert_branch w key payload event
    else if capture.handshake_type == 0x0B
    then certificate_branch h w capture key payload event
    else if capture.handshake_type == 0x0D
    then request_branch w key payload event
    else ok (went_on w event)

-- A record that was put together, by its head's capture.
unfoldable pub assembled_branch :
    Host → Clocks → Worker → RawTlsCapture → Bytes → CaptureEvent → Outcome Step
unfolding conn_key client_branch server_branch other_branch
assembled_branch h now w capture payload event =
    if is_client_hello capture
    then client_branch now w (conn_key capture) payload event
    else if is_server_hello capture
    then server_branch w (conn_key capture) payload event
    else other_branch h w capture payload event

-- A packet that is no part of a record in several.
unfoldable pub fast_branch :
    Host
    → (ℕ → Option Bytes)
    → Clocks
    → Worker
    → RawTlsCapture
    → Bytes
    → CaptureEvent
    → Outcome Step
unfolding conn_key client_branch flight_branch other_branch
fast_branch h resolve_inode now w capture payload event =
    if is_client_hello capture
    then client_branch now w (conn_key capture) payload event
    else if is_server_hello capture
    then flight_branch h resolve_inode w capture (conn_key capture) payload event
    else other_branch h w capture payload event
