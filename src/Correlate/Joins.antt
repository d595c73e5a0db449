-- ===== src/Correlate/Joins.antt =====
-- crates/tls-probe-cli/src/correlate.rs: what comes of a connection's hello, with the calls of other
-- connections in between.
use tls_probe.Common.Capture.{ConnKey}
use tls_probe.Correlate.{
  ConnCode, conn_code, conn_order, Pending, Entry, ClientHelloSummary, Negotiation, Correlator,
  summarise, on_client_hello, join, keep_if, on_server_hello, fail, on_alert, request,
  on_certificate_request, present, present_found, on_client_certificate, age, retain_young,
  sweep_expired, evict_oldest, build_negotiation,
}
use tls_probe.Correlate.Bounds.{IsBounded, step-IsBounded, after-IsBounded}
use tls_probe.Correlate.Events.{
  Call, hello_of_client, hello_of_server, alert, certificate_request, client_certificate, sweep,
  step, after,
}
use tls_probe.Parser.Analysis.{client_hello, server_hello}
use tls_probe.Parser.Types.{ParsedClientHello, ParsedServerHello}
use tls_probe.Prelude.{
  ℕ, ◌<◌, ◌≡◌, ◌≢◌, refl, ap, ◌∙◌, Bool, true, false, ◌||◌, List, [], ◌∷◌, Option, none, some,
  arith, Bool-cases, ltb, lt→ltb, leb, lt→leb, length, inl, inr, if◌then◌else◌,
}
use tls_probe.SortedMap
use tls_probe.SortedMap.{IsSorted, get-insert_self, get-insert_ne, get-remove_ne, get-remove_self}

abbrev pub entry_at : ConnCode → Correlator → Option Entry
entry_at k c = SortedMap.get conn_order k c.pending

-- The call leaves a connection's entry of this time alone: it is of another connection and evicts
-- nothing, or a sweep before the entry's time is up.
abbrev pub Spares : ConnCode → ℕ → Correlator → Call → Type 0
Spares k ts c (hello_of_client now key (client_hello _ _)) =
    (k ≢ conn_code key) × (length c.pending < c.max_entries)
Spares k ts c (hello_of_client now key (server_hello _ _)) = Unit
Spares k ts c (hello_of_server key analysis) = k ≢ conn_code key
Spares k ts c (alert key _ _) = k ≢ conn_code key
Spares k ts c (certificate_request key) = k ≢ conn_code key
Spares k ts c (client_certificate key) = k ≢ conn_code key
Spares k ts c (sweep now) = age now ts < c.ttl_ns

abbrev pub AllSpare : ConnCode → ℕ → Correlator → List Call → Type 0
AllSpare k ts c [] = Unit
AllSpare k ts c (call ∷ calls) = Spares k ts c call × AllSpare k ts (step c call).0 calls

keep_if-get :
    (keep : Bool) (k j : ConnCode) (e : Entry) (m : Pending)
    → k ≢ j
    → SortedMap.get conn_order k (keep_if keep j e m) ≡ SortedMap.get conn_order k m
keep_if-get true k j e m n = get-insert_ne conn_order j k e m n
keep_if-get false k j e m n = get-remove_ne conn_order j k m n

join-entry :
    (k j : ConnCode) (c : Correlator) (hello : ParsedServerHello) (found : Option Entry)
    → k ≢ j
    → entry_at k (join c j hello found).0 ≡ entry_at k c
unfolding join
join-entry k j c hello none n = refl
join-entry k j c hello (some (s, ts)) n =
    keep_if-get s.mtls_requested k j
      (record s { post_sh_negotiation = some (build_negotiation s hello) }, ts) c.pending n

fail-entry :
    (k j : ConnCode) (c : Correlator) (found : Option Entry)
    → k ≢ j
    → entry_at k (fail c j found).0 ≡ entry_at k c
unfolding fail
fail-entry k j c none n = refl
fail-entry k j c (some (s, ts)) n = get-remove_ne conn_order j k c.pending n

request-entry :
    (k j : ConnCode) (c : Correlator) (found : Option Entry)
    → k ≢ j
    → entry_at k (request c j found) ≡ entry_at k c
unfolding request
request-entry k j c none n = refl
request-entry k j c (some (s, ts)) n =
    get-insert_ne conn_order j k (record s { mtls_requested = true }, ts) c.pending n

present-entry :
    (k j : ConnCode) (c : Correlator) (s : ClientHelloSummary) (ts : ℕ) (held : Option Negotiation)
    → k ≢ j
    → entry_at k (present c j s ts held).0 ≡ entry_at k c
unfolding present
present-entry k j c s ts none n =
    get-insert_ne conn_order j k (record s { mtls = true }, ts) c.pending n
present-entry k j c s ts (some negotiation) n = get-remove_ne conn_order j k c.pending n

present_found-entry :
    (k j : ConnCode) (c : Correlator) (found : Option Entry)
    → k ≢ j
    → entry_at k (present_found c j found).0 ≡ entry_at k c
unfolding present_found
present_found-entry k j c none n = refl
present_found-entry k j c (some (s, ts)) n = present-entry k j c s ts s.post_sh_negotiation n

pub get-retain_young :
    (k : ConnCode) (now ttl : ℕ) (e : Entry) (m : Pending)
    → SortedMap.get conn_order k m ≡ some e
    → age now e.1 < ttl
    → SortedMap.get conn_order k (retain_young now ttl m) ≡ some e
unfolding SortedMap.get retain_young
get-retain_young k now ttl e [] h y = cc
get-retain_young k now ttl e ((j, (s, ts)) ∷ m) h y =
    elim (Bool-cases (conn_order.lt k j || conn_order.lt j k)) [
      | inl other ↦
          let later = get-retain_young k now ttl e m (rw other at h) y in
          elim (Bool-cases (ltb (age now ts) ttl)) [
            | inl young ↦ rw (young, other) later
            | inr old ↦ rw old later
          ]
      | inr same ↦
          let is : some (s, ts) ≡ some e = rw same at h in
          let young : ltb (age now ts) ttl ≡ true = ground (arith, lt→ltb (age now ts) ttl) in
          rw (young, same) is
    ]

step-entry :
    (k : ConnCode) (s : ClientHelloSummary) (ts : ℕ) (c : Correlator) (call : Call)
    → Spares k ts c call
    → entry_at k c ≡ some (s, ts)
    → entry_at k (step c call).0 ≡ some (s, ts)
unfolding step on_client_hello on_server_hello on_alert on_certificate_request on_client_certificate
    sweep_expired
step-entry k s ts c (hello_of_client now key (client_hello _ hello)) n e =
    rw (lt→leb c.max_entries (length c.pending) n.1)
      (get-insert_ne conn_order (conn_code key) k (summarise now hello, now) c.pending n.0 ∙ e)
step-entry k s ts c (hello_of_client now key (server_hello _ _)) n e = e
step-entry k s ts c (hello_of_server key (client_hello _ _)) n e = e
step-entry k s ts c (hello_of_server key (server_hello _ hello)) n e =
    join-entry k (conn_code key) c hello (entry_at (conn_code key) c) n ∙ e
step-entry k s ts c (alert key _ _) n e =
    fail-entry k (conn_code key) c (entry_at (conn_code key) c) n ∙ e
step-entry k s ts c (certificate_request key) n e =
    request-entry k (conn_code key) c (entry_at (conn_code key) c) n ∙ e
step-entry k s ts c (client_certificate key) n e =
    present_found-entry k (conn_code key) c (entry_at (conn_code key) c) n ∙ e
step-entry k s ts c (sweep now) n e = get-retain_young k now c.ttl_ns (s, ts) c.pending e n

pub after-entry :
    (k : ConnCode) (s : ClientHelloSummary) (ts : ℕ) (calls : List Call) (c : Correlator)
    → AllSpare k ts c calls
    → entry_at k c ≡ some (s, ts)
    → entry_at k (after c calls) ≡ some (s, ts)
unfolding after
after-entry k s ts [] c n e = e
after-entry k s ts (call ∷ calls) c n e =
    after-entry k s ts calls (step c call).0 n.1 (step-entry k s ts c call n.0 e)

-- A client hello is put in, whatever was there.
pub on_client_hello-entry :
    (now : ℕ) (c : Correlator) (key : ConnKey) (version : ℕ) (hello : ParsedClientHello)
    → entry_at (conn_code key) (on_client_hello now c key (client_hello version hello)).0
      ≡ some (summarise now hello, now)
unfolding on_client_hello
on_client_hello-entry now c key version hello =
    get-insert_self conn_order (conn_code key) (summarise now hello, now)
      (if leb c.max_entries (length c.pending) then evict_oldest c.pending else c.pending)

-- What the server's hello does to an entry that it finds.
pub on_server_hello-found :
    (c : Correlator) (key : ConnKey) (version : ℕ) (hello : ParsedServerHello)
    (s : ClientHelloSummary) (ts : ℕ)
    → entry_at (conn_code key) c ≡ some (s, ts)
    → on_server_hello c key (server_hello version hello) ≡ (
      record c {
        pending =
            keep_if s.mtls_requested
              (conn_code key)
              (record s { post_sh_negotiation = some (build_negotiation s hello) }, ts)
              c.pending;
      },
      some (build_negotiation s hello),
    )
unfolding on_server_hello join
on_server_hello-found c key version hello s ts e = rw e

-- The server's hello behind a client's, with calls between them that spare the connection's entry.
abbrev pub joined :
    ℕ
    → Correlator
    → ConnKey
    → ℕ
    → ParsedClientHello
    → List Call
    → ℕ
    → ParsedServerHello
    → Correlator × Option Negotiation
joined now c key version hello calls version' answer =
    on_server_hello (after (on_client_hello now c key (client_hello version hello)).0 calls) key
      (server_hello version' answer)

-- A client hello that comes to a correlator within its bounds, and the server's answer to it,
-- are joined, whatever calls come between them, as long as these are of other connections,
-- evict nothing and sweep before the time is up: the negotiation is made of these two hellos,
-- and the entry is gone.
pub on_server_hello-on_client_hello :
    (now : ℕ) (c : Correlator) (key : ConnKey) (version : ℕ) (hello : ParsedClientHello)
    (calls : List Call) (version' : ℕ) (answer : ParsedServerHello)
    → IsBounded c
    → AllSpare (conn_code key) now (on_client_hello now c key (client_hello version hello)).0 calls
    → ((joined now c key version hello calls version' answer).1
        ≡ some (build_negotiation (summarise now hello) answer))
      × (entry_at (conn_code key) (joined now c key version hello calls version' answer).0 ≡ none)
unfolding summarise step
on_server_hello-on_client_hello now c key version hello calls version' answer b spare =
    let k = conn_code key in
    let c₁ = (on_client_hello now c key (client_hello version hello)).0 in
    let c₂ = after c₁ calls in
    let there =
      after-entry k (summarise now hello) now calls c₁ spare
        (on_client_hello-entry now c key version hello) in
    let done = on_server_hello-found c₂ key version' answer (summarise now hello) now there in
    let b₁ = step-IsBounded c (hello_of_client now key (client_hello version hello)) b in
    (
      ap (λ x. x.1) done,
      ap (λ x. entry_at k x.0) done
          ∙ get-remove_self conn_order k c₂.pending (after-IsBounded calls c₁ b₁).sorted,
    )
