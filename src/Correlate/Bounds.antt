-- ===== src/Correlate/Bounds.antt =====
-- crates/tls-probe-cli/src/correlate.rs: the map stays sorted and within its limit.
use tls_probe.Common.Capture.{ConnKey}
use tls_probe.Correlate.{
  ConnCode, conn_code, conn_order, Pending, Entry, ClientHelloSummary, Negotiation, Correlator, new,
  summarise, on_client_hello, keep_if, join, on_server_hello, fail, on_alert, request,
  on_certificate_request, present, present_found, on_client_certificate, age, retain_young,
  sweep_expired, evict_oldest, build_negotiation,
}
use tls_probe.Correlate.Events.{
  Call, hello_of_client, hello_of_server, alert, certificate_request, client_certificate, sweep,
  step, after,
}
use tls_probe.Correlate.Eviction.{evict_oldest-IsSorted, length-evict_oldest}
use tls_probe.Parser.Analysis.{TlsAnalysis, client_hello, server_hello}
use tls_probe.Parser.Types.{ParsedServerHello}
use tls_probe.Prelude.{
  ℕ, ◌≤◌, ◌<◌, ◌≡◌, refl, Bool, true, false, List, [], ◌∷◌, Option, none, some, arith, Bool-cases,
  ltb, leb, leb→le, leb→lt, length, inl, inr,
}
use tls_probe.SortedMap
use tls_probe.SortedMap.{
  IsSorted, Above, insert-IsSorted, remove-IsSorted, length-insert-le, length-insert_found,
  length-remove-le,
}

-- The entries are sorted by their keys, and no more than the limit allows.
pub record IsBounded (c : Correlator) : Type 0 where
  pub sorted : IsSorted conn_order c.pending
  pub short : length c.pending ≤ c.max_entries
  pub positive : 0 < c.max_entries

insert-IsBounded :
    (c : Correlator) (k : ConnCode) (e : Entry) (m : Pending)
    → IsSorted conn_order m
    → length m < c.max_entries
    → IsBounded (record c { pending = SortedMap.insert conn_order k e m })
insert-IsBounded c k e m s h = record {
  sorted = insert-IsSorted conn_order k e m s;
  short = omega (arith, length-insert-le conn_order k e m);
  positive = omega arith;
}

on_client_hello-IsBounded :
    (now : ℕ) (c : Correlator) (key : ConnKey) (analysis : TlsAnalysis)
    → IsBounded c
    → IsBounded (on_client_hello now c key analysis).0
unfolding on_client_hello
on_client_hello-IsBounded now c key (server_hello _ _) b = b
on_client_hello-IsBounded now c key (client_hello _ hello) b =
    let m = c.pending in
    elim (Bool-cases (leb c.max_entries (length m))) [
      | inl full ↦
          let some_there : 0 < length m =
            omega (arith, leb→le c.max_entries (length m) full, b.positive) in
          rw full (
            insert-IsBounded c (conn_code key) (summarise now hello, now) (evict_oldest m)
              (evict_oldest-IsSorted m b.sorted)
              (omega (arith, length-evict_oldest m b.sorted some_there, b.short)))
      | inr room ↦ rw room (
          insert-IsBounded c (conn_code key) (summarise now hello, now) m b.sorted
            (leb→lt c.max_entries (length m) room))
    ]

-- A value that is replaced leaves the count as it is.
replace-IsBounded :
    (c : Correlator) (k : ConnCode) (e old : Entry)
    → SortedMap.get conn_order k c.pending ≡ some old
    → IsBounded c
    → IsBounded (record c { pending = SortedMap.insert conn_order k e c.pending })
replace-IsBounded c k e old found b = record {
  sorted = insert-IsSorted conn_order k e c.pending b.sorted;
  short = omega (arith, length-insert_found conn_order k e old c.pending b.sorted found, b.short);
  positive = b.positive;
}

remove-IsBounded :
    (c : Correlator) (k : ConnCode)
    → IsBounded c
    → IsBounded (record c { pending = SortedMap.remove conn_order k c.pending })
remove-IsBounded c k b = record {
  sorted = remove-IsSorted conn_order k c.pending b.sorted;
  short = omega (arith, length-remove-le conn_order k c.pending, b.short);
  positive = b.positive;
}

keep_if-IsBounded :
    (keep : Bool) (c : Correlator) (k : ConnCode) (e old : Entry)
    → SortedMap.get conn_order k c.pending ≡ some old
    → IsBounded c
    → IsBounded (record c { pending = keep_if keep k e c.pending })
keep_if-IsBounded true c k e old found b = replace-IsBounded c k e old found b
keep_if-IsBounded false c k e old found b = remove-IsBounded c k b

join-IsBounded :
    (c : Correlator) (k : ConnCode) (hello : ParsedServerHello) (found : Option Entry)
    → SortedMap.get conn_order k c.pending ≡ found
    → IsBounded c
    → IsBounded (join c k hello found).0
unfolding join
join-IsBounded c k hello none e b = b
join-IsBounded c k hello (some (s, ts)) e b =
    keep_if-IsBounded s.mtls_requested c k
      (record s { post_sh_negotiation = some (build_negotiation s hello) }, ts) (s, ts) e b

fail-IsBounded :
    (c : Correlator) (k : ConnCode) (found : Option Entry)
    → IsBounded c
    → IsBounded (fail c k found).0
unfolding fail
fail-IsBounded c k none b = b
fail-IsBounded c k (some (s, ts)) b = remove-IsBounded c k b

request-IsBounded :
    (c : Correlator) (k : ConnCode) (found : Option Entry)
    → SortedMap.get conn_order k c.pending ≡ found
    → IsBounded c
    → IsBounded (request c k found)
unfolding request
request-IsBounded c k none e b = b
request-IsBounded c k (some (s, ts)) e b =
    replace-IsBounded c k (record s { mtls_requested = true }, ts) (s, ts) e b

present-IsBounded :
    (c : Correlator) (k : ConnCode) (s : ClientHelloSummary) (ts : ℕ) (held : Option Negotiation)
    → SortedMap.get conn_order k c.pending ≡ some (s, ts)
    → IsBounded c
    → IsBounded (present c k s ts held).0
unfolding present
present-IsBounded c k s ts none e b =
    replace-IsBounded c k (record s { mtls = true }, ts) (s, ts) e b
present-IsBounded c k s ts (some negotiation) e b = remove-IsBounded c k b

present_found-IsBounded :
    (c : Correlator) (k : ConnCode) (found : Option Entry)
    → SortedMap.get conn_order k c.pending ≡ found
    → IsBounded c
    → IsBounded (present_found c k found).0
unfolding present_found
present_found-IsBounded c k none e b = b
present_found-IsBounded c k (some (s, ts)) e b =
    present-IsBounded c k s ts s.post_sh_negotiation e b

retain_young-Above :
    (now ttl : ℕ) (k : ConnCode) (m : Pending)
    → Above conn_order k m
    → Above conn_order k (retain_young now ttl m)
unfolding retain_young
retain_young-Above now ttl k [] a = tt
retain_young-Above now ttl k ((j, (s, ts)) ∷ m) a = elim (Bool-cases (ltb (age now ts) ttl)) [
  | inl young ↦ rw young (a.0, retain_young-Above now ttl k m a.1)
  | inr old ↦ rw old (retain_young-Above now ttl k m a.1)
]

retain_young-IsSorted :
    (now ttl : ℕ) (m : Pending)
    → IsSorted conn_order m
    → IsSorted conn_order (retain_young now ttl m)
unfolding retain_young
retain_young-IsSorted now ttl [] s = tt
retain_young-IsSorted now ttl ((j, (x, ts)) ∷ m) s = elim (Bool-cases (ltb (age now ts) ttl)) [
  | inl young ↦ rw young (retain_young-Above now ttl j m s.0, retain_young-IsSorted now ttl m s.1)
  | inr old ↦ rw old (retain_young-IsSorted now ttl m s.1)
]

length-retain_young-le : (now ttl : ℕ) (m : Pending) → length (retain_young now ttl m) ≤ length m
unfolding retain_young
length-retain_young-le now ttl [] = omega arith
length-retain_young-le now ttl ((j, (s, ts)) ∷ m) = ground (arith, length-retain_young-le now ttl m)

pub step-IsBounded : (c : Correlator) (call : Call) → IsBounded c → IsBounded (step c call).0
unfolding step on_server_hello on_alert on_certificate_request on_client_certificate sweep_expired
step-IsBounded c (hello_of_client now key analysis) b =
    on_client_hello-IsBounded now c key analysis b
step-IsBounded c (hello_of_server key (client_hello _ _)) b = b
step-IsBounded c (hello_of_server key (server_hello _ hello)) b =
    join-IsBounded c (conn_code key) hello (SortedMap.get conn_order (conn_code key) c.pending) refl
      b
step-IsBounded c (alert key _ _) b =
    fail-IsBounded c (conn_code key) (SortedMap.get conn_order (conn_code key) c.pending) b
step-IsBounded c (certificate_request key) b =
    request-IsBounded c (conn_code key) (SortedMap.get conn_order (conn_code key) c.pending) refl b
step-IsBounded c (client_certificate key) b =
    present_found-IsBounded c (conn_code key) (SortedMap.get conn_order (conn_code key) c.pending)
      refl b
step-IsBounded c (sweep now) b = record {
  sorted = retain_young-IsSorted now c.ttl_ns c.pending b.sorted;
  short = omega (arith, length-retain_young-le now c.ttl_ns c.pending, b.short);
  positive = b.positive;
}

pub after-IsBounded : (calls : List Call) (c : Correlator) → IsBounded c → IsBounded (after c calls)
unfolding after
after-IsBounded [] c b = b
after-IsBounded (call ∷ calls) c b = after-IsBounded calls (step c call).0 (step-IsBounded c call b)

-- Whatever calls a new correlator gets, at whatever times, its entries stay sorted by their keys,
-- one for each connection, and never more than the limit.
pub after-new-IsBounded : (calls : List Call) → IsBounded (after new calls)
unfolding new
after-new-IsBounded calls =
    after-IsBounded calls new (record { sorted = tt; short = omega arith; positive = omega arith })
