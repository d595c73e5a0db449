-- ===== src/Correlate/Tests.antt =====
-- crates/tls-probe-cli/src/correlate.rs on two connections.
use tls_probe.Common.Capture.{ConnKey, zeros}
use tls_probe.Correlate.{
  ConnCode, conn_code, conn_order, Pending, Correlator, new, evict_oldest, summarise,
  on_client_hello, on_certificate_request, build_negotiation,
}
use tls_probe.Correlate.Bounds.{IsBounded, after-new-IsBounded}
use tls_probe.Correlate.Events.{Call, hello_of_client, alert, after, answers}
use tls_probe.Correlate.Eviction.{IsOldest, evict_oldest-IsOldest}
use tls_probe.Correlate.Joins.{entry_at, AllSpare, joined, on_server_hello-on_client_hello}
use tls_probe.Correlate.Mtls.{
  IsUndisturbed, requested, answered, presented, on_client_certificate-on_server_hello,
}
use tls_probe.Correlate.Answers.{AnswersFrom, answers-AnswersFrom}
use tls_probe.Correlate.{age, sweep_expired}
use tls_probe.Correlate.Sweep.{sweep_expired-entry}
use tls_probe.Parser.Analysis.{client_hello}
use tls_probe.Parser.Types.{ParsedClientHello, ParsedServerHello}
use tls_probe.Prelude.{ℕ, ◌<◌, ◌≡◌, ◌≢◌, ◌↔◌, refl, true, false, List, [], ◌∷◌, none, some, arith}
use tls_probe.SortedMap
use tls_probe.SortedMap.{IsSorted}

abbrev key_of : ℕ → ConnKey
key_of port = record { src_addr = zeros 4; dst_addr = zeros 4; src_port = port; dst_port = 443 }

abbrev hello : ParsedClientHello
hello = record {
  legacy_version = 771;
  random = zeros 32;
  session_id = [];
  cipher_suites = 4865 ∷ [];
  compression_methods = 0 ∷ [];
  extensions = [];
  extension_ids = [];
  supported_versions = 0x0A0A ∷ 772 ∷ [];
  supported_groups = 29 ∷ [];
  signature_algorithms = [];
  signature_algorithms_cert = [];
  key_share_groups = [];
  sni = none;
  alpn = [];
  psk_offered = false;
  early_data_offered = false;
  psk_key_exchange_modes_offered = false;
  session_ticket_offered = false;
}

abbrev answer : ParsedServerHello
answer = record {
  legacy_version = 771;
  random = zeros 32;
  session_id = [];
  cipher_suite = 4865;
  compression_method = 0;
  extensions = [];
  negotiated_version = none;
  key_share_group = some 29;
  psk_selected = false;
}

-- An alert of another connection.
abbrev others : List Call
others = alert (key_of 2) 2 40 ∷ []

keys_differ : conn_code (key_of 1) ≢ conn_code (key_of 2)
keys_differ e = cc

others_spare : (c : Correlator) → AllSpare (conn_code (key_of 1)) 5 c others
others_spare c = (keys_differ, tt)

new-IsBounded : IsBounded new
unfolding after
new-IsBounded = after-new-IsBounded []

after-new-IsBounded_example :
    IsBounded (after new (hello_of_client 5 (key_of 1) (client_hello 769 hello) ∷ others))
after-new-IsBounded_example =
    after-new-IsBounded (hello_of_client 5 (key_of 1) (client_hello 769 hello) ∷ others)

on_server_hello-on_client_hello_example :
    ((joined 5 new (key_of 1) 769 hello others 771 answer).1
      ≡ some (build_negotiation (summarise 5 hello) answer))
    × (entry_at (conn_code (key_of 1)) (joined 5 new (key_of 1) 769 hello others 771 answer).0
        ≡ none)
on_server_hello-on_client_hello_example =
    on_server_hello-on_client_hello 5 new (key_of 1) 769 hello others 771 answer new-IsBounded
      (others_spare (on_client_hello 5 new (key_of 1) (client_hello 769 hello)).0)

undisturbed : IsUndisturbed 5 new (key_of 1) 769 hello others others 771 answer []
undisturbed = record {
  behind_hello = others_spare (on_client_hello 5 new (key_of 1) (client_hello 769 hello)).0;
  behind_request = others_spare (
      on_certificate_request
        (after (on_client_hello 5 new (key_of 1) (client_hello 769 hello)).0 others) (key_of 1));
  behind_answer = tt;
}

on_client_certificate-on_server_hello_example :
    ((answered 5 new (key_of 1) 769 hello others others 771 answer []).1
      ≡ some (build_negotiation (requested 5 hello) answer))
    × ((presented 5 new (key_of 1) 769 hello others others 771 answer []).1
        ≡ some (record (build_negotiation (requested 5 hello) answer) { mtls = true }))
    × (entry_at
          (conn_code (key_of 1))
          (presented 5 new (key_of 1) 769 hello others others 771 answer []).0
        ≡ none)
on_client_certificate-on_server_hello_example =
    on_client_certificate-on_server_hello 5 new (key_of 1) 769 hello others others 771 answer []
      new-IsBounded undisturbed

abbrev two_pending : Pending
two_pending =
    (conn_code (key_of 1), (summarise 7 hello, 7))
    ∷ (conn_code (key_of 2), (summarise 5 hello, 5))
    ∷ []

evict_oldest-IsOldest_example :
    (key : ConnCode) × IsOldest key two_pending
    × (evict_oldest two_pending ≡ SortedMap.remove conn_order key two_pending)
evict_oldest-IsOldest_example =
    evict_oldest-IsOldest two_pending ((refl, tt), (tt, tt)) (omega arith)

-- What was said on the connections: this hello, on every one.
answers-AnswersFrom_example :
    AnswersFrom
      (λ k h. h ≡ hello)
      (answers new
        (hello_of_client 5 (key_of 1) (client_hello 769 hello) ∷ alert (key_of 1) 2 40 ∷ []))
answers-AnswersFrom_example =
    answers-AnswersFrom (λ k h. h ≡ hello)
      (hello_of_client 5 (key_of 1) (client_hello 769 hello) ∷ alert (key_of 1) 2 40 ∷ [])
      (refl, (tt, tt))

-- One hello is pending.
abbrev started : Correlator
started = after new (hello_of_client 5 (key_of 1) (client_hello 769 hello) ∷ [])

sweep_expired-entry_example :
    (entry_at (conn_code (key_of 1)) (sweep_expired 9 started).0 ≡ some (summarise 5 hello, 5)) ↔ (
      (entry_at (conn_code (key_of 1)) started ≡ some (summarise 5 hello, 5))
      × (age 9 5 < started.ttl_ns))
sweep_expired-entry_example =
    sweep_expired-entry 9 started (conn_code (key_of 1)) (summarise 5 hello, 5)
      (after-new-IsBounded (hello_of_client 5 (key_of 1) (client_hello 769 hello) ∷ []))
