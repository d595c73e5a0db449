-- ===== src/Correlate/Mtls.antt =====
-- crates/tls-probe-cli/src/correlate.rs: a connection whose server asks for the client's certificate.
use tls_probe.Common.Capture.{ConnKey}
use tls_probe.Correlate.{
  conn_code, conn_order, ClientHelloSummary, Negotiation, Correlator, summarise, on_client_hello,
  on_server_hello, request, on_certificate_request, present, present_found, on_client_certificate,
  build_negotiation,
}
use tls_probe.Correlate.Bounds.{IsBounded, step-IsBounded, after-IsBounded}
use tls_probe.Correlate.Events.{
  Call, hello_of_client, hello_of_server, certificate_request, step, after,
}
use tls_probe.Parser.Analysis.{client_hello, server_hello}
use tls_probe.Parser.Types.{ParsedClientHello, ParsedServerHello}
use tls_probe.Prelude.{ℕ, ◌≡◌, refl, ap, ◌∙◌, true, List, Option, none, some}
use tls_probe.SortedMap
use tls_probe.SortedMap.{IsSorted, get-insert_self, get-insert_ne, get-remove_ne, get-remove_self}
use tls_probe.Correlate.Joins.{
  entry_at, AllSpare, after-entry, on_client_hello-entry, on_server_hello-found,
}

-- The summary of a hello whose connection's certificate has been asked for.
abbrev pub requested : ℕ → ParsedClientHello → ClientHelloSummary
requested now hello = record (summarise now hello) { mtls_requested = true }

-- The four calls of such a connection, with calls of other connections between them.
module _ (now : ℕ) (c : Correlator) (key : ConnKey) (version : ℕ) (hello : ParsedClientHello)
    (first : List Call) (second : List Call) (version' : ℕ) (answer : ParsedServerHello)
    (third : List Call) where
  abbrev pub at_hello : Correlator
  at_hello = after (on_client_hello now c key (client_hello version hello)).0 first

  abbrev pub at_request : Correlator
  at_request = after (on_certificate_request at_hello key) second

  abbrev pub answered : Correlator × Option Negotiation
  answered = on_server_hello at_request key (server_hello version' answer)

  abbrev pub at_answer : Correlator
  at_answer = after answered.0 third

  abbrev pub presented : Correlator × Option Negotiation
  presented = on_client_certificate at_answer key

  -- The calls between spare the connection's entry.
  pub record IsUndisturbed : Type 0 where
    pub behind_hello :
        AllSpare
          (conn_code key)
          now
          (on_client_hello now c key (client_hello version hello)).0
          first
    pub behind_request : AllSpare (conn_code key) now (on_certificate_request at_hello key) second
    pub behind_answer : AllSpare (conn_code key) now answered.0 third

  request_found :
      (d : Correlator) (s : ClientHelloSummary) (ts : ℕ)
      → entry_at (conn_code key) d ≡ some (s, ts)
      → entry_at (conn_code key) (on_certificate_request d key)
        ≡ some (record s { mtls_requested = true }, ts)
  unfolding on_certificate_request request
  request_found d s ts e = rw e (
      get-insert_self conn_order (conn_code key) (record s { mtls_requested = true }, ts) d.pending)

  certificate_found :
      (d : Correlator) (s : ClientHelloSummary) (ts : ℕ) (n : Negotiation)
      → entry_at (conn_code key) d ≡ some (s, ts)
      → s.post_sh_negotiation ≡ some n
      → on_client_certificate d key ≡ (
        record d { pending = SortedMap.remove conn_order (conn_code key) d.pending },
        some (record n { mtls = true }),
      )
  unfolding on_client_certificate present_found present
  certificate_found d s ts n e held = rw (e, held)

  there : IsUndisturbed → entry_at (conn_code key) at_request ≡ some (requested now hello, now)
  there u =
      let k = conn_code key in
      let e₁ =
        after-entry k (summarise now hello) now first _ u.behind_hello
          (on_client_hello-entry now c key version hello) in
      after-entry k (requested now hello) now second _ u.behind_request
        (request_found at_hello (summarise now hello) now e₁)

  answered_is :
      IsUndisturbed
      → answered ≡ (
        record at_request {
          pending =
              SortedMap.insert conn_order
                (conn_code key)
                (
                  record (requested now hello) {
                    post_sh_negotiation = some (build_negotiation (requested now hello) answer);
                  },
                  now,
                )
                at_request.pending;
        },
        some (build_negotiation (requested now hello) answer),
      )
  answered_is u =
      on_server_hello-found at_request key version' answer (requested now hello) now (there u)

  entry_answered :
      IsUndisturbed
      → entry_at (conn_code key) at_answer
        ≡ some (
          record (requested now hello) {
            post_sh_negotiation = some (build_negotiation (requested now hello) answer);
          },
          now,
        )
  entry_answered u =
      let k = conn_code key in
      let kept : ClientHelloSummary = record (requested now hello) {
        post_sh_negotiation = some (build_negotiation (requested now hello) answer);
      } in
      after-entry k kept now third _ u.behind_answer (
        ap (λ x. entry_at k x.0) (answered_is u)
        ∙ get-insert_self conn_order k (kept, now) at_request.pending)

  -- From a correlator within its bounds, with calls between that spare the connection's entry:
  -- where the request for the client's certificate comes before the server's hello, the answer's
  -- negotiation says that it was asked for and not yet given, the certificate's is the same with
  -- the certificate given, and behind it the connection's entry is gone.
  pub on_client_certificate-on_server_hello :
      IsBounded c
      → IsUndisturbed
      → (answered.1 ≡ some (build_negotiation (requested now hello) answer))
        × (presented.1
            ≡ some (record (build_negotiation (requested now hello) answer) { mtls = true }))
        × (entry_at (conn_code key) presented.0 ≡ none)
  unfolding step
  on_client_certificate-on_server_hello b u =
      let k = conn_code key in
      let kept : ClientHelloSummary = record (requested now hello) {
        post_sh_negotiation = some (build_negotiation (requested now hello) answer);
      } in
      let done =
        certificate_found at_answer kept now (build_negotiation (requested now hello) answer)
          (entry_answered u) refl in
      let b₁ =
        after-IsBounded first _
          (step-IsBounded c (hello_of_client now key (client_hello version hello)) b) in
      let b₂ = after-IsBounded second _ (step-IsBounded at_hello (certificate_request key) b₁) in
      let b₃ =
        after-IsBounded third _
          (step-IsBounded at_request (hello_of_server key (server_hello version' answer)) b₂) in
      (
        ap (λ x. x.1) (answered_is u),
        ap (λ x. x.1) done,
        ap (λ x. entry_at k x.0) done ∙ get-remove_self conn_order k at_answer.pending b₃.sorted,
      )
