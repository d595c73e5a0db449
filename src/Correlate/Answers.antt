-- ===== src/Correlate/Answers.antt =====
-- crates/tls-probe-cli/src/correlate.rs: whose hello the answers to a sequence of calls tell of.
use tls_probe.Correlate.{
  ConnCode, conn_code, Pending, Negotiation, Correlator, new, on_client_hello, on_server_hello,
  on_alert, on_certificate_request, on_client_certificate, age, retain_young, sweep_expired,
}
use tls_probe.Correlate.Joins.{entry_at}
use tls_probe.Correlate.Events.{
  Call, hello_of_client, hello_of_server, alert, certificate_request, client_certificate, sweep,
  step, conn_of, push, answers,
}
use tls_probe.Parser.Analysis.{client_hello, server_hello}
use tls_probe.Parser.Types.{ParsedClientHello}
use tls_probe.Prelude.{ℕ, refl, List, [], ◌∷◌, Option, none, some, Bool-cases, ltb, inl, inr}
use tls_probe.Prelude.{All}
use tls_probe.Correlate.Origin.{
  PendingFrom, AnswerFrom, on_client_hello-From, join-From, fail-From, request-From,
  present_found-From,
}

-- The client hellos that were said on each connection.
module _ (Said : ConnCode → ParsedClientHello → Type 0) where
  -- A client hello is one that was said on its connection.
  abbrev pub CallFrom : Call → Type 0
  CallFrom (hello_of_client now key (client_hello _ hello)) = Said (conn_code key) hello
  CallFrom _ = Unit

  retain_young-From :
      (now ttl : ℕ) (m : Pending) → PendingFrom Said m → PendingFrom Said (retain_young now ttl m)
  unfolding retain_young
  retain_young-From now ttl [] h = tt
  retain_young-From now ttl ((j, (s, ts)) ∷ m) h = elim (Bool-cases (ltb (age now ts) ttl)) [
    | inl young ↦ rw young (h.0, retain_young-From now ttl m h.1)
    | inr old ↦ rw old (retain_young-From now ttl m h.1)
  ]

  -- One call: what is kept and what is answered tell of hellos that were said.
  pub step-From :
      (c : Correlator) (call : Call)
      → CallFrom call
      → PendingFrom Said c.pending
      → PendingFrom Said (step c call).0.pending × AnswerFrom Said (conn_of call) (step c call).1
  unfolding step on_client_hello on_server_hello on_alert on_certificate_request
      on_client_certificate sweep_expired
  step-From c (hello_of_client now key (client_hello v hello)) f h =
      on_client_hello-From Said now c key v hello f h
  step-From c (hello_of_client now key (server_hello _ _)) f h = (h, tt)
  step-From c (hello_of_server key (client_hello _ _)) f h = (h, tt)
  step-From c (hello_of_server key (server_hello _ answer)) f h =
      join-From Said c (conn_code key) answer (entry_at (conn_code key) c) refl h
  step-From c (alert key _ _) f h =
      fail-From Said c (conn_code key) (entry_at (conn_code key) c) refl h
  step-From c (certificate_request key) f h =
      (request-From Said c (conn_code key) (entry_at (conn_code key) c) refl h, tt)
  step-From c (client_certificate key) f h =
      present_found-From Said c (conn_code key) (entry_at (conn_code key) c) refl h
  step-From c (sweep now) f h = (retain_young-From now c.ttl_ns c.pending h, tt)

  abbrev pub AnswersFrom : List (ConnCode × Negotiation) → Type 0
  AnswersFrom = All (λ a. AnswerFrom Said a.0 (some a.1))

  push-From :
      (k : ConnCode) (found : Option Negotiation) (rest : List (ConnCode × Negotiation))
      → AnswerFrom Said k found
      → AnswersFrom rest
      → AnswersFrom (push k found rest)
  push-From k none rest h a = a
  push-From k (some n) rest h a = (h, a)

  answers_from :
      (calls : List Call) (c : Correlator)
      → All CallFrom calls
      → PendingFrom Said c.pending
      → AnswersFrom (answers c calls)
  unfolding answers
  answers_from [] c f h = tt
  answers_from (call ∷ calls) c f h =
      let next = step-From c call f.0 h in
      push-From (conn_of call) (step c call).1 (answers (step c call).0 calls) next.1
        (answers_from calls (step c call).0 f.1 next.0)

  -- Whatever calls a new correlator gets, each negotiation that it answers with, joined or failed,
  -- tells of one client hello that was said on the same connection: its version, its groups, its
  -- name and its offer of early data, all of that one hello.
  pub answers-AnswersFrom :
      (calls : List Call) → All CallFrom calls → AnswersFrom (answers new calls)
  unfolding new
  answers-AnswersFrom calls f = answers_from calls new f tt
