-- ===== src/Correlate/Events.antt =====
-- crates/tls-probe-cli/src/correlate.rs over time: the calls that a correlator gets, one by one.
use tls_probe.Common.Capture.{ConnKey}
use tls_probe.Correlate.{
  ConnCode, conn_code, Negotiation, Correlator, on_client_hello, on_server_hello, on_alert,
  on_certificate_request, on_client_certificate, sweep_expired,
}
use tls_probe.Parser.Analysis.{TlsAnalysis}
use tls_probe.Prelude.{ℕ, List, [], ◌∷◌, Option, none, some}

pub data Call : Type 0 where
  hello_of_client : ℕ → ConnKey → TlsAnalysis → Call
  hello_of_server : ConnKey → TlsAnalysis → Call
  alert : ConnKey → ℕ → ℕ → Call
  certificate_request : ConnKey → Call
  client_certificate : ConnKey → Call
  sweep : ℕ → Call

-- One call: the correlator behind it, and the negotiation that it returns.
unfoldable pub step : Correlator → Call → Correlator × Option Negotiation
step c (hello_of_client now key analysis) = on_client_hello now c key analysis
step c (hello_of_server key analysis) = on_server_hello c key analysis
step c (alert key level description) = on_alert c key level description
step c (certificate_request key) = (on_certificate_request c key, none)
step c (client_certificate key) = on_client_certificate c key
step c (sweep now) = ((sweep_expired now c).0, none)

-- The correlator behind a sequence of calls.
unfoldable pub after : Correlator → List Call → Correlator
unfolding step
after c [] = c
after c (call ∷ calls) = after (step c call).0 calls

-- The connection of a call, none's for a sweep.
abbrev pub conn_of : Call → ConnCode
conn_of (hello_of_client now key analysis) = conn_code key
conn_of (hello_of_server key analysis) = conn_code key
conn_of (alert key level description) = conn_code key
conn_of (certificate_request key) = conn_code key
conn_of (client_certificate key) = conn_code key
conn_of (sweep now) = []

abbrev pub push :
    ConnCode → Option Negotiation → List (ConnCode × Negotiation) → List (ConnCode × Negotiation)
push k none rest = rest
push k (some n) rest = (k, n) ∷ rest

-- The negotiations that a sequence of calls answers with, each with its connection.
unfoldable pub answers : Correlator → List Call → List (ConnCode × Negotiation)
unfolding step
answers c [] = []
answers c (call ∷ calls) = push (conn_of call) (step c call).1 (answers (step c call).0 calls)
