-- ===== src/Parser/Analysis.antt =====
-- crates/tls-probe-parser/src/lib.rs: one entry point for both hellos, and what is read off the
-- result. The box around a client hello is left out.
use tls_probe.Outcome.{Outcome, ok, err, ◌>>=◌, Within, Within->>=, too_short, Returns-Within}
use tls_probe.Parser.ClientHello.{tls_record_hdr_len, tls_handshake_hdr_len, parse_client_hello}
use tls_probe.Parser.ClientHello.Safety.{IsHello, parse_client_hello-Within}
use tls_probe.Parser.ServerHello.{parse_server_hello}
use tls_probe.Parser.ServerHello.Safety.{IsServerHello, parse_server_hello-Within}
use tls_probe.Parser.Types.{ParsedClientHello, ParsedServerHello}
use tls_probe.Prelude.{
  ℕ, ◌+◌, Bool, true, false, List, [], ◌∷◌, Option, none, some, head?, ltb, ltb→le, Bool-cases,
  length, arith, inl, inr, if◌then◌else◌,
}
use mathlib.Core.Option.{get_or}
use tls_probe.Wire.{Bytes, u16_at}
use tls_probe.Wire.Cursor.{u16_at-Returns}

pub data TlsAnalysis : Type 0 where
  client_hello : ℕ → ParsedClientHello → TlsAnalysis
  server_hello : ℕ → ParsedServerHello → TlsAnalysis

unfoldable pub parse_tls_payload : Bytes → Bool → Outcome TlsAnalysis
parse_tls_payload payload is_client_hello =
    let read = do
      record_version ← u16_at payload 1
      if is_client_hello
          then (do hello ← parse_client_hello payload; ok (client_hello record_version hello))
          else (do hello ← parse_server_hello payload; ok (server_hello record_version hello))
    in if ltb (length payload) (tls_record_hdr_len + tls_handshake_hdr_len)
      then err too_short
      else read

unfoldable pub effective_version : TlsAnalysis → ℕ
effective_version (client_hello _ hello) =
    get_or (head? hello.supported_versions) hello.legacy_version
effective_version (server_hello _ hello) = get_or hello.negotiated_version hello.legacy_version

unfoldable pub cipher_suites : TlsAnalysis → List ℕ
cipher_suites (client_hello _ hello) = hello.cipher_suites
cipher_suites (server_hello _ hello) = hello.cipher_suite ∷ []

-- `Option::as_slice`
abbrev as_slice : Option ℕ → List ℕ
as_slice none = []
as_slice (some g) = g ∷ []

unfoldable pub key_exchange_groups : TlsAnalysis → List ℕ
key_exchange_groups (client_hello _ hello) = hello.supported_groups
key_exchange_groups (server_hello _ hello) = as_slice hello.key_share_group

unfoldable pub signature_algorithms : TlsAnalysis → List ℕ
signature_algorithms (client_hello _ hello) = hello.signature_algorithms
signature_algorithms (server_hello _ hello) = []

unfoldable pub sni : TlsAnalysis → Option Bytes
sni (client_hello _ hello) = hello.sni
sni (server_hello _ hello) = none

unfoldable pub is_client_hello : TlsAnalysis → Bool
is_client_hello (client_hello _ _) = true
is_client_hello (server_hello _ _) = false

-- What an analysis is held to: it is of the kind asked for.
abbrev pub IsAnalysis : Bytes → Bool → TlsAnalysis → Type 0
IsAnalysis payload true (client_hello _ hello) = IsHello payload hello
IsAnalysis payload false (server_hello _ hello) = IsServerHello payload hello
IsAnalysis payload _ _ = ⊥

-- On every payload the analysis is an error, or of the kind asked for with its parts within the
-- payload: it never reads out of bounds, and each of its loops ends.
pub parse_tls_payload-Within :
    (payload : Bytes) (is_client : Bool)
    → Within (IsAnalysis payload is_client) (parse_tls_payload payload is_client)
unfolding parse_tls_payload
parse_tls_payload-Within payload true = elim (Bool-cases (ltb (length payload) 9)) [
  | inl short ↦ rw short tt
  | inr long ↦ rw long (
      Within->>= _ _ (u16_at payload 1) _
        (Returns-Within _ (u16_at payload 1)
          (u16_at-Returns payload 1 (omega (arith, ltb→le (length payload) 9 long))))
        λ v _.
          Within->>= _ _ (parse_client_hello payload) _ (parse_client_hello-Within payload)
            λ h p. p)
]
parse_tls_payload-Within payload false = elim (Bool-cases (ltb (length payload) 9)) [
  | inl short ↦ rw short tt
  | inr long ↦ rw long (
      Within->>= _ _ (u16_at payload 1) _
        (Returns-Within _ (u16_at payload 1)
          (u16_at-Returns payload 1 (omega (arith, ltb→le (length payload) 9 long))))
        λ v _.
          Within->>= _ _ (parse_server_hello payload) _ (parse_server_hello-Within payload)
            λ h p. p)
]
