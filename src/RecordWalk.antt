-- ===== src/RecordWalk.antt =====
-- crates/tls-probe-cli/src/record_walk.rs: the certificate records behind the first record of a
-- packet. The `while` loop takes fuel, one round more than it may have.
pub mod Flight
pub mod Total
mod Tests
use tls_probe.Outcome.{Outcome, ok, spin, ◌>>=◌, Returns}
use tls_probe.Prelude.{
  ℕ, zero, suc, ◌+◌, Bool, true, false, not, ◌&&◌, ◌||◌, List, [], ◌∷◌, ◌++◌, ltb, leb, ◌==◌,
  length, if◌then◌else◌,
}
use tls_probe.Wire.{Bytes, byte_at, u16_at, slice}

abbrev pub max_records_to_walk : ℕ
max_records_to_walk = 4

pub record ExtractedRecord : Type 0 where
  pub version : ℕ
  pub body : Bytes
  pub truncated : Bool

-- A body that is not empty and starts with the type of a Certificate or a CertificateRequest.
unfoldable pub is_certificate : Bytes → Bool
is_certificate [] = false
is_certificate (handshake_type ∷ _) = handshake_type == 0x0B || handshake_type == 0x0D

-- The record is pushed, or not.
unfoldable pub keep : ℕ → Bytes → Bool → List ExtractedRecord
unfolding is_certificate
keep version body truncated =
    if is_certificate body
    then record { version = version; body = body; truncated = truncated } ∷ []
    else []

unfoldable pub walk_loop : ℕ → Bytes → ℕ → ℕ → List ExtractedRecord → Outcome (List ExtractedRecord)
unfolding keep
walk_loop zero payload offset record_count records = spin
walk_loop (suc fuel) payload offset record_count records =
    let round = do
      content_type ← byte_at payload offset
      version ← u16_at payload (offset + 1)
      record_len ← u16_at payload (offset + 3)
      let truncated = ltb (length payload) (offset + 5 + record_len)
      body ←
          slice payload (offset + 5) (if truncated then length payload else offset + 5 + record_len)
      let records' = records ++ keep version body truncated
      let rest = walk_loop fuel payload (offset + 5 + record_len) (record_count + 1) records'
      if not (content_type == 0x16) then ok records else if truncated then ok records' else rest
    in if leb (offset + 5) (length payload) && ltb record_count max_records_to_walk
      then round
      else ok records

unfoldable pub walk_records : Bytes → Outcome (List ExtractedRecord)
unfolding walk_loop
walk_records payload =
    let read = do
      first_record_len ← u16_at payload 3
      walk_loop (suc max_records_to_walk) payload (5 + first_record_len) 0 []
    in if ltb (length payload) 6 then ok [] else read
