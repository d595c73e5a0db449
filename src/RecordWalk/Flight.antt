-- ===== src/RecordWalk/Flight.antt =====
-- crates/tls-probe-cli/src/record_walk.rs on a flight of records that a server wrote.
use tls_probe.Prelude.{
  ℕ, zero, suc, ◌+◌, ◌*◌, ◌<◌, true, false, List, [], ◌∷◌, ◌++◌, ◌==◌, length, if◌then◌else◌,
}
use tls_probe.RecordWalk.{ExtractedRecord, keep}
use tls_probe.Wire.{Bytes, IsU16, u16_be}
use tls_probe.Wire.Cursor.{Cursor}

-- A record on the wire.
pub record WireRecord : Type 0 where
  pub content_type : ℕ
  pub version : ℕ
  pub body : Bytes

abbrev pub IsRecord : WireRecord → Type 0
IsRecord r = IsU16 r.version × IsU16 (length r.body)

abbrev pub record_bytes : WireRecord → Bytes
record_bytes r = r.content_type ∷ (u16_be r.version ++ (u16_be (length r.body) ++ r.body))

abbrev pub flight_bytes : List WireRecord → Bytes
flight_bytes [] = []
flight_bytes (r ∷ rs) = record_bytes r ++ flight_bytes rs

-- What the packet's end leaves of a record: no whole header, or less than the header announces.
abbrev pub IsCutRecord : Bytes → Type 0
IsCutRecord (t ∷ a ∷ b ∷ c ∷ e ∷ body) = length body < c * 256 + e
IsCutRecord _ = Unit

-- A record that is cut off is kept with what there is of it.
abbrev pub cut_record : Bytes → List ExtractedRecord
cut_record (t ∷ a ∷ b ∷ c ∷ e ∷ body) = if t == 0x16 then keep (a * 256 + b) body true else []
cut_record _ = []

-- The records that are kept of a flight: certificate records, of at most so many, up to the first
-- that is not a handshake.
unfoldable pub kept_records : ℕ → List WireRecord → Bytes → List ExtractedRecord
kept_records zero rs cut = []
kept_records (suc n) [] cut = cut_record cut
kept_records (suc n) (r ∷ rs) cut =
    let rest = kept_records n rs cut in
    if r.content_type == 0x16 then keep r.version r.body false ++ rest else []
