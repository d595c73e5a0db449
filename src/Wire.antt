-- ===== src/Wire.antt =====
-- Reading bytes out of a slice as the Rust code does: `data[i]`, `&data[a..b]` and
-- `u16::from_be_bytes`, with the panic of an index out of range as an outcome.
-- Errors are those of crates/tls-probe-parser/src/error.rs.
pub mod Cursor
use tls_probe.Outcome.{Outcome, ok, panic, ◌>>=◌}
use tls_probe.Prelude.{
  ℕ, ◌+◌, ◌-◌, ◌*◌, ◌/◌, ◌%◌, Bool, true, false, ◌&&◌, List, [], ◌∷◌, ◌++◌, none, some, leb, length,
  get_elem?, take, drop, if◌then◌else◌, All, ◌<◌,
}

-- A byte is a number below 256.
abbrev pub Bytes : Type 0
Bytes = List ℕ

-- `data[i]`
unfoldable pub byte_at : Bytes → ℕ → Outcome ℕ
byte_at data' i = elim (get_elem? data' i) [ none ↦ panic | some b ↦ ok b ]

-- `u16::from_be_bytes([data[i], data[i + 1]])`
unfoldable pub u16_at : Bytes → ℕ → Outcome ℕ
u16_at data' i = do hi ← byte_at data' i; lo ← byte_at data' (i + 1); ok (hi * 256 + lo)

-- `&data[a..b]`
unfoldable pub slice : Bytes → ℕ → ℕ → Outcome Bytes
slice data' a b =
    if leb a b && leb b (length data') then ok (take (b - a) (drop a data')) else panic

-- `v.to_be_bytes()` of a `u16`
abbrev pub u16_be : ℕ → Bytes
u16_be v = v / 256 ∷ v % 256 ∷ []

abbrev pub u16_list : List ℕ → Bytes
u16_list [] = []
u16_list (v ∷ vs) = v / 256 ∷ v % 256 ∷ u16_list vs

abbrev pub IsBytes : Bytes → Type 0
IsBytes = All (λ b. b < 256)

abbrev pub IsU16 : ℕ → Type 0
IsU16 v = v < 65536
