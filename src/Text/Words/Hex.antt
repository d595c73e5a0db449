-- ===== src/Text/Words/Hex.antt =====
-- A number that is written in base 16 is read back, with zeros before it or not.
use tls_probe.Prelude.{
  ℕ, zero, suc, ◌+◌, ◌*◌, ◌/◌, ◌%◌, ◌<◌, ◌≡◌, sym, ◌∙◌, false, [], ◌∷◌, some, arith, ltb, lt→ltb,
  ◌==◌, ==_iff, Bool-cases, inl, inr, All, length, if◌then◌else◌,
}
use tls_probe.Text.Pieces.{IsFree}
use tls_probe.Text.Words.{hex_digit, read_hex, from_hex, trim_start, or_zero}
use tls_probe.Wire.{Bytes}

-- A digit in upper case.
abbrev pub digit16 : ℕ → ℕ
digit16 d = if ltb d 10 then 48 + d else 55 + d

-- So many digits of a number, with what stands behind them.
abbrev pub hexes : ℕ → ℕ → Bytes → Bytes
hexes zero n behind = behind
hexes (suc k) n behind = hexes k (n / 16) (digit16 (n % 16) ∷ behind)

abbrev pub pow16 : ℕ → ℕ
pow16 zero = 1
pow16 (suc k) = 16 * pow16 k

hex_digit-digit16 : (d : ℕ) → d < 16 → hex_digit (digit16 d) ≡ some d
hex_digit-digit16 d h = ground arith

read_hex_digit :
    (bound m d : ℕ) (s : Bytes)
    → d < 16
    → m * 16 + d < bound
    → read_hex bound m (digit16 d ∷ s) ≡ read_hex bound (m * 16 + d) s
read_hex_digit bound m d s h w =
    let e : hex_digit (digit16 d) ≡ some d = hex_digit-digit16 d h in
    rw (read_hex, e, lt→ltb (m * 16 + d) bound w)

read_hex-hexes :
    (k n bound : ℕ) (s : Bytes)
    → n < pow16 k
    → n < bound
    → read_hex bound 0 (hexes k n s) ≡ read_hex bound n s
read_hex-hexes zero n bound s h w = let e : n ≡ 0 = omega arith in rw e
read_hex-hexes (suc k) n bound s h w =
    let e : n / 16 * 16 + n % 16 ≡ n = omega arith in
    read_hex-hexes k (n / 16) bound (digit16 (n % 16) ∷ s) (omega arith) (omega arith)
    ∙ read_hex_digit bound (n / 16) (n % 16) s (omega arith) (omega arith)
    ∙ rw e

pub hexes-All {κ} :
    (P : ℕ → Type κ) (k n : ℕ) (s : Bytes)
    → ((d : ℕ) → d < 16 → P (digit16 d))
    → All P s
    → All P (hexes k n s)
hexes-All P zero n s h a = a
hexes-All P (suc k) n s h a =
    hexes-All P k (n / 16) (digit16 (n % 16) ∷ s) h (h (n % 16) (omega arith), a)

digit16_plus : (d : ℕ) → d < 16 → (digit16 d == 43) ≡ false
digit16_plus d h = ground arith

no_plus : (k n : ℕ) → IsFree 43 (hexes k n [])
no_plus k n = hexes-All _ k n [] digit16_plus tt

from_hex-read_hex :
    (bound : ℕ) (c : ℕ) (s : Bytes)
    → IsFree 43 (c ∷ s)
    → from_hex bound (c ∷ s) ≡ read_hex bound 0 (c ∷ s)
unfolding from_hex
from_hex-read_hex bound c s h = rw h.0

-- Zeros at the start do not count, and none at all is a zero.
trimmed :
    (bound : ℕ) (s : Bytes)
    → 0 < bound
    → IsFree 43 s
    → from_hex bound (or_zero (trim_start 48 s)) ≡ read_hex bound 0 s
unfolding from_hex
trimmed bound [] h f = rw (lt→ltb 0 bound h)
trimmed bound (c ∷ s) h f = elim (Bool-cases (c == 48)) [
  | inl zero_first ↦
      let e : c ≡ 48 = (==_iff c 48).0 zero_first in
      rw zero_first (trimmed bound s h f.1 ∙ sym (rw (e, lt→ltb 0 bound h)))
  | inr other ↦ rw other (from_hex-read_hex bound c s f)
]

pub from_hex-trimmed :
    (k n bound : ℕ)
    → n < pow16 k
    → n < bound
    → from_hex bound (or_zero (trim_start 48 (hexes k n []))) ≡ some n
from_hex-trimmed k n bound h w =
    trimmed bound (hexes k n []) (omega arith) (no_plus k n) ∙ read_hex-hexes k n bound [] h w

from_hex_free :
    (bound : ℕ) (s : Bytes) (n : ℕ)
    → IsFree 43 s
    → 0 < length s
    → read_hex bound 0 s ≡ some n
    → from_hex bound s ≡ some n
from_hex_free bound [] n f l h = absurd (omega arith)
from_hex_free bound (c ∷ s) n f l h = from_hex-read_hex bound c s f ∙ h

length-hexes : (k n : ℕ) (s : Bytes) → length (hexes k n s) ≡ k + length s
length-hexes zero n s = omega arith
length-hexes (suc k) n s = omega (arith, length-hexes k (n / 16) (digit16 (n % 16) ∷ s))

pub from_hex-hexes :
    (k n bound : ℕ) → 0 < k → n < pow16 k → n < bound → from_hex bound (hexes k n []) ≡ some n
from_hex-hexes k n bound p h w =
    from_hex_free bound (hexes k n []) n (no_plus k n) (omega (arith, length-hexes k n []))
      (read_hex-hexes k n bound [] h w)
