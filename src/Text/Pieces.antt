-- ===== src/Text/Pieces.antt =====
-- The pieces of a text that is split.
use tls_probe.Prelude.{
  ℕ, ◌≡◌, refl, Bool, true, false, not, ◌&&◌, List, [], ◌∷◌, ◌++◌, ◌==◌, ==_refl, Bool-cases, inl,
  inr, All,
}
use tls_probe.Text.{split}
use tls_probe.Wire.{Bytes}

-- The separator does not occur.
abbrev pub IsFree : ℕ → Bytes → Type 0
IsFree sep s = All (λ (c : ℕ). (c == sep) ≡ false) s

pub split-IsFree : (sep : ℕ) (s : Bytes) → IsFree sep s → split sep s ≡ s ∷ []
split-IsFree sep [] h = refl
split-IsFree sep (c ∷ s) h = rw (h.0, split-IsFree sep s h.1)

pub split-append :
    (sep : ℕ) (s r : Bytes) → IsFree sep s → split sep (s ++ (sep ∷ r)) ≡ s ∷ split sep r
split-append sep [] r h = rw (==_refl sep)
split-append sep (c ∷ s) r h = rw (h.0, split-append sep s r h.1)

split-cons : (sep : ℕ) (s : Bytes) → (p : Bytes) × (ps : List Bytes) × (split sep s ≡ p ∷ ps)
split-cons sep [] = ([], [], refl)
split-cons sep (c ∷ s) = elim (Bool-cases (c == sep)) [
  | inl here ↦ ([], split sep s, rw here)
  | inr other ↦ let found = split-cons sep s in (c ∷ found.0, found.1, rw (other, found.2))
]

-- The last piece.
pub split_last :
    (sep : ℕ) (d s : Bytes) → IsFree sep s → split sep (d ++ (sep ∷ s)) ≡ split sep d ++ (s ∷ [])
split_last sep [] s h = rw (==_refl sep, split-IsFree sep s h)
split_last sep (c ∷ d) s h = elim (Bool-cases (c == sep)) [
  | inl here ↦ rw (here, split_last sep d s h)
  | inr other ↦ let found = split-cons sep d in rw (other, split_last sep d s h, found.2)
]

abbrev pub is_free : ℕ → Bytes → Bool
is_free sep [] = true
is_free sep (c ∷ s) = not (c == sep) && is_free sep s

pub is_free-IsFree : (sep : ℕ) (s : Bytes) → is_free sep s ≡ true → IsFree sep s
is_free-IsFree sep [] h = tt
is_free-IsFree sep (c ∷ s) h = elim (Bool-cases (c == sep)) [
  | inl here ↦ cc (rw here at h)
  | inr other ↦ let h' : is_free sep s ≡ true = rw other at h in (other, is_free-IsFree sep s h')
]
