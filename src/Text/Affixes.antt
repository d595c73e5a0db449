-- ===== src/Text/Affixes.antt =====
-- Prefixes and suffixes that are there are found, and what is found is there.
use mathlib.Core.List.{reverse, reverse-append, reverse-reverse}
use tls_probe.Prelude.{
  ◌≡◌, refl, true, [], ◌∷◌, ◌++◌, some, arith, ◌==◌, ==_refl, ==_iff, Bool-cases, inl, inr,
}
use tls_probe.Text.{strip_prefix, strip_suffix, starts_with, ends_with, contains}
use tls_probe.Wire.{Bytes}

pub strip_prefix-append : (p s : Bytes) → strip_prefix p (p ++ s) ≡ some s
strip_prefix-append [] s = refl
strip_prefix-append (c ∷ p) s = rw (==_refl c) (strip_prefix-append p s)

pub strip_prefix_found : (p s r : Bytes) → strip_prefix p s ≡ some r → s ≡ p ++ r
strip_prefix_found [] s r h = ground arith
strip_prefix_found (c ∷ p) [] r h = cc
strip_prefix_found (c ∷ p) (d ∷ s) r h = elim (Bool-cases (c == d)) [
  | inl same ↦
      let h' : strip_prefix p s ≡ some r = rw same at h in
      let e : c ≡ d = (==_iff c d).0 same in rw (e, strip_prefix_found p s r h')
  | inr other ↦ cc (rw other at h)
]

pub strip_suffix-append : (p s : Bytes) → strip_suffix p (s ++ p) ≡ some s
strip_suffix-append p s =
    rw (reverse-append s p, strip_prefix-append (reverse p) (reverse s), reverse-reverse s)

pub starts_with-append : (p s : Bytes) → starts_with p (p ++ s) ≡ true
starts_with-append p s = rw (strip_prefix-append p s)

pub ends_with-append : (p s : Bytes) → ends_with p (s ++ p) ≡ true
ends_with-append p s = rw (strip_suffix-append p s)

contains_of_starts : (p s : Bytes) → starts_with p s ≡ true → contains p s ≡ true
contains_of_starts p [] h = h
contains_of_starts p (c ∷ s) h = rw h

pub contains-append : (a p b : Bytes) → contains p (a ++ (p ++ b)) ≡ true
contains-append [] p b = contains_of_starts p (p ++ b) (starts_with-append p b)
contains-append (c ∷ a) p b = elim (Bool-cases (starts_with p (c ∷ (a ++ (p ++ b))))) [
  | inl here ↦ rw here refl
  | inr later ↦ rw later (contains-append a p b)
]
