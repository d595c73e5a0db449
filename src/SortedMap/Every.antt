-- ===== src/SortedMap/Every.antt =====
-- Properties of every entry of a map.
use tls_probe.Prelude.{◌≡◌, ◌||◌, [], ◌∷◌, some, arith, All, Bool-cases, inl, inr}
use tls_probe.SortedMap.{KeyOrder, Entries, get, insert, remove}

module _ {K V : Type 0} (o : KeyOrder K) (P : K → V → Type 0) where
  abbrev pub Every : Entries K V → Type 0
  Every = All (λ e. P e.0 e.1)

  pub Every-insert : (k : K) (v : V) (m : Entries K V) → P k v → Every m → Every (insert o k v m)
  unfolding insert
  Every-insert k v [] p h = (p, tt)
  Every-insert k v ((i, w) ∷ m) p h = elim (Bool-cases (o.lt k i)) [
    | inl before ↦ rw before (p, h)
    | inr other ↦ rw other (elim (Bool-cases (o.lt i k)) [
      | inl after ↦ rw after (h.0, Every-insert k v m p h.1)
      | inr same ↦ rw same (p, h.1)
    ])
  ]

  pub Every-remove : (k : K) (m : Entries K V) → Every m → Every (remove o k m)
  unfolding remove
  Every-remove k [] h = tt
  Every-remove k ((i, w) ∷ m) h = elim (Bool-cases (o.lt k i || o.lt i k)) [
    | inl other ↦ rw other (h.0, Every-remove k m h.1)
    | inr same ↦ rw same h.1
  ]

  pub Every-get : (k : K) (m : Entries K V) (v : V) → Every m → get o k m ≡ some v → P k v
  unfolding get
  Every-get k [] v h e = cc
  Every-get k ((i, w) ∷ m) v h e = elim (Bool-cases (o.lt k i || o.lt i k)) [
    | inl other ↦ Every-get k m v h.1 (rw other at e)
    | inr same ↦
        let k-is : k ≡ i = ground (arith, o.lt_total k i) in
        let v-is : w ≡ v = ground arith in rw (k-is, ← v-is) h.0
  ]
