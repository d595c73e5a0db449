-- ===== src/SortedMap.antt =====
-- `BTreeMap` of the Rust library, as the list of its entries in the order of their keys.
pub mod Every
pub mod Orders
use tls_probe.Prelude.{
  ℕ, zero, suc, ◌+◌, ◌≤◌, ◌<◌, ◌≡◌, ◌≢◌, refl, sym, ap, ◌∙◌, ◌⊎◌, inl, inr, Bool, true, false, not,
  ◌||◌, List, [], ◌∷◌, Option, none, some, arith, Bool-cases, ltb, length, if◌then◌else◌,
}

-- A total order of the keys.
pub record KeyOrder (K : Type 0) : Type 0 where
  pub lt : K → K → Bool
  pub lt_irrefl : (a : K) → lt a a ≡ false
  pub lt_trans : (a b c : K) → lt a b ≡ true → lt b c ≡ true → lt a c ≡ true
  pub lt_total : (a b : K) → lt a b ≡ false → lt b a ≡ false → a ≡ b

abbrev pub Entries : Type 0 → Type 0 → Type 0
Entries K V = List (K × V)

module _ {K V : Type 0} (o : KeyOrder K) where
  unfoldable pub get : K → Entries K V → Option V
  get k [] = none
  get k ((j, v) ∷ m) = if o.lt k j || o.lt j k then get k m else some v

  -- A new key goes to its place, the value of an old one is replaced.
  unfoldable pub insert : K → V → Entries K V → Entries K V
  insert k v [] = (k, v) ∷ []
  insert k v ((j, w) ∷ m) =
      let later = (j, w) ∷ insert k v m in
      if o.lt k j then (k, v) ∷ (j, w) ∷ m else if o.lt j k then later else (k, v) ∷ m

  unfoldable pub remove : K → Entries K V → Entries K V
  remove k [] = []
  remove k ((j, v) ∷ m) = if o.lt k j || o.lt j k then (j, v) ∷ remove k m else m

  pub get-insert_self : (k : K) (v : V) (m : Entries K V) → get k (insert k v m) ≡ some v
  unfolding get insert
  get-insert_self k v [] = rw (o.lt_irrefl k)
  get-insert_self k v ((j, w) ∷ m) = ground (arith, o.lt_irrefl k, get-insert_self k v m)

  pub get-insert_ne : (k j : K) (v : V) (m : Entries K V) → j ≢ k → get j (insert k v m) ≡ get j m
  unfolding get insert
  get-insert_ne k j v [] n = ground (arith, o.lt_total j k)
  get-insert_ne k j v ((i, w) ∷ m) n =
      ground (arith, o.lt_total j k, o.lt_total k i, get-insert_ne k j v m)

  pub length-insert_new :
      (k : K) (v : V) (m : Entries K V) → get k m ≡ none → length (insert k v m) ≡ suc (length m)
  unfolding get insert
  length-insert_new k v [] h = refl
  length-insert_new k v ((i, w) ∷ m) h = ground (arith, length-insert_new k v m)

  pub length-insert-le : (k : K) (v : V) (m : Entries K V) → length (insert k v m) ≤ suc (length m)
  unfolding insert
  length-insert-le k v [] = omega arith
  length-insert-le k v ((i, w) ∷ m) = ground (arith, length-insert-le k v m)

  pub get-remove_ne : (k j : K) (m : Entries K V) → j ≢ k → get j (remove k m) ≡ get j m
  unfolding get remove
  get-remove_ne k j [] n = refl
  get-remove_ne k j ((i, w) ∷ m) n =
      ground (arith, o.lt_total j k, o.lt_total k i, get-remove_ne k j m)

  pub length-remove-le : (k : K) (m : Entries K V) → length (remove k m) ≤ length m
  unfolding remove
  length-remove-le k [] = omega arith
  length-remove-le k ((i, w) ∷ m) = ground (arith, length-remove-le k m)

  -- Every key of the map is greater than this one.
  abbrev pub Above : K → Entries K V → Type 0
  Above k [] = Unit
  Above k ((j, v) ∷ m) = (o.lt k j ≡ true) × Above k m

  abbrev pub IsSorted : Entries K V → Type 0
  IsSorted [] = Unit
  IsSorted ((k, v) ∷ m) = Above k m × IsSorted m

  Above-trans : (k j : K) (m : Entries K V) → o.lt k j ≡ true → Above j m → Above k m
  Above-trans k j [] h a = tt
  Above-trans k j ((i, v) ∷ m) h a = (o.lt_trans k j i h a.0, Above-trans k j m h a.1)

  Above-get : (k : K) (m : Entries K V) → Above k m → get k m ≡ none
  unfolding get
  Above-get k [] a = refl
  Above-get k ((i, v) ∷ m) a = ground (arith, Above-get k m)

  Above-insert :
      (k j : K) (v : V) (m : Entries K V) → o.lt j k ≡ true → Above j m → Above j (insert k v m)
  unfolding insert
  Above-insert k j v [] h a = (h, tt)
  Above-insert k j v ((i, w) ∷ m) h a = elim (Bool-cases (o.lt k i)) [
    | inl before ↦ rw before (h, a)
    | inr other ↦ rw other (elim (Bool-cases (o.lt i k)) [
      | inl after ↦ rw after (a.0, Above-insert k j v m h a.1)
      | inr same ↦ rw same (h, a.1)
    ])
  ]

  Above-remove : (k j : K) (m : Entries K V) → Above j m → Above j (remove k m)
  unfolding remove
  Above-remove k j [] a = tt
  Above-remove k j ((i, w) ∷ m) a = elim (Bool-cases (o.lt k i || o.lt i k)) [
    | inl other ↦ rw other (a.0, Above-remove k j m a.1)
    | inr same ↦ rw same a.1
  ]

  pub insert-IsSorted : (k : K) (v : V) (m : Entries K V) → IsSorted m → IsSorted (insert k v m)
  unfolding insert
  insert-IsSorted k v [] s = (tt, tt)
  insert-IsSorted k v ((i, w) ∷ m) s = elim (Bool-cases (o.lt k i)) [
    | inl before ↦ rw before ((before, Above-trans k i m before s.0), s)
    | inr other ↦ rw other (elim (Bool-cases (o.lt i k)) [
      | inl after ↦ rw after (Above-insert k i v m after s.0, insert-IsSorted k v m s.1)
      | inr same ↦ rw same (rw (o.lt_total k i other same) s.0, s.1)
    ])
  ]

  pub remove-IsSorted : (k : K) (m : Entries K V) → IsSorted m → IsSorted (remove k m)
  unfolding remove
  remove-IsSorted k [] s = tt
  remove-IsSorted k ((i, w) ∷ m) s = elim (Bool-cases (o.lt k i || o.lt i k)) [
    | inl other ↦ rw other (Above-remove k i m s.0, remove-IsSorted k m s.1)
    | inr same ↦ rw same s.1
  ]

  pub get-remove_self : (k : K) (m : Entries K V) → IsSorted m → get k (remove k m) ≡ none
  unfolding get remove
  get-remove_self k [] s = refl
  get-remove_self k ((i, w) ∷ m) s = elim (Bool-cases (o.lt k i || o.lt i k)) [
    | inl other ↦ rw (other, other) (get-remove_self k m s.1)
    | inr same ↦
        let e : k ≡ i = ground (arith, o.lt_total k i) in rw same (rw e (Above-get i m s.0))
  ]

  -- What stands behind a key is greater.
  pub Above-get-some :
      (k j : K) (v : V) (m : Entries K V) → Above k m → get j m ≡ some v → o.lt k j ≡ true
  unfolding get
  Above-get-some k j v [] a h = cc
  Above-get-some k j v ((i, w) ∷ m) a h = elim (Bool-cases (o.lt j i || o.lt i j)) [
    | inl other ↦ Above-get-some k j v m a.1 (rw other at h)
    | inr same ↦ let e : j ≡ i = ground (arith, o.lt_total j i) in rw e a.0
  ]

  pub get-behind :
      (k j : K) (v w : V) (m : Entries K V)
      → Above k m
      → get j m ≡ some v
      → get j ((k, w) ∷ m) ≡ some v
  unfolding get
  get-behind k j v w m a h = ground (arith, Above-get-some k j v m a h)

  pub length-remove_found :
      (k : K) (v : V) (m : Entries K V) → get k m ≡ some v → suc (length (remove k m)) ≡ length m
  unfolding get remove
  length-remove_found k v [] h = cc
  length-remove_found k v ((i, w) ∷ m) h = elim (Bool-cases (o.lt k i || o.lt i k)) [
    | inl other ↦ rw other (ap suc (length-remove_found k v m (rw other at h)))
    | inr same ↦ rw same
  ]

  pub length-insert_found :
      (k : K) (v w : V) (m : Entries K V)
      → IsSorted m
      → get k m ≡ some w
      → length (insert k v m) ≡ length m
  unfolding get insert
  length-insert_found k v w [] s h = cc
  length-insert_found k v w ((i, u) ∷ m) s h = elim (Bool-cases (o.lt k i)) [
    | inl before ↦
        let later : get k m ≡ some w = rw before at h in
        absurd
          (ground (arith, Above-get-some i k w m s.0 later, o.lt_trans k i k before, o.lt_irrefl k))
    | inr other ↦ rw other (elim (Bool-cases (o.lt i k)) [
      | inl after ↦
          let later : get k m ≡ some w = rw (other, after) at h in
          rw after (ap suc (length-insert_found k v w m s.1 later))
      | inr same ↦ rw same
    ])
  ]
