-- ===== src/Ja4/Sort.antt =====
-- The sorted and the largest of a list of numbers, whatever their order was.
use Prim.Native.Nat.{max}
use mathlib.Core.List.{Perm, Permᴰ}
use mathlib.Core.Logic.{∥∥₁_elim}
use tls_probe.Prelude.{
  ℕ, suc, ◌≡◌, refl, sym, ap, ◌∙◌, List, [], ◌∷◌, Option, none, some, leb, length, arith,
  if◌then◌else◌,
}

-- `sort_unstable`: numbers that are equal are the same.
unfoldable pub insert_sorted : ℕ → List ℕ → List ℕ
insert_sorted x [] = x ∷ []
insert_sorted x (y ∷ ys) =
    let later = insert_sorted x ys in if leb x y then x ∷ y ∷ ys else y ∷ later

unfoldable pub sort : List ℕ → List ℕ
unfolding insert_sorted
sort [] = []
sort (x ∷ xs) = insert_sorted x (sort xs)

abbrev larger : ℕ → Option ℕ → ℕ
larger v none = v
larger v (some w) = max v w

-- `Iterator::max`
unfoldable pub max_of : List ℕ → Option ℕ
max_of [] = none
max_of (v ∷ vs) = some (larger v (max_of vs))

insert_sorted_comm :
    (a b : ℕ) (s : List ℕ)
    → insert_sorted a (insert_sorted b s) ≡ insert_sorted b (insert_sorted a s)
unfolding insert_sorted
insert_sorted_comm a b [] = ground arith
insert_sorted_comm a b (x ∷ s) = ground (arith, insert_sorted_comm a b s)

larger_comm : (a b : ℕ) (m : Option ℕ) → larger a (some (larger b m)) ≡ larger b (some (larger a m))
larger_comm a b none = omega arith
larger_comm a b (some m) = omega arith

sort-Permᴰ : {xs ys : List ℕ} → Permᴰ xs ys → sort xs ≡ sort ys
unfolding sort
sort-Permᴰ Permᴰ.nil = refl
sort-Permᴰ (Permᴰ.cons e d) = rw (e, sort-Permᴰ d)
sort-Permᴰ (Permᴰ.swap {a' = a'} {b' = b'} {l = l} e f) =
    rw (e, f) (insert_sorted_comm b' a' (sort l))
sort-Permᴰ (Permᴰ.trans d e) = sort-Permᴰ d ∙ sort-Permᴰ e

max_of-Permᴰ : {xs ys : List ℕ} → Permᴰ xs ys → max_of xs ≡ max_of ys
unfolding max_of
max_of-Permᴰ Permᴰ.nil = refl
max_of-Permᴰ (Permᴰ.cons e d) = rw (e, max_of-Permᴰ d)
max_of-Permᴰ (Permᴰ.swap {a' = a'} {b' = b'} {l = l} e f) =
    rw (e, f) (ap some (larger_comm b' a' (max_of l)))
max_of-Permᴰ (Permᴰ.trans d e) = max_of-Permᴰ d ∙ max_of-Permᴰ e

length-insert_sorted : (x : ℕ) (xs : List ℕ) → length (insert_sorted x xs) ≡ suc (length xs)
unfolding insert_sorted
length-insert_sorted x [] = refl
length-insert_sorted x (y ∷ ys) = ground (arith, length-insert_sorted x ys)

length-sort : (xs : List ℕ) → length (sort xs) ≡ length xs
unfolding sort
length-sort [] = refl
length-sort (x ∷ xs) = length-insert_sorted x (sort xs) ∙ ap suc (length-sort xs)

-- Lists with the same elements, in whatever order, sort to the same list.
pub sort-Perm : {xs ys : List ℕ} → Perm xs ys → sort xs ≡ sort ys
sort-Perm {xs} {ys} p =
    let unique : IsProp (sort xs ≡ sort ys) = hlevel in ∥∥₁_elim p unique sort-Permᴰ

pub max_of-Perm : {xs ys : List ℕ} → Perm xs ys → max_of xs ≡ max_of ys
max_of-Perm {xs} {ys} p =
    let unique : IsProp (max_of xs ≡ max_of ys) = hlevel in ∥∥₁_elim p unique max_of-Permᴰ

pub length-Perm : {xs ys : List ℕ} → Perm xs ys → length xs ≡ length ys
length-Perm {xs} {ys} p = sym (length-sort xs) ∙ ap length (sort-Perm p) ∙ length-sort ys
