-- ===== src/Pipeline/Cap/Oldest.antt =====
-- Sorting of chunks by their times.
use tls_probe.Pipeline.Spool.{Chunk, insert_chunk, sort_chunks}
use tls_probe.Prelude.{
  ℕ, ◌≤◌, List, [], ◌∷◌, ◌++◌, arith, Bool-cases, inl, inr, leb, leb→le, leb→lt, All,
}

-- Each time is at most those behind it.
abbrev pub IsSorted : List Chunk → Type 0
IsSorted [] = Unit
IsSorted (c ∷ cs) = All (λ (d : Chunk). c.ts ≤ d.ts) cs × IsSorted cs

pub insert-All :
    (P : Chunk → Type 0) (c : Chunk) (cs : List Chunk) → P c → All P cs → All P (insert_chunk c cs)
unfolding insert_chunk
insert-All P c [] h k = (h, tt)
insert-All P c (d ∷ ds) h k = elim (Bool-cases (leb c.ts d.ts)) [
  | inl before ↦ rw before (h, k)
  | inr behind ↦ rw behind (k.0, insert-All P c ds h k.1)
]

All-le :
    (m n : ℕ) (cs : List Chunk)
    → m ≤ n
    → All (λ (d : Chunk). n ≤ d.ts) cs
    → All (λ (d : Chunk). m ≤ d.ts) cs
All-le m n [] h k = tt
All-le m n (c ∷ cs) h k = (omega (arith, k.0), All-le m n cs h k.1)

insert-IsSorted : (c : Chunk) (cs : List Chunk) → IsSorted cs → IsSorted (insert_chunk c cs)
unfolding insert_chunk
insert-IsSorted c [] h = (tt, tt)
insert-IsSorted c (d ∷ ds) h = elim (Bool-cases (leb c.ts d.ts)) [
  | inl before ↦ let le = leb→le c.ts d.ts before in rw before ((le, All-le c.ts d.ts ds le h.0), h)
  | inr behind ↦
      let lt = leb→lt c.ts d.ts behind in
      rw behind
        (insert-All (λ (e : Chunk). d.ts ≤ e.ts) c ds (omega arith) h.0, insert-IsSorted c ds h.1)
]

pub sort-IsSorted : (cs : List Chunk) → IsSorted (sort_chunks cs)
unfolding sort_chunks
sort-IsSorted [] = tt
sort-IsSorted (c ∷ cs) = insert-IsSorted c (sort_chunks cs) (sort-IsSorted cs)

pub All-right : (P : Chunk → Type 0) (xs ys : List Chunk) → All P (xs ++ ys) → All P ys
All-right P [] ys h = h
All-right P (x ∷ xs) ys h = All-right P xs ys h.1

-- Of a sorted list in two parts, none of the first is newer than any of the second.
pub sorted_split :
    (xs ys : List Chunk)
    → IsSorted (xs ++ ys)
    → All (λ (x : Chunk). All (λ (y : Chunk). x.ts ≤ y.ts) ys) xs
sorted_split [] ys h = tt
sorted_split (x ∷ xs) ys h =
    (All-right (λ (y : Chunk). x.ts ≤ y.ts) xs ys h.0, sorted_split xs ys h.1)
