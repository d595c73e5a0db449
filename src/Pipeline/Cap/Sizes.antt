-- ===== src/Pipeline/Cap/Sizes.antt =====
-- The chunks that are listed are those of the directory, and removing one removes its size.
use tls_probe.Pipeline.Cap.Oldest.{insert-All}
use tls_probe.Pipeline.Chunks.{chunk_time}
use tls_probe.Pipeline.Directory.{
  Entry, Directory, is_named, contents_at, remove_file, IsAbsent, IsDirectory, is_named-eq,
  same_text_refl, remove_file-absent, remove-IsAbsent,
}
use tls_probe.Pipeline.Spool.{Chunk, list_complete_chunks, insert_chunk, sort_chunks, total_size}
use tls_probe.Prelude.{
  ◌+◌, ◌≡◌, ◌≢◌, refl, sym, ap, ◌∙◌, inl, inr, true, false, List, [], ◌∷◌, Option, some, arith,
  Bool-cases, Option-cases, leb, length, All,
}
use tls_probe.Text.{same_text}
use tls_probe.Wire.{Bytes}

-- A chunk as it stands in the directory.
pub record IsHeld (d : Directory) (c : Chunk) : Type 0 where
  pub contents : Bytes
  pub there : contents_at c.path d ≡ some contents
  pub sized : length contents ≡ c.size
  pub named : chunk_time c.path ≡ some c.ts

abbrev pub IsApart : List Chunk → Type 0
IsApart [] = Unit
IsApart (c ∷ cs) = All (λ (e : Chunk). c.path ≢ e.path) cs × IsApart cs

IsAbsent-named :
    (name : Bytes) (e : Entry) (d : Directory) → e.name ≡ name → IsAbsent e.name d → IsAbsent name d
IsAbsent-named name e d h k = rw (← h) k

pub remove-IsDirectory :
    (name : Bytes) (d : Directory) → IsDirectory d → IsDirectory (remove_file name d)
remove-IsDirectory name [] h = tt
remove-IsDirectory name (e ∷ d) h = elim (Bool-cases (is_named name e)) [
  | inl gone ↦ rw gone (remove-IsDirectory name d h.1)
  | inr stays ↦ rw stays (remove-IsAbsent e.name name d h.0, remove-IsDirectory name d h.1)
]

-- A file of another name stays.
contents_at-remove :
    (name other : Bytes) (d : Directory)
    → name ≢ other
    → contents_at name (remove_file other d) ≡ contents_at name d
contents_at-remove name other [] h = refl
contents_at-remove name other (e ∷ d) h = elim (Bool-cases (is_named other e)) [
  | inl gone ↦ (elim (Bool-cases (is_named name e)) [
    | inl here ↦ absurd (h (sym (is_named-eq name e here) ∙ is_named-eq other e gone))
    | inr not_here ↦ rw (gone, not_here) (contents_at-remove name other d h)
  ])
  | inr stays ↦ (elim (Bool-cases (is_named name e)) [
    | inl here ↦ rw (stays, here) refl
    | inr not_here ↦ rw (stays, not_here) (contents_at-remove name other d h)
  ])
]

pub remove-IsHeld :
    (c : Chunk) (cs : List Chunk) (d : Directory)
    → All (λ (e : Chunk). c.path ≢ e.path) cs
    → All (IsHeld d) cs
    → All (IsHeld (remove_file c.path d)) cs
remove-IsHeld c [] d a h = tt
remove-IsHeld c (e ∷ cs) d a h = (
  record {
    contents = h.0.contents;
    there = contents_at-remove e.path c.path d (λ (q : e.path ≡ c.path). a.0 (sym q)) ∙ h.0.there;
    sized = h.0.sized;
    named = h.0.named;
  },
  remove-IsHeld c cs d a.1 h.1,
)

first_named :
    (name : Bytes) (e : Entry) (d : Directory)
    → is_named name e ≡ true
    → (c : Bytes) → contents_at name (e ∷ d) ≡ some c
    → ◌≡◌ {A = Option Bytes} (some e.contents) (some c)
first_named name e d here c h = rw here at h

later_named :
    (name : Bytes) (e : Entry) (d : Directory)
    → is_named name e ≡ false
    → (c : Bytes) → contents_at name (e ∷ d) ≡ some c
    → contents_at name d ≡ some c
later_named name e d other c h = rw other at h

some_eq : {a b : Bytes} → ◌≡◌ {A = Option Bytes} (some a) (some b) → a ≡ b
some_eq h = cc

pub remove-total :
    (c : Chunk) (d : Directory)
    → IsDirectory d
    → IsHeld d c
    → total_size (list_complete_chunks (remove_file c.path d)) + c.size
      ≡ total_size (list_complete_chunks d)
unfolding total_size list_complete_chunks
remove-total c [] u h = cc (h.there)
remove-total c (e ∷ d) u h = elim (Bool-cases (is_named c.path e)) [
  | inl here ↦
      let name = is_named-eq c.path e here in
      let content : e.contents ≡ h.contents =
        some_eq (first_named c.path e d here h.contents h.there) in
      let time : chunk_time e.name ≡ some c.ts = ap chunk_time name ∙ h.named in
      rw
        (
          here,
          remove_file-absent c.path d (IsAbsent-named c.path e d name u.0),
          list_complete_chunks,
          time,
        )
        (omega (arith, h.sized, ap length content))
  | inr elsewhere ↦
      let held : IsHeld d c = record {
        contents = h.contents;
        there = later_named c.path e d elsewhere h.contents h.there;
        sized = h.sized;
        named = h.named;
      } in
      let ih = remove-total c d u.1 held in
      (elim (Option-cases (chunk_time e.name)) [
        | inl plain ↦ rw (elsewhere, list_complete_chunks, plain) ih
        | inr (ts, time) ↦ rw (elsewhere, list_complete_chunks, time) (omega (arith, ih))
      ])
]

passed_over :
    (name : Bytes) (e : Entry) (d : Directory)
    → e.name ≢ name
    → contents_at name (e ∷ d) ≡ contents_at name d
passed_over name e d h = elim (Bool-cases (is_named name e)) [
  | inl here ↦ absurd (h (is_named-eq name e here))
  | inr other ↦ rw other refl
]

false_ne_true : false ≢ true
false_ne_true h = cc

ne_of_false : (a b : Bytes) → same_text a b ≡ false → a ≢ b
ne_of_false a b h =
    λ (q : a ≡ b). false_ne_true (sym h ∙ ap (same_text a) (sym q) ∙ same_text_refl a)

absent_ne : (name : Bytes) (e : Entry) → is_named name e ≡ false → name ≢ e.name
absent_ne name e h = λ (q : name ≡ e.name). ne_of_false e.name name h (sym q)

-- A file more before the others.
IsHeld-behind :
    (e : Entry) (d : Directory) (cs : List Chunk)
    → All (λ (c : Chunk). e.name ≢ c.path) cs
    → All (IsHeld d) cs
    → All (IsHeld (e ∷ d)) cs
IsHeld-behind e d [] a h = tt
IsHeld-behind e d (c ∷ cs) a h = (
  record {
    contents = h.0.contents;
    there = passed_over c.path e d a.0 ∙ h.0.there;
    sized = h.0.sized;
    named = h.0.named;
  },
  IsHeld-behind e d cs a.1 h.1,
)

list_apart :
    (name : Bytes) (d : Directory)
    → IsAbsent name d
    → All (λ (c : Chunk). name ≢ c.path) (list_complete_chunks d)
unfolding list_complete_chunks
list_apart name [] h = tt
list_apart name (e ∷ d) h = elim (Option-cases (chunk_time e.name)) [
  | inl plain ↦ rw (list_complete_chunks, plain) (list_apart name d h.1)
  | inr (ts, time) ↦ rw (list_complete_chunks, time) (absent_ne name e h.0, list_apart name d h.1)
]

pub list-IsHeld : (d : Directory) → IsDirectory d → All (IsHeld d) (list_complete_chunks d)
unfolding list_complete_chunks
list-IsHeld [] u = tt
list-IsHeld (e ∷ d) u =
    let rest =
      IsHeld-behind e d (list_complete_chunks d) (list_apart e.name d u.0) (list-IsHeld d u.1) in
    (elim (Option-cases (chunk_time e.name)) [
      | inl plain ↦ rw (list_complete_chunks, plain) rest
      | inr (ts, time) ↦
          let here : contents_at e.name (e ∷ d) ≡ some e.contents = rw (same_text_refl e.name) in
          rw (list_complete_chunks, time)
            (record { contents = e.contents; there = here; sized = refl; named = time }, rest)
    ])

pub list-IsApart : (d : Directory) → IsDirectory d → IsApart (list_complete_chunks d)
unfolding list_complete_chunks
list-IsApart [] u = tt
list-IsApart (e ∷ d) u = elim (Option-cases (chunk_time e.name)) [
  | inl plain ↦ rw (list_complete_chunks, plain) (list-IsApart d u.1)
  | inr (ts, time) ↦ rw (list_complete_chunks, time) (list_apart e.name d u.0, list-IsApart d u.1)
]

pub sort-All : (P : Chunk → Type 0) (cs : List Chunk) → All P cs → All P (sort_chunks cs)
unfolding sort_chunks
sort-All P [] h = tt
sort-All P (c ∷ cs) h = insert-All P c (sort_chunks cs) h.0 (sort-All P cs h.1)

insert-IsApart :
    (c : Chunk) (cs : List Chunk)
    → All (λ (e : Chunk). c.path ≢ e.path) cs
    → IsApart cs
    → IsApart (insert_chunk c cs)
unfolding insert_chunk
insert-IsApart c [] a h = (tt, tt)
insert-IsApart c (d ∷ ds) a h = elim (Bool-cases (leb c.ts d.ts)) [
  | inl before ↦ rw before (a, h)
  | inr behind ↦ rw behind (
    insert-All (λ (e : Chunk). d.path ≢ e.path) c ds (λ (q : d.path ≡ c.path). a.0 (sym q)) h.0,
    insert-IsApart c ds a.1 h.1,
  )
]

pub sort-IsApart : (cs : List Chunk) → IsApart cs → IsApart (sort_chunks cs)
unfolding sort_chunks
sort-IsApart [] h = tt
sort-IsApart (c ∷ cs) h =
    insert-IsApart c (sort_chunks cs) (sort-All (λ (e : Chunk). c.path ≢ e.path) cs h.0)
      (sort-IsApart cs h.1)

insert-total :
    (c : Chunk) (cs : List Chunk) → total_size (insert_chunk c cs) ≡ c.size + total_size cs
unfolding insert_chunk total_size
insert-total c [] = refl
insert-total c (d ∷ ds) = elim (Bool-cases (leb c.ts d.ts)) [
  | inl before ↦ rw before refl
  | inr behind ↦ rw behind (omega (arith, insert-total c ds))
]

pub sort-total : (cs : List Chunk) → total_size (sort_chunks cs) ≡ total_size cs
unfolding sort_chunks total_size
sort-total [] = refl
sort-total (c ∷ cs) = insert-total c (sort_chunks cs) ∙ omega (arith, sort-total cs)
