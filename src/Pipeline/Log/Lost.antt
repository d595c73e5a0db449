-- ===== src/Pipeline/Log/Lost.antt =====
-- crates/tls-probe-cli/src/pipeline.rs: two chunks of a spool that are opened in the same second.
use mathlib.Core.Path.{subst}
use tls_probe.Pipeline.{Clock, BufferedLineWriter, Spill, new_writer, buffer_line, force_flush}
use tls_probe.Pipeline.Chunks.{complete_path, part_path, complete_part_differ}
use tls_probe.Pipeline.Directory.{
  Entry, Directory, is_named, contents_at, append_to, remove_file, create, rename_to, IsAbsent,
  is_named-eq, same_text_refl, same_text-eq, contents_at-last, append_to-last, remove-IsAbsent,
  remove_file-last, create-absent,
}
use tls_probe.Pipeline.Log.{
  chunk_files, Logs, Passes, IsAbsent-part, buffer_line-Passes, force_flush-Passes,
}
use tls_probe.Pipeline.Log.Runs.{is_full}
use tls_probe.Pipeline.Spool.{
  RotatingSpoolWriter, into_part, capped, open_next, renamed, rotate, write_line,
}
use tls_probe.Prelude.{
  ℕ, ◌+◌, ◌<◌, ◌≡◌, ◌≢◌, refl, sym, ap, ◌∙◌, true, false, [], ◌∷◌, ◌++◌, append-nil, Option, none,
  some, arith, Bool-cases, inl, inr, ◌≤◌, length, All-append,
}
use tls_probe.Text.{same_text}
use tls_probe.Wire.{Bytes}

-- The open part is the last of the directory's files.
record Opened (s : RotatingSpoolWriter) (d : Directory) (p q c : Bytes) : Type 0 where
  uncapped : s.max_total_bytes ≡ none
  part_named : s.current_part_path ≡ p
  complete_named : s.current_complete_path ≡ q
  files : s.output_dir ≡ d ++ (record { name = p; contents = c } ∷ [])
  absent : IsAbsent p d
  covered : length s.current_writer.buffer ≤ s.current_writer.pending_bytes

into_part-Opened :
    (s : RotatingSpoolWriter) (d : Directory) (p q c line : Bytes)
    (out : Bytes × BufferedLineWriter)
    → Opened s d p q c
    → Passes s.current_writer line out
    → Opened (into_part out s) d p q (c ++ out.0)
into_part-Opened s d p q c line out o passes = record {
  uncapped = o.uncapped;
  part_named = o.part_named;
  complete_named = o.complete_named;
  files =
      ap (λ (path : Bytes). append_to path out.0 s.output_dir) o.part_named
      ∙ ap (append_to p out.0) o.files
      ∙ append_to-last p d c out.0 o.absent;
  absent = o.absent;
  covered = passes.tight;
}

-- Where the part goes, and the next one is opened.
abbrev placed : Clock → RotatingSpoolWriter → Bytes → RotatingSpoolWriter
placed now s c = open_next now (record s {
  output_dir = rename_to s.current_part_path s.current_complete_path c s.output_dir;
  current_bytes = 0;
})

renamed-Opened :
    (now : Clock) (s : RotatingSpoolWriter) (d : Directory) (p q c : Bytes)
    → Opened s d p q c
    → renamed now (contents_at s.current_part_path s.output_dir) s ≡ placed now s c
renamed-Opened now s d p q c o =
    let there =
      ap (λ (path : Bytes). contents_at path s.output_dir) o.part_named
      ∙ ap (contents_at p) o.files
      ∙ contents_at-last p d c o.absent in
    let done = record s {
      output_dir = rename_to s.current_part_path s.current_complete_path c s.output_dir;
      current_bytes = 0;
    } in
    ap (λ (r : Option Bytes). renamed now r s) there
    ∙ ap (λ (m : Option ℕ). open_next now (capped m done)) o.uncapped

rename-Opened :
    (s : RotatingSpoolWriter) (d : Directory) (p q c : Bytes)
    → Opened s d p q c
    → rename_to s.current_part_path s.current_complete_path c s.output_dir
      ≡ remove_file q d ++ (record { name = q; contents = c } ∷ [])
rename-Opened s d p q c o =
    let kept : Entry = record { name = q; contents = c } in
    ap (λ (path : Bytes). rename_to path s.current_complete_path c s.output_dir) o.part_named
    ∙ ap (λ (path : Bytes). rename_to p path c s.output_dir) o.complete_named
    ∙ ap (rename_to p q c) o.files
    ∙ ap (λ (f : Directory). remove_file q f ++ (kept ∷ [])) (remove_file-last p d c o.absent)

-- A rotation: the chunk takes its name from whatever had it.
rotate-Opened :
    (now : Clock) (s : RotatingSpoolWriter) (d : Directory) (p q c : Bytes)
    → Opened s d p q c
    → (contents : Bytes) × (contents ≡ c ++ s.current_writer.buffer)
      × (rotate now s ≡ placed now (into_part (force_flush now s.current_writer) s) contents)
      × Opened (into_part (force_flush now s.current_writer) s) d p q contents
unfolding rotate
rotate-Opened now s d p q c o =
    let out = force_flush-Passes now s.current_writer o.covered in
    let s' = into_part (force_flush now s.current_writer) s in
    let o' = into_part-Opened s d p q c [] (force_flush now s.current_writer) o out.0 in
    let all : (force_flush now s.current_writer).0 ≡ s.current_writer.buffer =
      sym (append-nil (force_flush now s.current_writer).0)
      ∙ ap (λ (b : Bytes). (force_flush now s.current_writer).0 ++ b) (sym out.1)
      ∙ out.0.bytes
      ∙ append-nil s.current_writer.buffer in
    (
      c ++ (force_flush now s.current_writer).0,
      ap (λ (b : Bytes). c ++ b) all,
      renamed-Opened now s' d p q (c ++ (force_flush now s.current_writer).0) o',
      o',
    )

removed-IsAbsent : (name : Bytes) (d : Directory) → IsAbsent name (remove_file name d)
removed-IsAbsent name [] = tt
removed-IsAbsent name (e ∷ d) = elim (Bool-cases (is_named name e)) [
  | inl gone ↦ rw gone (removed-IsAbsent name d)
  | inr stays ↦ rw stays (stays, removed-IsAbsent name d)
]

-- A file of another name stays as it is when one is created.
contents_at-create :
    (name other : Bytes) (d : Directory)
    → same_text other name ≡ false
    → name ≢ other
    → contents_at name (create other d) ≡ contents_at name d
contents_at-create name other [] h ne = rw h
contents_at-create name other (e ∷ d) h ne = elim (Bool-cases (is_named other e)) [
  | inl there ↦ (elim (Bool-cases (is_named name e)) [
    | inl here ↦ absurd (ne (sym (is_named-eq name e here) ∙ is_named-eq other e there))
    | inr not_here ↦ rw (there, not_here) refl
  ])
  | inr elsewhere ↦ (elim (Bool-cases (is_named name e)) [
    | inl here ↦ rw (elsewhere, here) refl
    | inr not_here ↦ rw (elsewhere, not_here) (contents_at-create name other d h ne)
  ])
]

true_ne_false : true ≢ false
true_ne_false h = cc

not_same : (a b : Bytes) → a ≢ b → same_text a b ≡ false
not_same a b ne = elim (Bool-cases (same_text a b)) [
  | inl same ↦ absurd (ne (same_text-eq a b same))
  | inr other ↦ other
]

placed-contents :
    (now : Clock) (s : RotatingSpoolWriter) (d : Directory) (ts : ℕ) (p c : Bytes)
    → Opened s d p (complete_path ts) c
    → ts < 18446744073709551616
    → now.secs < 18446744073709551616
    → contents_at (complete_path ts) (placed now s c).output_dir ≡ some c
placed-contents now s d ts p c o w w' =
    let q = complete_path ts in
    let differ = complete_part_differ ts now.secs w w' in
    let ne : q ≢ part_path now.secs = λ (e : q ≡ part_path now.secs).
      true_ne_false (sym (ap (same_text q) (sym e) ∙ same_text_refl q) ∙ differ) in
    let turned : same_text (part_path now.secs) q ≡ false =
      not_same (part_path now.secs) q (λ (e : part_path now.secs ≡ q). ne (sym e)) in
    ap (λ (f : Directory). contents_at q (create (part_path now.secs) f))
      (rename-Opened s d p q c o)
    ∙ contents_at-create q (part_path now.secs)
        (remove_file q d ++ (record { name = q; contents = c } ∷ [])) turned ne
    ∙ contents_at-last q (remove_file q d) c (removed-IsAbsent q d)

-- The next chunk, opened in the second of the one before.
placed-Opened :
    (now : Clock) (s : RotatingSpoolWriter) (d : Directory) (ts : ℕ) (c : Bytes)
    → Opened s d (part_path ts) (complete_path ts) c
    → ts < 18446744073709551616
    → now.secs ≡ ts
    → Opened
        (placed now s c)
        (remove_file (complete_path ts) d
          ++ (record { name = complete_path ts; contents = c } ∷ []))
        (part_path ts)
        (complete_path ts)
        []
unfolding new_writer
placed-Opened now s d ts c o w same =
    let q = complete_path ts in
    let left = remove_file q d ++ (record { name = q; contents = c } ∷ []) in
    let free : IsAbsent (part_path ts) left =
      All-append (λ (e : Entry). is_named (part_path ts) e ≡ false) (remove_file q d)
        (record { name = q; contents = c } ∷ []) (remove-IsAbsent (part_path ts) q d o.absent)
        (complete_part_differ ts ts w w, tt) in
    record {
      uncapped = o.uncapped;
      part_named = ap part_path same;
      complete_named = ap complete_path same;
      files =
          ap (λ (f : Directory). create (part_path now.secs) f)
            (rename-Opened s d (part_path ts) q c o)
          ∙ ap (λ (n : ℕ). create (part_path n) left) same
          ∙ create-absent (part_path ts) left free;
      absent = free;
      covered = omega arith;
    }

counted-Opened :
    (s : RotatingSpoolWriter) (n : ℕ) (d : Directory) (p q c : Bytes)
    → Opened s d p q c
    → Opened (record s { current_bytes = n }) d p q c
counted-Opened s n d p q c o = record {
  uncapped = o.uncapped;
  part_named = o.part_named;
  complete_named = o.complete_named;
  files = o.files;
  absent = o.absent;
  covered = o.covered;
}

abbrev with_line : Spill → Bytes → RotatingSpoolWriter → RotatingSpoolWriter
with_line spill line s = record (into_part (buffer_line spill line s.current_writer) s) {
  current_bytes = s.current_bytes + length line;
}

write-full :
    (spill : Spill) (now : Clock) (line : Bytes) (s : RotatingSpoolWriter)
    → is_full s line ≡ true
    → write_line spill now line s ≡ rotate now (with_line spill line s)
unfolding write_line is_full
write-full spill now line s full = rw full

-- A line that fills a chunk alone: the chunk holds it under its name, whatever had that name before.
write-Opened :
    (spill : Spill) (now : Clock) (line : Bytes) (s : RotatingSpoolWriter) (d : Directory) (ts : ℕ)
    → Opened s d (part_path ts) (complete_path ts) []
    → s.current_writer.buffer ≡ []
    → is_full s line ≡ true
    → ts < 18446744073709551616
    → now.secs < 18446744073709551616
    → contents_at (complete_path ts) (write_line spill now line s).output_dir ≡ some line
write-Opened spill now line s d ts o idle full w w' =
    let out = buffer_line spill line s.current_writer in
    let passes = buffer_line-Passes spill line s.current_writer o.covered in
    let s' = with_line spill line s in
    let o' =
      counted-Opened (into_part out s) (s.current_bytes + length line) d (part_path ts)
        (complete_path ts) out.0
        (into_part-Opened s d (part_path ts) (complete_path ts) [] line out o passes) in
    let (contents, all, turned, o'') =
      rotate-Opened now s' d (part_path ts) (complete_path ts) out.0 o' in
    let whole : contents ≡ line = all ∙ passes.bytes ∙ ap (λ (b : Bytes). b ++ line) idle in
    ap (λ (x : RotatingSpoolWriter). contents_at (complete_path ts) x.output_dir)
      (write-full spill now line s full ∙ turned)
    ∙ placed-contents now (into_part (force_flush now s'.current_writer) s') d ts (part_path ts)
        contents o'' w w'
    ∙ ap (λ (b : Bytes). some b) whole

-- A spool without a cap that is rotated in the second in which its chunk was opened: the chunk
-- stands complete under the name of that second, with all that was written to it; and a line that then
-- fills the next chunk alone, whenever it comes, stands under the same name in its place, so that what
-- the first chunk held is lost.
pub rotate-write_line :
    (spill : Spill) (now later : Clock) (s : RotatingSpoolWriter) (ts : ℕ) (log line : Bytes)
    (l : Logs s ts log)
    → now.secs ≡ ts
    → later.secs < 18446744073709551616
    → is_full (rotate now s) line ≡ true
    → (contents_at (complete_path ts) (rotate now s).output_dir
        ≡ some (l.part ++ s.current_writer.buffer))
      × (contents_at (complete_path ts) (write_line spill later line (rotate now s)).output_dir
          ≡ some line)
unfolding new_writer
rotate-write_line spill now later s ts log line l same w full =
    let p = part_path ts in
    let q = complete_path ts in
    let d = chunk_files l.chunks in
    let o : Opened s d p q l.part = record {
      uncapped = l.uncapped;
      part_named = l.part_named;
      complete_named = l.complete_named;
      files = l.files;
      absent = IsAbsent-part l.chunks ts ts l.ordered l.word l.word;
      covered = l.covered;
    } in
    let (contents, all, turned, o') = rotate-Opened now s d p q l.part o in
    let s' = into_part (force_flush now s.current_writer) s in
    let left = remove_file q d ++ (record { name = q; contents = contents } ∷ []) in
    let next : Opened (rotate now s) left p q [] =
      subst (λ (x : RotatingSpoolWriter). Opened x left p q []) (sym turned)
        (placed-Opened now s' d ts contents o' l.word same) in
    let idle : (rotate now s).current_writer.buffer ≡ [] =
      ap (λ (x : RotatingSpoolWriter). x.current_writer.buffer) turned in
    let secs : now.secs < 18446744073709551616 = omega (arith, same, l.word) in
    (
      ap (λ (x : RotatingSpoolWriter). contents_at q x.output_dir) turned
          ∙ placed-contents now s' d ts p contents o' l.word secs
          ∙ ap (λ (b : Bytes). some b) all,
      write-Opened spill later line (rotate now s) left ts next idle full l.word w,
    )
