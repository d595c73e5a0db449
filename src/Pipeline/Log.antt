-- ===== src/Pipeline/Log.antt =====
-- crates/tls-probe-cli/src/pipeline.rs: a spool with no cap is a log of the lines that are written, as
-- long as no two of its chunks are opened in the same second.
pub mod Lost
pub mod Runs
use tls_probe.Pipeline.{
  Clock, BufferedLineWriter, Spill, new_writer, buffer_line, flushed, should_flush, flush_if_needed,
  force_flush,
}
use tls_probe.Pipeline.Chunks.{
  complete_path, part_path, complete_paths_differ, complete_part_differ,
}
use tls_probe.Pipeline.Directory.{
  Entry, Directory, contents_at, append_to, remove_file, create, rename_to, IsAbsent,
  same_text_refl, contents_at-last, append_to-last, remove_file-absent, remove_file-last,
  create-absent,
}
use tls_probe.Pipeline.Spool.{
  RotatingSpoolWriter, new_spool, into_part, capped, open_next, renamed, rotate, write_line, flush,
  finalize,
}
use tls_probe.Prelude.{
  ℕ, ◌+◌, ◌-◌, ◌≤◌, ◌<◌, ◌≡◌, ◌≢◌, refl, sym, ap, ◌∙◌, true, false, List, [], ◌∷◌, ◌++◌,
  append_assoc, append-nil, Option, none, some, arith, Bool-cases, inl, inr, leb, ltb, ltb→le,
  length, length-append, length-drop, take, drop, take-append-drop, All, All-append, if◌then◌else◌,
}
use tls_probe.Wire.{Bytes}

-- A complete chunk: its time and what it holds.
pub record Finished : Type 0 where
  pub ts : ℕ
  pub contents : Bytes

abbrev pub chunk_files : List Finished → Directory
chunk_files [] = []
chunk_files (c ∷ cs) = record { name = complete_path c.ts; contents = c.contents } ∷ chunk_files cs

abbrev pub joined : List Finished → Bytes
joined [] = []
joined (c ∷ cs) = c.contents ++ joined cs

-- The chunks stand in the order of their times, all before a time.
abbrev pub IsOrdered : List Finished → ℕ → Type 0
IsOrdered [] ts = Unit
IsOrdered (c ∷ cs) ts = (c.ts < ts) × All (λ (d : Finished). c.ts < d.ts) cs × IsOrdered cs ts

-- The spool's directory holds complete chunks, of which each is older than those behind it, and the open
-- part; the chunks, the part and what the writer has buffered make up the log.
pub record Logs (s : RotatingSpoolWriter) (ts : ℕ) (log : Bytes) : Type 0 where
  pub chunks : List Finished
  pub part : Bytes
  pub uncapped : s.max_total_bytes ≡ none
  pub word : ts < 18446744073709551616
  pub ordered : IsOrdered chunks ts
  pub files :
      s.output_dir ≡ chunk_files chunks ++ (record { name = part_path ts; contents = part } ∷ [])
  pub part_named : s.current_part_path ≡ part_path ts
  pub complete_named : s.current_complete_path ≡ complete_path ts
  pub covered : length s.current_writer.buffer ≤ s.current_writer.pending_bytes
  pub holds : joined chunks ++ (part ++ s.current_writer.buffer) ≡ log

-- A writer's step: the bytes that pass and those that stay are those that there were and the line.
pub record Passes (w : BufferedLineWriter) (line : Bytes) (out : Bytes × BufferedLineWriter)
    : Type 0 where
  pub bytes : out.0 ++ out.1.buffer ≡ w.buffer ++ line
  pub tight : length out.1.buffer ≤ out.1.pending_bytes

pub buffer_line-Passes :
    (spill : Spill) (line : Bytes) (w : BufferedLineWriter)
    → length w.buffer ≤ w.pending_bytes
    → Passes w line (buffer_line spill line w)
unfolding buffer_line
buffer_line-Passes spill line w h =
    let passed = spill w.buffer line in
    record {
      bytes = take-append-drop passed (w.buffer ++ line);
      tight = omega (arith, length-append w.buffer line, length-drop passed (w.buffer ++ line));
    }

empty_of_length : (s : Bytes) → length s ≤ 0 → s ≡ []
empty_of_length [] h = refl
empty_of_length (c ∷ s) h = absurd (omega arith)

-- A flush that is forced leaves nothing buffered.
pub force_flush-Passes :
    (now : Clock) (w : BufferedLineWriter)
    → length w.buffer ≤ w.pending_bytes
    → Passes w [] (force_flush now w) × ((force_flush now w).1.buffer ≡ [])
unfolding force_flush
force_flush-Passes now w h = elim (Bool-cases (ltb 0 w.pending_bytes)) [
  | inl pending ↦ rw pending (record { bytes = refl; tight = omega arith }, refl)
  | inr idle ↦
      let none_left : w.buffer ≡ [] =
        empty_of_length w.buffer (omega (arith, ltb→le 0 w.pending_bytes idle)) in
      rw idle (record { bytes = sym (append-nil w.buffer); tight = h }, none_left)
]

pub flush_if_needed-Passes :
    (now : Clock) (w : BufferedLineWriter)
    → length w.buffer ≤ w.pending_bytes
    → Passes w [] (flush_if_needed now w)
unfolding flush_if_needed
flush_if_needed-Passes now w h = elim (Bool-cases (should_flush now w)) [
  | inl due ↦ rw due (record { bytes = refl; tight = omega arith })
  | inr wait ↦ rw wait (record { bytes = sym (append-nil w.buffer); tight = h })
]

pub IsAbsent-part :
    (cs : List Finished) (ts bound : ℕ)
    → IsOrdered cs bound
    → bound < 18446744073709551616
    → ts < 18446744073709551616
    → IsAbsent (part_path ts) (chunk_files cs)
IsAbsent-part [] ts bound o b w = tt
IsAbsent-part (c ∷ cs) ts bound o b w =
    (complete_part_differ c.ts ts (omega (arith, o.0)) w, IsAbsent-part cs ts bound o.2 b w)

pub IsAbsent-complete :
    (cs : List Finished) (ts : ℕ)
    → IsOrdered cs ts
    → ts < 18446744073709551616
    → IsAbsent (complete_path ts) (chunk_files cs)
IsAbsent-complete [] ts o w = tt
IsAbsent-complete (c ∷ cs) ts o w = (
  complete_paths_differ c.ts ts (omega (arith, o.0)) w (omega (arith, o.0)),
  IsAbsent-complete cs ts o.2 w,
)

-- What a writer lets through goes to the part.
pub into_part-Logs :
    (s : RotatingSpoolWriter) (ts : ℕ) (log line : Bytes) (out : Bytes × BufferedLineWriter)
    → Logs s ts log
    → Passes s.current_writer line out
    → Logs (into_part out s) ts (log ++ line)
into_part-Logs s ts log line out l p =
    let cs = l.chunks in
    let files =
      ap (λ (path : Bytes). append_to path out.0 s.output_dir) l.part_named
      ∙ ap (append_to (part_path ts) out.0) l.files
      ∙ append_to-last (part_path ts) (chunk_files cs) l.part out.0
          (IsAbsent-part cs ts ts l.ordered l.word l.word) in
    let held : joined cs ++ ((l.part ++ out.0) ++ out.1.buffer) ≡ log ++ line =
      ap (λ (r : Bytes). joined cs ++ r)
        (append_assoc l.part out.0 out.1.buffer
          ∙ ap (λ (r : Bytes). l.part ++ r) p.bytes
          ∙ sym (append_assoc l.part s.current_writer.buffer line))
      ∙ sym (append_assoc (joined cs) (l.part ++ s.current_writer.buffer) line)
      ∙ ap (λ (r : Bytes). r ++ line) l.holds in
    record {
      chunks = cs;
      part = l.part ++ out.0;
      uncapped = l.uncapped;
      word = l.word;
      ordered = l.ordered;
      files = files;
      part_named = l.part_named;
      complete_named = l.complete_named;
      covered = p.tight;
      holds = held;
    }

pub counted-Logs :
    (s : RotatingSpoolWriter) (n ts : ℕ) (log : Bytes)
    → Logs s ts log
    → Logs (record s { current_bytes = n }) ts log
counted-Logs s n ts log l = record {
  chunks = l.chunks;
  part = l.part;
  uncapped = l.uncapped;
  word = l.word;
  ordered = l.ordered;
  files = l.files;
  part_named = l.part_named;
  complete_named = l.complete_named;
  covered = l.covered;
  holds = l.holds;
}

pub chunk_files-append :
    (xs ys : List Finished) → chunk_files (xs ++ ys) ≡ chunk_files xs ++ chunk_files ys
chunk_files-append [] ys = refl
chunk_files-append (x ∷ xs) ys = rw (chunk_files-append xs ys)

pub joined-last :
    (cs : List Finished) (c : Finished) → joined (cs ++ (c ∷ [])) ≡ joined cs ++ c.contents
joined-last [] c = append-nil c.contents
joined-last (d ∷ cs) c = rw (joined-last cs c, append_assoc d.contents (joined cs) c.contents)

All-lt :
    (m : ℕ) (cs : List Finished) (c : Finished)
    → m < c.ts
    → All (λ (d : Finished). m < d.ts) cs
    → All (λ (d : Finished). m < d.ts) (cs ++ (c ∷ []))
All-lt m cs c h k = All-append (λ (d : Finished). m < d.ts) cs (c ∷ []) k (h, tt)

pub IsOrdered-last :
    (cs : List Finished) (c : Finished) (next : ℕ)
    → IsOrdered cs c.ts
    → c.ts < next
    → IsOrdered (cs ++ (c ∷ [])) next
IsOrdered-last [] c next o h = (h, tt, tt)
IsOrdered-last (d ∷ cs) c next o h =
    (omega (arith, o.0), All-lt d.ts cs c o.0 o.1, IsOrdered-last cs c next o.2 h)
