-- ===== src/Pipeline/Log/Runs.antt =====
-- crates/tls-probe-cli/src/pipeline.rs: the log through rotations, and whole runs of a spool.
use mathlib.Core.Path.{subst}
use tls_probe.Pipeline.{Clock, Spill, new_writer, buffer_line, flush_if_needed, force_flush}
use tls_probe.Pipeline.Chunks.{complete_path, part_path}
use tls_probe.Pipeline.Directory.{
  Entry, Directory, contents_at, remove_file, create, rename_to, contents_at-last,
  remove_file-absent, remove_file-last, create-absent,
}
use tls_probe.Pipeline.Log.{
  Finished, chunk_files, joined, IsOrdered, Logs, buffer_line-Passes, force_flush-Passes,
  flush_if_needed-Passes, IsAbsent-part, IsAbsent-complete, into_part-Logs, counted-Logs,
  chunk_files-append, joined-last, IsOrdered-last,
}
use tls_probe.Pipeline.Spool.{
  RotatingSpoolWriter, new_spool, into_part, capped, open_next, renamed, renamed_last, rotate,
  write_line, flush, finalize,
}
use tls_probe.Prelude.{
  ℕ, ◌+◌, ◌<◌, ◌≡◌, refl, sym, ap, ◌∙◌, Bool, true, List, [], ◌∷◌, ◌++◌, append_assoc, append-nil,
  Option, none, some, arith, Bool-cases, inl, inr, leb, length, if◌then◌else◌,
}
use tls_probe.Wire.{Bytes}

-- The part becomes the last chunk.
rename-files :
    (cs : List Finished) (ts : ℕ) (c : Bytes)
    → IsOrdered cs ts
    → ts < 18446744073709551616
    → rename_to
        (part_path ts)
        (complete_path ts)
        c
        (chunk_files cs ++ (record { name = part_path ts; contents = c } ∷ []))
      ≡ chunk_files (cs ++ (record { ts = ts; contents = c } ∷ []))
rename-files cs ts c o w =
    let renamed_file : Entry = record { name = complete_path ts; contents = c } in
    ap (λ (d : Directory). remove_file (complete_path ts) d ++ (renamed_file ∷ []))
      (remove_file-last (part_path ts) (chunk_files cs) c (IsAbsent-part cs ts ts o w w))
    ∙ ap (λ (d : Directory). d ++ (renamed_file ∷ []))
        (remove_file-absent (complete_path ts) (chunk_files cs) (IsAbsent-complete cs ts o w))
    ∙ sym (chunk_files-append cs (record { ts = ts; contents = c } ∷ []))

module _ (s : RotatingSpoolWriter) (ts : ℕ) (log : Bytes) (l : Logs s ts log) where
  part_there : contents_at s.current_part_path s.output_dir ≡ some l.part
  part_there =
      ap (λ (path : Bytes). contents_at path s.output_dir) l.part_named
      ∙ ap (contents_at (part_path ts)) l.files
      ∙ contents_at-last (part_path ts) (chunk_files l.chunks) l.part
          (IsAbsent-part l.chunks ts ts l.ordered l.word l.word)

  renamed_files :
      rename_to s.current_part_path s.current_complete_path l.part s.output_dir
      ≡ chunk_files (l.chunks ++ (record { ts = ts; contents = l.part } ∷ []))
  renamed_files =
      ap (λ (path : Bytes). rename_to path s.current_complete_path l.part s.output_dir) l.part_named
      ∙ ap (λ (path : Bytes). rename_to (part_path ts) path l.part s.output_dir) l.complete_named
      ∙ ap (rename_to (part_path ts) (complete_path ts) l.part) l.files
      ∙ rename-files l.chunks ts l.part l.ordered l.word

  -- With nothing buffered, the chunks with the part are the log.
  joined_all :
      s.current_writer.buffer ≡ []
      → joined (l.chunks ++ (record { ts = ts; contents = l.part } ∷ [])) ≡ log
  joined_all e =
      joined-last l.chunks (record { ts = ts; contents = l.part })
      ∙ ap (λ (r : Bytes). joined l.chunks ++ r)
          (sym (append-nil l.part) ∙ ap (λ (b : Bytes). l.part ++ b) (sym e))
      ∙ l.holds

  -- The next chunk is opened in a later second.
  renamed-Logs :
      (now : Clock)
      → s.current_writer.buffer ≡ []
      → ts < now.secs
      → now.secs < 18446744073709551616
      → Logs (renamed now (contents_at s.current_part_path s.output_dir) s) now.secs log
  unfolding new_writer
  renamed-Logs now e later w =
      let cs = l.chunks ++ (record { ts = ts; contents = l.part } ∷ []) in
      let ordered =
        IsOrdered-last l.chunks (record { ts = ts; contents = l.part }) now.secs l.ordered later in
      let done = record s {
        output_dir = rename_to s.current_part_path s.current_complete_path l.part s.output_dir;
        current_bytes = 0;
      } in
      let opened : Logs (open_next now done) now.secs log = record {
        chunks = cs;
        part = [];
        uncapped = l.uncapped;
        word = w;
        ordered = ordered;
        files =
            ap (create (part_path now.secs)) renamed_files
            ∙ create-absent (part_path now.secs) (chunk_files cs)
                (IsAbsent-part cs now.secs now.secs ordered w w);
        part_named = refl;
        complete_named = refl;
        covered = omega arith;
        holds = append-nil (joined cs) ∙ joined_all e;
      } in
      let same : open_next now done ≡ renamed now (contents_at s.current_part_path s.output_dir) s =
        ap (λ (m : Option ℕ). open_next now (capped m done)) (sym l.uncapped)
        ∙ ap (λ (c : Option Bytes). renamed now c s) (sym part_there) in
      subst (λ (x : RotatingSpoolWriter). Logs x now.secs log) same opened

rotate-Logs :
    (s : RotatingSpoolWriter) (ts : ℕ) (log : Bytes) (now : Clock)
    → Logs s ts log
    → ts < now.secs
    → now.secs < 18446744073709551616
    → Logs (rotate now s) now.secs log
unfolding rotate
rotate-Logs s ts log now l later w =
    let out = force_flush-Passes now s.current_writer l.covered in
    let l' = into_part-Logs s ts log [] (force_flush now s.current_writer) l out.0 in
    subst (λ (r : Bytes). Logs (rotate now s) now.secs r) (append-nil log)
      (renamed-Logs (into_part (force_flush now s.current_writer) s) ts (log ++ []) l' now out.1
        later w)

-- The line fills the chunk.
unfoldable pub is_full : RotatingSpoolWriter → Bytes → Bool
is_full s line = leb s.max_chunk_bytes (s.current_bytes + length line)

pub write_line-Logs :
    (spill : Spill) (s : RotatingSpoolWriter) (ts : ℕ) (log line : Bytes) (now : Clock)
    → Logs s ts log
    → (is_full s line ≡ true → (ts < now.secs) × (now.secs < 18446744073709551616))
    → Logs (write_line spill now line s) (if is_full s line then now.secs else ts) (log ++ line)
unfolding write_line is_full
write_line-Logs spill s ts log line now l separate =
    let out = buffer_line-Passes spill line s.current_writer l.covered in
    let l' = into_part-Logs s ts log line (buffer_line spill line s.current_writer) l out in
    let s'' = record (into_part (buffer_line spill line s.current_writer) s) {
      current_bytes = s.current_bytes + length line;
    } in
    let l'' : Logs s'' ts (log ++ line) =
      counted-Logs (into_part (buffer_line spill line s.current_writer) s)
        (s.current_bytes + length line) ts (log ++ line) l' in
    elim (Bool-cases (leb s.max_chunk_bytes (s.current_bytes + length line))) [
      | inl full ↦
          let later = separate full in
          rw full (rotate-Logs s'' ts (log ++ line) now l'' later.0 later.1)
      | inr room ↦ rw room l''
    ]

flush-Logs :
    (s : RotatingSpoolWriter) (ts : ℕ) (log : Bytes) (now : Clock)
    → Logs s ts log
    → Logs (flush now s) ts log
unfolding flush
flush-Logs s ts log now l =
    subst (λ (r : Bytes). Logs (flush now s) ts r) (append-nil log)
      (into_part-Logs s ts log [] (flush_if_needed now s.current_writer) l
        (flush_if_needed-Passes now s.current_writer l.covered))

-- What the writer's thread calls.
pub data Call : Type 0 where
  written : Clock → Bytes → Call
  idle : Clock → Call

abbrev pub call : Spill → Call → RotatingSpoolWriter → RotatingSpoolWriter
call spill (written now line) s = write_line spill now line s
call spill (idle now) s = flush now s

abbrev pub run : Spill → List Call → RotatingSpoolWriter → RotatingSpoolWriter
run spill [] s = s
run spill (c ∷ cs) s = run spill cs (call spill c s)

abbrev pub written_bytes : List Call → Bytes
written_bytes [] = []
written_bytes (written now line ∷ cs) = line ++ written_bytes cs
written_bytes (idle now ∷ cs) = written_bytes cs

-- Whenever a line fills a chunk, the clock shows a later second than when the chunk was opened.
abbrev pub IsSeparate : Spill → RotatingSpoolWriter → ℕ → List Call → Type 0
IsSeparate spill s ts [] = Unit
IsSeparate spill s ts (written now line ∷ cs) =
    (is_full s line ≡ true → (ts < now.secs) × (now.secs < 18446744073709551616))
    × IsSeparate spill (write_line spill now line s) (if is_full s line then now.secs else ts) cs
IsSeparate spill s ts (idle now ∷ cs) = IsSeparate spill (flush now s) ts cs

run-Logs :
    (spill : Spill) (cs : List Call) (s : RotatingSpoolWriter) (ts : ℕ) (log : Bytes)
    → Logs s ts log
    → IsSeparate spill s ts cs
    → (last : ℕ) × Logs (run spill cs s) last (log ++ written_bytes cs)
run-Logs spill [] s ts log l h = (ts, subst (λ (r : Bytes). Logs s ts r) (sym (append-nil log)) l)
run-Logs spill (written now line ∷ cs) s ts log l h =
    let s' = write_line spill now line s in
    let (last, l') =
      run-Logs spill cs s' (if is_full s line then now.secs else ts) (log ++ line)
        (write_line-Logs spill s ts log line now l h.0) h.1 in
    (
      last,
      subst (λ (r : Bytes). Logs (run spill cs s') last r)
          (append_assoc log line (written_bytes cs)) l',
    )
run-Logs spill (idle now ∷ cs) s ts log l h =
    run-Logs spill cs (flush now s) ts log (flush-Logs s ts log now l) h

-- Complete chunks alone, in the order of their times, which hold these bytes.
pub record IsLog (d : Directory) (log : Bytes) : Type 0 where
  pub chunks : List Finished
  pub next : ℕ
  pub files : d ≡ chunk_files chunks
  pub ordered : IsOrdered chunks next
  pub holds : joined chunks ≡ log

finalize-Logs :
    (s : RotatingSpoolWriter) (ts : ℕ) (log : Bytes) (now : Clock)
    → Logs s ts log
    → IsLog (finalize now s) log
unfolding finalize
finalize-Logs s ts log now l =
    let out = force_flush-Passes now s.current_writer l.covered in
    let s' = into_part (force_flush now s.current_writer) s in
    let l' = into_part-Logs s ts log [] (force_flush now s.current_writer) l out.0 in
    record {
      chunks = l'.chunks ++ (record { ts = ts; contents = l'.part } ∷ []);
      next = ts + 1;
      files =
          ap (λ (c : Option Bytes). renamed_last c s') (part_there s' ts (log ++ []) l')
          ∙ renamed_files s' ts (log ++ []) l';
      ordered =
          IsOrdered-last l'.chunks (record { ts = ts; contents = l'.part }) (ts + 1) l'.ordered
            (omega arith);
      holds = joined_all s' ts (log ++ []) l' out.1 ∙ append-nil log;
    }

pub new_spool-Logs :
    (now : Clock) (max_chunk_bytes chunks_evicted : ℕ)
    → now.secs < 18446744073709551616
    → Logs (new_spool now [] max_chunk_bytes none chunks_evicted) now.secs []
unfolding new_spool new_writer
new_spool-Logs now max_chunk_bytes chunks_evicted w = record {
  chunks = [];
  part = [];
  uncapped = refl;
  word = w;
  ordered = tt;
  files = refl;
  part_named = refl;
  complete_named = refl;
  covered = omega arith;
  holds = refl;
}

-- A spool without a cap, opened in an empty directory, is a log: when it is finalized, the
-- directory holds complete chunks alone, each older than those behind it, and what they hold, one
-- behind the other, is what was written, in its order, wherever the library's buffer spills and
-- whenever the writer flushes. The condition is that each chunk is filled in a later second than
-- it was opened in, by a clock of 64 bits.
pub finalize-run :
    (spill : Spill) (start stop : Clock) (max_chunk_bytes chunks_evicted : ℕ) (cs : List Call)
    → start.secs < 18446744073709551616
    → IsSeparate spill (new_spool start [] max_chunk_bytes none chunks_evicted) start.secs cs
    → IsLog
        (finalize stop (run spill cs (new_spool start [] max_chunk_bytes none chunks_evicted)))
        (written_bytes cs)
finalize-run spill start stop max_chunk_bytes chunks_evicted cs w h =
    let s = new_spool start [] max_chunk_bytes none chunks_evicted in
    let ended =
      run-Logs spill cs s start.secs [] (new_spool-Logs start max_chunk_bytes chunks_evicted w) h in
    finalize-Logs (run spill cs s) ended.0 (written_bytes cs) stop ended.1
