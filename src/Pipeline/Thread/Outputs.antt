-- ===== src/Pipeline/Thread/Outputs.antt =====
-- crates/tls-probe-cli/src/pipeline.rs: what the writer's thread has written in the end.
use tls_probe.Pipeline.{Clock, BufferedLineWriter, Spill, buffer_line, flush_if_needed, force_flush}
use tls_probe.Pipeline.Log.{Passes, buffer_line-Passes, flush_if_needed-Passes, force_flush-Passes}
use tls_probe.Pipeline.Thread.{
  Sunk, into_sink, plain, backend_write_line, backend_flush_if_needed, Stored, backend_finalize,
  Received, line, empty, round, rounds, run_writer_thread,
}
use tls_probe.Prelude.{
  ℕ, ◌+◌, ◌≤◌, ◌≡◌, sym, ap, ◌∙◌, List, [], ◌∷◌, ◌++◌, append_assoc, append-nil, some, arith,
  length,
}
use tls_probe.Wire.{Bytes}

-- What the sink has got and what is buffered are the log.
pub record Holds (s : Sunk) (log : Bytes) : Type 0 where
  pub holds : s.sink ++ s.writer.buffer ≡ log
  pub covered : length s.writer.buffer ≤ s.writer.pending_bytes

into_sink-Holds :
    (s : Sunk) (log more : Bytes) (out : Bytes × BufferedLineWriter)
    → Holds s log
    → Passes s.writer more out
    → Holds (into_sink s out) (log ++ more)
into_sink-Holds s log more out h p = record {
  holds =
      append_assoc s.sink out.0 out.1.buffer
      ∙ ap (λ (r : Bytes). s.sink ++ r) p.bytes
      ∙ sym (append_assoc s.sink s.writer.buffer more)
      ∙ ap (λ (r : Bytes). r ++ more) h.holds;
  covered = p.tight;
}

abbrev pub lines_of : List (Clock × Received) → Bytes
lines_of [] = []
lines_of ((now, line bytes) ∷ rest) = bytes ++ lines_of rest
lines_of ((now, empty) ∷ rest) = lines_of rest

abbrev pub count_lines : List (Clock × Received) → ℕ
count_lines [] = 0
count_lines ((now, line bytes) ∷ rest) = 1 + count_lines rest
count_lines ((now, empty) ∷ rest) = count_lines rest

written_and_flushed :
    (spill : Spill) (now : Clock) (bytes log : Bytes) (s : Sunk)
    → Holds s log
    → Holds
        (into_sink
          (into_sink s (buffer_line spill bytes s.writer))
          (flush_if_needed now (into_sink s (buffer_line spill bytes s.writer)).writer))
        ((log ++ bytes) ++ [])
written_and_flushed spill now bytes log s h =
    let h' =
      into_sink-Holds s log bytes (buffer_line spill bytes s.writer) h
        (buffer_line-Passes spill bytes s.writer h.covered) in
    let s' = into_sink s (buffer_line spill bytes s.writer) in
    into_sink-Holds s' (log ++ bytes) [] (flush_if_needed now s'.writer) h'
      (flush_if_needed-Passes now s'.writer h'.covered)

-- The outputs after a round.
abbrev after : Spill → Clock → Received → Sunk → Sunk
after spill now (line bytes) s =
    let s' = into_sink s (buffer_line spill bytes s.writer) in
    into_sink s' (flush_if_needed now s'.writer)
after spill now empty s = into_sink s (flush_if_needed now s.writer)

abbrev after_all : Spill → List (Clock × Received) → Sunk → Sunk
after_all spill [] s = s
after_all spill ((now, received) ∷ rest) s = after_all spill rest (after spill now received s)

nil_last : (s : Sunk) (log : Bytes) → Holds s (log ++ []) → Holds s log
nil_last s log h = record { holds = h.holds ∙ append-nil log; covered = h.covered }

after_all-Holds :
    (spill : Spill) (received : List (Clock × Received)) (s : Sunk) (log : Bytes)
    → Holds s log
    → Holds (after_all spill received s) (log ++ lines_of received)
after_all-Holds spill [] s log h = record {
  holds = h.holds ∙ sym (append-nil log);
  covered = h.covered;
}
after_all-Holds spill ((now, line bytes) ∷ rest) s log h =
    let s' = after spill now (line bytes) s in
    let h' = nil_last s' (log ++ bytes) (written_and_flushed spill now bytes log s h) in
    let ih = after_all-Holds spill rest s' (log ++ bytes) h' in
    record { holds = ih.holds ∙ append_assoc log bytes (lines_of rest); covered = ih.covered }
after_all-Holds spill ((now, empty) ∷ rest) s log h =
    let s' = after spill now empty s in
    let h' = nil_last s' log (
      into_sink-Holds s log [] (flush_if_needed now s.writer) h
        (flush_if_needed-Passes now s.writer h.covered)) in
    after_all-Holds spill rest s' log h'

rounds-plain :
    (spill : Spill) (received : List (Clock × Received)) (f o : Sunk) (n : ℕ)
    → rounds spill received
        (record { file_writer = some (plain f); stdout_writer = some o; events_emitted = n })
      ≡ record {
        file_writer = some (plain (after_all spill received f));
        stdout_writer = some (after_all spill received o);
        events_emitted = n + count_lines received;
      }
unfolding rounds round backend_write_line backend_flush_if_needed
rounds-plain spill [] f o n =
    let e : n ≡ n + 0 = omega arith in
    ap
      (λ (m : ℕ). record {
        file_writer = some (plain f);
        stdout_writer = some o;
        events_emitted = m;
      })
      e
rounds-plain spill ((now, line bytes) ∷ rest) f o n =
    let e : n + 1 + count_lines rest ≡ n + (1 + count_lines rest) = omega arith in
    rounds-plain spill rest (after spill now (line bytes) f) (after spill now (line bytes) o)
      (n + 1)
    ∙ ap
        (λ (m : ℕ). record {
          file_writer = some (plain (after_all spill rest (after spill now (line bytes) f)));
          stdout_writer = some (after_all spill rest (after spill now (line bytes) o));
          events_emitted = m;
        })
        e
rounds-plain spill ((now, empty) ∷ rest) f o n =
    rounds-plain spill rest (after spill now empty f) (after spill now empty o) n

forced :
    (now : Clock) (s : Sunk) (log : Bytes)
    → Holds s log
    → (into_sink s (force_flush now s.writer)).sink ≡ log
forced now s log h =
    let out = force_flush-Passes now s.writer h.covered in
    let h' = into_sink-Holds s log [] (force_flush now s.writer) h out.0 in
    sym (append-nil (into_sink s (force_flush now s.writer)).sink)
    ∙ ap (λ (b : Bytes). (into_sink s (force_flush now s.writer)).sink ++ b) (sym out.1)
    ∙ h'.holds
    ∙ append-nil log

-- With a plain file and standard output, both hold in the end what they held before and all
-- the lines, one behind the other, and the lines are counted, whatever the library's buffers spill
-- and whenever they are flushed.
pub run_writer_thread-outputs :
    (spill : Spill) (stop : Clock) (received : List (Clock × Received)) (f o : Sunk)
    (file_log out_log : Bytes)
    → Holds f file_log
    → Holds o out_log
    → run_writer_thread spill stop received (some (plain f)) (some o) ≡ (
      some (Stored.file (file_log ++ lines_of received)),
      some (out_log ++ lines_of received),
      count_lines received,
    )
unfolding run_writer_thread backend_finalize
run_writer_thread-outputs spill stop received f o file_log out_log h k =
    let file_end =
      forced stop (after_all spill received f) (file_log ++ lines_of received)
        (after_all-Holds spill received f file_log h) in
    let out_end =
      forced stop (after_all spill received o) (out_log ++ lines_of received)
        (after_all-Holds spill received o out_log k) in
    let zero_first : 0 + count_lines received ≡ count_lines received = omega arith in
    rw (rounds-plain spill received f o 0, zero_first, file_end, out_end)
