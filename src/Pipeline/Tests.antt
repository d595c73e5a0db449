-- ===== src/Pipeline/Tests.antt =====
-- crates/tls-probe-cli/src/pipeline.rs on small spools.
use tls_probe.Pipeline.{Clock, Spill, new_writer}
use tls_probe.Pipeline.Cap.{IsCapped, enforce_cap-IsCapped}
use tls_probe.Pipeline.Chunks.{complete_path, part_path}
use tls_probe.Pipeline.Directory.{Directory, contents_at}
use tls_probe.Pipeline.Log.{Logs}
use tls_probe.Pipeline.Log.Lost.{rotate-write_line}
use tls_probe.Pipeline.Log.Runs.{
  new_spool-Logs, is_full, written, idle, Call, run, written_bytes, IsLog, finalize-run,
}
use tls_probe.Pipeline.Spool.{
  rotate, RotatingSpoolWriter, new_spool, enforce_cap, write_line, finalize,
}
use tls_probe.Pipeline.Thread.{Sunk, plain, Stored, Received, line, empty, run_writer_thread}
use tls_probe.Pipeline.Thread.Outputs.{lines_of, count_lines, run_writer_thread-outputs}
use tls_probe.Prelude.{ℕ, ◌≡◌, refl, List, [], ◌∷◌, ◌++◌, arith, none, some}
use tls_probe.Text.{text, decimal}
use tls_probe.Wire.{Bytes}

abbrev at : ℕ → ℕ → Clock
at instant secs = record { instant = instant; secs = secs }

abbrev none_passes : Spill
none_passes buffer bytes = 0

abbrev opened : RotatingSpoolWriter
opened = new_spool (at 0 5) [] 1 none 0

-- Two chunks that are filled in the second in which they were opened, and a third: only one is
-- left, under one name, of the two that the second had.
same_second_test :
    finalize (at 4 6) (
      write_line none_passes (at 3 6) (3 ∷ []) (
        write_line none_passes (at 2 5) (2 ∷ []) (write_line none_passes (at 1 5) (1 ∷ []) opened)))
    ≡ record { name = text "capture-5.jsonl"; contents = 3 ∷ [] }
      ∷ record { name = text "capture-6.jsonl"; contents = [] }
      ∷ []
unfolding finalize write_line new_spool new_writer complete_path part_path decimal
same_second_test = refl

abbrev full_directory : Directory
full_directory =
    record { name = text "capture-9.jsonl"; contents = 1 ∷ 2 ∷ [] }
    ∷ record { name = text "capture-10.jsonl"; contents = 3 ∷ 4 ∷ [] }
    ∷ record { name = text "capture-11.jsonl.part"; contents = [] }
    ∷ []

abbrev full : RotatingSpoolWriter
full = record opened { output_dir = full_directory }

enforce_cap-IsCapped_example : IsCapped 3 full (enforce_cap 3 full)
enforce_cap-IsCapped_example =
    enforce_cap-IsCapped 3 full ((refl, (refl, tt)), ((refl, tt), (tt, tt)))

abbrev calls : List Call
calls = written (at 1 6) (1 ∷ 2 ∷ []) ∷ idle (at 300 6) ∷ []

finalize-run_example :
    IsLog (finalize (at 400 7) (run none_passes calls opened)) (written_bytes calls)
finalize-run_example =
    finalize-run none_passes (at 0 5) (at 400 7) 1 0 calls (omega arith)
      ((λ h. (omega arith, omega arith)), tt)

abbrev sink_of : Bytes → Sunk
sink_of bytes = record {
  writer = record { buffer = []; pending_bytes = 0; last_flush = 0 };
  sink = bytes;
}

abbrev received : List (Clock × Received)
received = (at 1 5, line (1 ∷ 2 ∷ [])) ∷ (at 2 5, empty) ∷ (at 300 5, line (3 ∷ [])) ∷ []

run_writer_thread-outputs_example :
    run_writer_thread none_passes
      (at 400 5)
      received
      (some (plain (sink_of [])))
      (some (sink_of (9 ∷ [])))
    ≡ (
      some (Stored.file ([] ++ lines_of received)),
      some ((9 ∷ []) ++ lines_of received),
      count_lines received,
    )
run_writer_thread-outputs_example =
    run_writer_thread-outputs none_passes (at 400 5) received (sink_of []) (sink_of (9 ∷ [])) []
      (9 ∷ []) (record { holds = refl; covered = omega arith })
      (record { holds = refl; covered = omega arith })

opened-Logs : Logs opened 5 []
opened-Logs = new_spool-Logs (at 0 5) 1 0 (omega arith)

rotate-write_line_example :
    (contents_at (complete_path 5) (rotate (at 1 5) opened).output_dir
      ≡ some (opened-Logs.part ++ opened.current_writer.buffer))
    × (contents_at
          (complete_path 5)
          (write_line none_passes (at 2 5) (7 ∷ []) (rotate (at 1 5) opened)).output_dir
        ≡ some (7 ∷ []))
unfolding is_full rotate new_spool new_writer complete_path part_path decimal
rotate-write_line_example =
    rotate-write_line none_passes (at 1 5) (at 2 5) opened 5 [] (7 ∷ []) opened-Logs refl
      (omega arith) refl
