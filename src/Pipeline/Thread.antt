-- ===== src/Pipeline/Thread.antt =====
-- crates/tls-probe-cli/src/pipeline.rs, run_writer_thread: lines from a channel to a file or a spool
-- and to standard output. What the channel gives is a list, which ends where it is disconnected.
pub mod Outputs
use tls_probe.Pipeline.{
  Clock, BufferedLineWriter, Spill, new_writer, buffer_line, flush_if_needed, force_flush,
}
use tls_probe.Pipeline.Directory.{Directory}
use tls_probe.Pipeline.Spool.{RotatingSpoolWriter, write_line, flush, finalize}
use tls_probe.Prelude.{ℕ, ◌+◌, List, [], ◌∷◌, ◌++◌, Option, none, some}
use tls_probe.Wire.{Bytes}

-- A writer with the bytes that its sink has got.
pub record Sunk : Type 0 where
  pub writer : BufferedLineWriter
  pub sink : Bytes

abbrev pub into_sink : Sunk → Bytes × BufferedLineWriter → Sunk
into_sink s out = record { writer = out.1; sink = s.sink ++ out.0 }

pub data WriterBackend : Type 0 where
  plain : Sunk → WriterBackend
  spool : RotatingSpoolWriter → WriterBackend

unfoldable pub backend_write_line : Spill → Clock → Bytes → WriterBackend → WriterBackend
unfolding buffer_line
backend_write_line spill now line (plain s) = plain (into_sink s (buffer_line spill line s.writer))
backend_write_line spill now line (spool s) = spool (write_line spill now line s)

unfoldable pub backend_flush_if_needed : Clock → WriterBackend → WriterBackend
unfolding flush_if_needed
backend_flush_if_needed now (plain s) = plain (into_sink s (flush_if_needed now s.writer))
backend_flush_if_needed now (spool s) = spool (flush now s)

-- What is on the disk in the end.
pub data Stored : Type 0 where
  file : Bytes → Stored
  chunks : Directory → Stored

unfoldable pub backend_finalize : Clock → WriterBackend → Stored
unfolding force_flush
backend_finalize now (plain s) = Stored.file (into_sink s (force_flush now s.writer)).sink
backend_finalize now (spool s) = Stored.chunks (finalize now s)

pub record Writers : Type 0 where
  pub file_writer : Option WriterBackend
  pub stdout_writer : Option Sunk
  pub events_emitted : ℕ

abbrev pub on_file : (WriterBackend → WriterBackend) → Option WriterBackend → Option WriterBackend
on_file f none = none
on_file f (some w) = some (f w)

abbrev pub on_stdout : (Sunk → Sunk) → Option Sunk → Option Sunk
on_stdout f none = none
on_stdout f (some w) = some (f w)

-- What `try_recv` gives: a line, or nothing yet.
pub data Received : Type 0 where
  line : Bytes → Received
  empty : Received

-- A round of the loop; errors of the writers are passed over.
unfoldable pub round : Spill → Clock → Received → Writers → Writers
unfolding backend_write_line backend_flush_if_needed buffer_line flush_if_needed
round spill now (line bytes) w =
    let to_file =
      λ (b : WriterBackend). backend_flush_if_needed now (backend_write_line spill now bytes b) in
    let to_stdout = λ (s : Sunk).
      let s' = into_sink s (buffer_line spill bytes s.writer) in
      into_sink s' (flush_if_needed now s'.writer) in
    record {
      file_writer = on_file to_file w.file_writer;
      stdout_writer = on_stdout to_stdout w.stdout_writer;
      events_emitted = w.events_emitted + 1;
    }
round spill now empty w = record w {
  file_writer = on_file (backend_flush_if_needed now) w.file_writer;
  stdout_writer =
      on_stdout (λ (s : Sunk). into_sink s (flush_if_needed now s.writer)) w.stdout_writer;
}

unfoldable pub rounds : Spill → List (Clock × Received) → Writers → Writers
unfolding round
rounds spill [] w = w
rounds spill ((now, received) ∷ rest) w = rounds spill rest (round spill now received w)

abbrev pub finalize_file : Clock → Option WriterBackend → Option Stored
finalize_file now none = none
finalize_file now (some b) = some (backend_finalize now b)

abbrev pub finalize_stdout : Clock → Option Sunk → Option Bytes
finalize_stdout now none = none
finalize_stdout now (some s) = some (into_sink s (force_flush now s.writer)).sink

-- The results: the file or spool, standard output, and the count of lines.
unfoldable pub run_writer_thread :
    Spill
    → Clock
    → List (Clock × Received)
    → Option WriterBackend
    → Option Sunk
    → Option Stored × Option Bytes × ℕ
unfolding rounds backend_finalize force_flush
run_writer_thread spill stop received file_backend stdout =
    let w =
      rounds spill received
        (record { file_writer = file_backend; stdout_writer = stdout; events_emitted = 0 }) in
    (finalize_file stop w.file_writer, finalize_stdout stop w.stdout_writer, w.events_emitted)
