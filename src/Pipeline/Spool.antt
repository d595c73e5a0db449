-- ===== src/Pipeline/Spool.antt =====
-- crates/tls-probe-cli/src/pipeline.rs, RotatingSpoolWriter: chunks that are renamed when they are
-- full, and the cap on what they hold. The spool's files are those of its directory.
use tls_probe.Pipeline.{
  Clock, BufferedLineWriter, Spill, new_writer, buffer_line, flush_if_needed, force_flush,
}
use tls_probe.Pipeline.Chunks.{complete_path, part_path, chunk_time}
use tls_probe.Pipeline.Directory.{Directory, contents_at, append_to, remove_file, create, rename_to}
use tls_probe.Prelude.{
  ℕ, ◌+◌, ◌-◌, List, [], ◌∷◌, Option, none, some, leb, ◌==◌, length, if◌then◌else◌,
}
use tls_probe.Wire.{Bytes}

pub record RotatingSpoolWriter : Type 0 where
  pub output_dir : Directory
  pub max_chunk_bytes : ℕ
  pub max_total_bytes : Option ℕ
  pub current_writer : BufferedLineWriter
  pub current_part_path : Bytes
  pub current_complete_path : Bytes
  pub current_bytes : ℕ
  pub chunks_evicted : ℕ

-- The directory is that of the disk, with what an earlier run left in it.
unfoldable pub new_spool : Clock → Directory → ℕ → Option ℕ → ℕ → RotatingSpoolWriter
unfolding new_writer
new_spool now output_dir max_chunk_bytes max_total_bytes chunks_evicted = record {
  output_dir = create (part_path now.secs) output_dir;
  max_chunk_bytes = max_chunk_bytes;
  max_total_bytes = max_total_bytes;
  current_writer = new_writer now;
  current_part_path = part_path now.secs;
  current_complete_path = complete_path now.secs;
  current_bytes = 0;
  chunks_evicted = chunks_evicted;
}

pub record Chunk : Type 0 where
  pub ts : ℕ
  pub size : ℕ
  pub path : Bytes

unfoldable pub list_complete_chunks : Directory → List Chunk
unfolding chunk_time
list_complete_chunks [] = []
list_complete_chunks (e ∷ d) =
    let rest = list_complete_chunks d in
    elim (chunk_time e.name) [
      | none ↦ rest
      | some ts ↦ record { ts = ts; size = length e.contents; path = e.name } ∷ rest
    ]

-- `sort_by_key`, which is stable
unfoldable pub insert_chunk : Chunk → List Chunk → List Chunk
insert_chunk c [] = c ∷ []
insert_chunk c (d ∷ ds) =
    let rest = insert_chunk c ds in if leb c.ts d.ts then c ∷ d ∷ ds else d ∷ rest

unfoldable pub sort_chunks : List Chunk → List Chunk
unfolding insert_chunk
sort_chunks [] = []
sort_chunks (c ∷ cs) = insert_chunk c (sort_chunks cs)

unfoldable pub total_size : List Chunk → ℕ
total_size [] = 0
total_size (c ∷ cs) = c.size + total_size cs

-- The loop, with the number of files that it removes.
unfoldable pub evict : ℕ → List Chunk → Directory → Directory × ℕ
evict excess [] d = (d, 0)
evict excess (c ∷ cs) d =
    let rest = evict (excess - c.size) cs (remove_file c.path d) in
    if excess == 0 then (d, 0) else (rest.0, rest.1 + 1)

unfoldable pub enforce_cap : ℕ → RotatingSpoolWriter → RotatingSpoolWriter
unfolding list_complete_chunks sort_chunks total_size evict
enforce_cap max_total s =
    let chunks = sort_chunks (list_complete_chunks s.output_dir) in
    let total = total_size chunks in
    let evicted = evict (total - max_total) chunks s.output_dir in
    if leb total max_total
    then s
    else record s { output_dir = evicted.0; chunks_evicted = s.chunks_evicted + evicted.1 }

abbrev pub capped : Option ℕ → RotatingSpoolWriter → RotatingSpoolWriter
capped none s = s
capped (some max_total) s = enforce_cap max_total s

-- The writer's bytes go to the open file.
abbrev pub into_part : Bytes × BufferedLineWriter → RotatingSpoolWriter → RotatingSpoolWriter
into_part out s = record s {
  output_dir = append_to s.current_part_path out.0 s.output_dir;
  current_writer = out.1;
}

abbrev pub open_next : Clock → RotatingSpoolWriter → RotatingSpoolWriter
open_next now s = record s {
  output_dir = create (part_path now.secs) s.output_dir;
  current_writer = new_writer now;
  current_part_path = part_path now.secs;
  current_complete_path = complete_path now.secs;
}

-- Where the file is gone, the rename fails and the rest is not done.
abbrev pub renamed : Clock → Option Bytes → RotatingSpoolWriter → RotatingSpoolWriter
renamed now none s = s
renamed now (some contents) s =
    let done = record s {
      output_dir = rename_to s.current_part_path s.current_complete_path contents s.output_dir;
      current_bytes = 0;
    } in
    open_next now (capped s.max_total_bytes done)

unfoldable pub rotate : Clock → RotatingSpoolWriter → RotatingSpoolWriter
unfolding force_flush enforce_cap new_writer
rotate now s =
    let s' = into_part (force_flush now s.current_writer) s in
    renamed now (contents_at s'.current_part_path s'.output_dir) s'

unfoldable pub write_line : Spill → Clock → Bytes → RotatingSpoolWriter → RotatingSpoolWriter
unfolding buffer_line rotate
write_line spill now line s =
    let s' = into_part (buffer_line spill line s.current_writer) s in
    let s'' = record s' { current_bytes = s'.current_bytes + length line } in
    if leb s''.max_chunk_bytes s''.current_bytes then rotate now s'' else s''

unfoldable pub flush : Clock → RotatingSpoolWriter → RotatingSpoolWriter
unfolding flush_if_needed
flush now s = into_part (flush_if_needed now s.current_writer) s

-- What is left in the directory.
abbrev pub renamed_last : Option Bytes → RotatingSpoolWriter → Directory
renamed_last none s = s.output_dir
renamed_last (some contents) s =
    rename_to s.current_part_path s.current_complete_path contents s.output_dir

unfoldable pub finalize : Clock → RotatingSpoolWriter → Directory
unfolding force_flush
finalize now s =
    let s' = into_part (force_flush now s.current_writer) s in
    renamed_last (contents_at s'.current_part_path s'.output_dir) s'
