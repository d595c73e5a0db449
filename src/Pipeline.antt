-- ===== src/Pipeline.antt =====
-- crates/tls-probe-cli/src/pipeline.rs: the writer of events, into a file or a spool of chunks.
-- A sink gets the bytes that an operation returns. How many of them the library's buffer lets through
-- before it is flushed is an argument, `spill`. An operation reads the clock once.
pub mod Chunks
pub mod Directory
pub mod Spool
pub mod Thread
pub mod Cap
pub mod Log
mod Tests
use tls_probe.Prelude.{
  ℕ, zero, suc, ◌+◌, ◌-◌, Bool, true, false, ◌&&◌, ◌||◌, List, [], ◌∷◌, ◌++◌, leb, ltb, length,
  take, drop, if◌then◌else◌,
}
use tls_probe.Wire.{Bytes}

abbrev pub flush_threshold : ℕ
flush_threshold = 65536

-- In milliseconds.
abbrev pub flush_interval : ℕ
flush_interval = 250

-- A reading of the clocks: milliseconds of the monotonic one, seconds of the system's.
pub record Clock : Type 0 where
  pub instant : ℕ
  pub secs : ℕ

pub record BufferedLineWriter : Type 0 where
  pub buffer : Bytes
  pub pending_bytes : ℕ
  pub last_flush : ℕ

abbrev pub Spill : Type 0
Spill = Bytes → Bytes → ℕ

unfoldable pub new_writer : Clock → BufferedLineWriter
new_writer now = record { buffer = []; pending_bytes = 0; last_flush = now.instant }

-- `write_line`
unfoldable pub buffer_line : Spill → Bytes → BufferedLineWriter → Bytes × BufferedLineWriter
buffer_line spill line w =
    let all = w.buffer ++ line in
    let passed = spill w.buffer line in
    (
      take passed all,
      record w { buffer = drop passed all; pending_bytes = w.pending_bytes + length line },
    )

unfoldable pub should_flush : Clock → BufferedLineWriter → Bool
should_flush now w =
    ltb 0 w.pending_bytes
    && (leb flush_threshold w.pending_bytes || leb flush_interval (now.instant - w.last_flush))

unfoldable pub flushed : Clock → BufferedLineWriter → Bytes × BufferedLineWriter
flushed now w = (w.buffer, record { buffer = []; pending_bytes = 0; last_flush = now.instant })

-- Its Boolean result is `should_flush`.
unfoldable pub flush_if_needed : Clock → BufferedLineWriter → Bytes × BufferedLineWriter
unfolding should_flush flushed
flush_if_needed now w = if should_flush now w then flushed now w else ([], w)

unfoldable pub force_flush : Clock → BufferedLineWriter → Bytes × BufferedLineWriter
unfolding flushed
force_flush now w = if ltb 0 w.pending_bytes then flushed now w else ([], w)
