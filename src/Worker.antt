-- ===== src/Worker.antt =====
-- crates/tls-probe-cli/src/commands/capture.rs, the worker's task: a capture goes through the
-- reassembler, the parser, the correlator and the walk over records into events. Serialisation is a
-- library's, and the channel to the writer stays open; the resolver of container paths is an argument.
pub mod Branches
pub mod Safety
pub mod Joined
mod Tests
use tls_probe.Common.Capture.{
  RawTlsCapture, ConnKey, has_flag, flag_fragment, flag_continuation, payload_slice,
  is_client_hello, is_server_hello,
}
use tls_probe.Correlate
use tls_probe.Event.{Host, CaptureEvent}
use tls_probe.Event.Build.{analyze_capture, analyze_capture_with_payload, enrich_with_cgroup}
use tls_probe.Outcome.{Outcome, ok, ◌>>=◌}
use tls_probe.Prelude.{
  ℕ, ◌+◌, ◌%◌, ◌^◌, Bool, true, false, ◌||◌, List, [], ◌∷◌, ◌++◌, Option, none, some, ◌==◌,
  if◌then◌else◌,
}
use tls_probe.Reasm
use tls_probe.Reasm.{AssembledRecord}
use tls_probe.Wire.{Bytes}
use tls_probe.Worker.Branches.{Worker, Clocks, Step, conn_key, assembled_branch, fast_branch}

-- The event of a record that was put together.
unfoldable pub reassembled_event : Host → AssembledRecord → Outcome CaptureEvent
unfolding analyze_capture_with_payload
reassembled_event h r = do
  event ← analyze_capture_with_payload h r.head_capture r.buffer
  ok (record event { reassembled = some true; truncated = some r.truncated })

unfoldable pub new_worker : Worker
new_worker = record {
  reassembler = Reasm.new;
  correlator = Correlate.new;
  timeout_counter = 0;
  correlator_sh_without_ch = 0;
  alerts_dropped = 0;
  certs_dropped_13 = 0;
}

-- A part of a record in several packets.
unfoldable pub is_part : RawTlsCapture → Bool
is_part c = has_flag c.flags flag_fragment || has_flag c.flags flag_continuation

-- A branch's event is emitted behind those before it, with its container.
unfoldable pub emitted : (ℕ → Option Bytes) → RawTlsCapture → Step → List CaptureEvent
emitted resolve_inode capture s =
    if s.skipped then [] else s.before ++ (enrich_with_cgroup s.event capture resolve_inode ∷ [])

-- The worker, the events, and whether the round has ended before its sweep.
pub record Round : Type 0 where
  pub worker : Worker
  pub events : List CaptureEvent
  pub skipped : Bool

abbrev pub round_of : (ℕ → Option Bytes) → RawTlsCapture → Step → Round
round_of resolve_inode capture s = record {
  worker = s.worker;
  events = emitted resolve_inode capture s;
  skipped = s.skipped;
}

-- A capture after the reassembler has had it.
unfoldable pub process :
    Host
    → (ℕ → Option Bytes)
    → Clocks
    → Worker
    → RawTlsCapture
    → Option AssembledRecord
    → Outcome Round
unfolding reassembled_event assembled_branch analyze_capture fast_branch emitted is_part
process h resolve_inode now w capture (some r) = do
  event ← reassembled_event h r
  s ← assembled_branch h now w r.head_capture r.buffer event
  ok (round_of resolve_inode r.head_capture s)
process h resolve_inode now w capture none =
    let fast = do
      event ← analyze_capture h capture
      s ← fast_branch h resolve_inode now w capture (payload_slice capture) event
      ok (round_of resolve_inode capture s)
    in if is_part capture then ok (record { worker = w; events = []; skipped = false }) else fast

-- The events of the records that a sweep gives up.
unfoldable pub expired_events :
    Host → (ℕ → Option Bytes) → List AssembledRecord → Outcome (List CaptureEvent)
unfolding reassembled_event
expired_events h resolve_inode [] = ok []
expired_events h resolve_inode (r ∷ rs) = do
  event ← reassembled_event h r
  events ← expired_events h resolve_inode rs
  ok (enrich_with_cgroup event r.head_capture resolve_inode ∷ events)

-- Every 500 captures both tables are swept.
unfoldable pub sweep : Host → (ℕ → Option Bytes) → Clocks → Round → Outcome Round
unfolding expired_events
sweep h resolve_inode now r =
    let timeout_counter = (r.worker.timeout_counter + 1) % 2 ^ 32 in
    let counted = record (r.worker) { timeout_counter = timeout_counter } in
    let correlator = (Correlate.sweep_expired now.wall counted.correlator).0 in
    let swept = Reasm.sweep_expired now.instant counted.reassembler in
    let due = do
      events ← expired_events h resolve_inode swept.1
      ok (record {
        worker = record counted { correlator = correlator; reassembler = swept.0 };
        events = r.events ++ events;
        skipped = false;
      })
    in if timeout_counter % 500 == 0 then due else ok (record r { worker = counted })

-- A `continue` leaves the sweep out.
abbrev pub ended : Host → (ℕ → Option Bytes) → Clocks → Round → Outcome Round
ended h resolve_inode now r = if r.skipped then ok r else sweep h resolve_inode now r

-- A round of the worker's loop.
unfoldable pub handle : Host → (ℕ → Option Bytes) → Clocks → Worker → RawTlsCapture → Outcome Round
unfolding process sweep is_part
handle h resolve_inode now w capture =
    let (reassembler, assembled) =
      if is_part capture
      then Reasm.insert now.instant w.reassembler capture
      else (w.reassembler, none) in
    let round = do
      r ← process h resolve_inode now (record w { reassembler = reassembler }) capture assembled
      ended h resolve_inode now r
    in round

-- The loop over the captures that come, with all events in their order.
unfoldable pub work :
    Host
    → (ℕ → Option Bytes)
    → Worker
    → List (Clocks × RawTlsCapture)
    → Outcome (Worker × List CaptureEvent)
unfolding handle
work h resolve_inode w [] = ok (w, [])
work h resolve_inode w ((now, capture) ∷ captures) = do
  r ← handle h resolve_inode now w capture
  rest ← work h resolve_inode r.worker captures
  ok (rest.0, r.events ++ rest.1)
