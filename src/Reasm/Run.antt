-- ===== src/Reasm/Run.antt =====
-- crates/tls-probe-cli/src/reasm.rs over time: a reassembler that packets come to and sweeps clean.
use tls_probe.Common.Capture.{RawTlsCapture}
use tls_probe.Reasm.{Reassembler, AssembledRecord, new, insert, sweep_expired}
use tls_probe.Reasm.Stream.{Streams, FlowsFrom, CaptureFrom, RecordFrom}
use tls_probe.Reasm.Safety.{RecordsFrom, insert-Good, sweep_expired-Good}
use tls_probe.Prelude.{ℕ, List, [], ◌∷◌, ◌++◌, Option, none, some, All, All-append}

-- What happens to a reassembler: a packet comes in, or the clock ticks.
pub data Event : Type 0 where
  packet : ℕ → RawTlsCapture → Event
  tick : ℕ → Event

abbrev pub push : Option AssembledRecord → List AssembledRecord → List AssembledRecord
push none rest = rest
push (some done) rest = done ∷ rest

-- The records that come out of a run of events, in order.
unfoldable pub run : Reassembler → List Event → List AssembledRecord
unfolding insert sweep_expired
run r [] = []
run r (packet now cap ∷ events) = push (insert now r cap).1 (run (insert now r cap).0 events)
run r (tick now ∷ events) = (sweep_expired now r).1 ++ run (sweep_expired now r).0 events

abbrev pub EventFrom : Streams → Event → Type 0
EventFrom t (packet now cap) = CaptureFrom t cap
EventFrom t (tick now) = Unit

RecordsFrom-push :
    (t : Streams) (found : Option AssembledRecord) (rest : List AssembledRecord)
    → RecordFrom t found
    → RecordsFrom t rest
    → RecordsFrom t (push found rest)
RecordsFrom-push t none rest h k = k
RecordsFrom-push t (some done) rest h k = (h, k)

run_from :
    (t : Streams) (events : List Event) (r : Reassembler)
    → All (EventFrom t) events
    → FlowsFrom t r.flows
    → RecordsFrom t (run r events)
unfolding run
run_from t [] r e h = tt
run_from t (packet now cap ∷ events) r e h =
    let step = insert-Good t now r cap e.0 h in
    RecordsFrom-push t (insert now r cap).1 (run (insert now r cap).0 events) step.1
      (run_from t events (insert now r cap).0 e.1 step.0)
run_from t (tick now ∷ events) r e h =
    let step = sweep_expired-Good t now r h in
    All-append _ (sweep_expired now r).1 (run (sweep_expired now r).0 events) step.1
      (run_from t events (sweep_expired now r).0 e.1 step.0)

-- Where every packet carries bytes of its flow's stream at its sequence number, and no stream's
-- numbers wrap, each record that a fresh reassembler returns holds the bytes of its head packet's
-- stream, from that packet's number on: in whatever order the packets come, with losses, repeats
-- and sweeps at any time.
pub run-RecordsFrom :
    (t : Streams) (events : List Event) → All (EventFrom t) events → RecordsFrom t (run new events)
unfolding new
run-RecordsFrom t events e = run_from t events new e tt
