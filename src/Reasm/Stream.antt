-- ===== src/Reasm/Stream.antt =====
-- What is reassembled are the bytes of the stream, from the head packet on.
use tls_probe.Common.Capture.{RawTlsCapture, payload_slice}
use tls_probe.Reasm.{
  from_capture, key_code, HeadInfo, Fragments, ReassemblyEntry, FlowCode, Flows, flow_order,
  AssembledRecord, wrapping_add, walk,
}
use tls_probe.Prelude.{
  ℕ, ◌+◌, ◌-◌, ◌≤◌, ◌<◌, ◌≡◌, inl, inr, [], ◌∷◌, ◌++◌, arith, Bool-cases, ltb, ◌==◌, ==_iff, Option,
  none, some, length, take, drop, length-append, drop-add, take-add,
}
use tls_probe.SortedMap.Orders.{number_order}
use tls_probe.SortedMap.Every.{Every}
use tls_probe.Wire.{Bytes}

-- Each flow's bytes, and the sequence number of the first. Numbers do not wrap within a stream.
pub record Streams : Type 0 where
  pub content : FlowCode → Bytes
  pub base : FlowCode → ℕ
  pub no_wrap : (k : FlowCode) → base k + length (content k) < 4294967296

-- These bytes stand in the stream at this sequence number.
abbrev pub PieceOf : Bytes → ℕ → ℕ → Bytes → Type 0
PieceOf stream base seq piece =
    (base ≤ seq)
    × (seq - base + length piece ≤ length stream)
    × (take (length piece) (drop (seq - base) stream) ≡ piece)

joined :
    (stream : Bytes) (base seq : ℕ) (buffer piece : Bytes)
    → PieceOf stream base seq buffer
    → PieceOf stream base (seq + length buffer) piece
    → PieceOf stream base seq (buffer ++ piece)
joined stream base seq buffer piece b p =
    let n = length buffer in
    let at : seq + n - base ≡ seq - base + n = omega arith in
    let shift : drop (seq + n - base) stream ≡ drop n (drop (seq - base) stream) =
      rw at (drop-add (seq - base) n stream) in
    (
      b.0,
      omega (arith, length-append buffer piece),
      rw (
        length-append buffer piece,
        take-add n (length piece) (drop (seq - base) stream),
        ← shift,
        b.2,
        p.2,
      ),
    )

-- The walk collects a piece of the stream that starts where the walk started.
pub walk-PieceOf :
    (stream : Bytes) (base seq : ℕ) (buffer : Bytes) (fragments : Fragments)
    → base + length stream < 4294967296
    → PieceOf stream base seq buffer
    → Every number_order (PieceOf stream base) fragments
    → PieceOf stream base seq (walk (seq + length buffer) buffer fragments)
unfolding walk
walk-PieceOf stream base seq buffer [] w b h = b
walk-PieceOf stream base seq buffer ((s, p) ∷ fragments) w b h =
    elim (Bool-cases (s == seq + length buffer)) [
      | inl next ↦
          let e : s ≡ seq + length buffer = (==_iff s (seq + length buffer)).0 next in
          let more : PieceOf stream base (seq + length buffer) p = rw e at h.0 in
          let wrap : wrapping_add (seq + length buffer) (length p) ≡ seq + length (buffer ++ p) =
            omega (arith, length-append buffer p) in
          rw (next, wrap)
            (walk-PieceOf stream base seq (buffer ++ p) fragments w
              (joined stream base seq buffer p b more) h.1)
      | inr other ↦ rw other (elim (Bool-cases (ltb (seq + length buffer) s)) [
        | inl gap ↦ rw gap b
        | inr old ↦ rw old (walk-PieceOf stream base seq buffer fragments w b h.1)
      ])
    ]

-- What is kept of a flow is from its stream.
abbrev pub HeadFrom : Streams → FlowCode → Option HeadInfo → Type 0
HeadFrom t k none = Unit
HeadFrom t k (some head) =
    (key_code (from_capture head.capture) ≡ k)
    × (head.seq ≡ head.capture.tcp_seq)
    × PieceOf (t.content k) (t.base k) head.seq []

pub record EntryFrom (t : Streams) (k : FlowCode) (entry : ReassemblyEntry) : Type 0 where
  pub pieces : Every number_order (PieceOf (t.content k) (t.base k)) entry.fragments
  pub head_from : HeadFrom t k entry.head

abbrev pub FlowsFrom : Streams → Flows → Type 0
FlowsFrom t = Every flow_order (EntryFrom t)

-- The packet's bytes are those of its flow's stream at its sequence number.
abbrev pub CaptureFrom : Streams → RawTlsCapture → Type 0
CaptureFrom t cap =
    let k = key_code (from_capture cap) in
    PieceOf (t.content k) (t.base k) cap.tcp_seq (payload_slice cap)

-- The record's bytes are those of its head packet's stream, from that packet on.
abbrev pub RecordFrom : Streams → Option AssembledRecord → Type 0
RecordFrom t none = Unit
RecordFrom t (some done) =
    let k = key_code (from_capture done.head_capture) in
    PieceOf (t.content k) (t.base k) done.head_capture.tcp_seq done.buffer
