-- ===== src/Classifier/Segments.antt =====
-- crates/tls-probe-ebpf/src/tls.rs: the packets of a record that is in several segments.
use tls_probe.Classifier.{
  KernelMap, is_wanted, make_capture, continue_state, first_state, Kernel, put_or_remove,
  continue_record, start_record, classify, classify_segment, try_capture_tls,
}
use tls_probe.Classifier.Filter.{IsCaptured, first_flags-set}
use tls_probe.Classifier.Packet.{Skb, RecordStart, Segment, read_segment, reasm_key}
use tls_probe.Common.Capture.{
  ConnKey, ConnInfo, ReasmKey, ReasmState, RawTlsCapture, flag_fragment, flag_continuation,
  has_flag,
}
use tls_probe.Prelude.{
  ℕ, suc, ◌+◌, ◌-◌, ◌≤◌, ◌<◌, ◌≡◌, ◌≢◌, refl, ap, ◌∙◌, ◌⊎◌, Bool, true, false, List, [], ◌∷◌, ◌++◌,
  Option, none, some, arith, lt→ltb, length,
}

-- A capture that is one of several of its record: the first, or a later one.
pub record IsFirst (c : RawTlsCapture) : Type 0 where
  pub fragment : has_flag c.flags flag_fragment ≡ true
  pub plain : has_flag c.flags flag_continuation ≡ false

pub record IsLater (c : RawTlsCapture) : Type 0 where
  pub continued : has_flag c.flags flag_continuation ≡ true
  pub plain : has_flag c.flags flag_fragment ≡ false

-- There is a capture, and it is such a one.
abbrev pub Captured : (RawTlsCapture → Type 0) → Option RawTlsCapture → Type 0
Captured P none = ⊥
Captured P (some c) = P c

abbrev pub AllCaptured : List (Option RawTlsCapture) → Type 0
AllCaptured [] = Unit
AllCaptured (c ∷ cs) = Captured IsLater c × AllCaptured cs

-- The start of a handshake record of a message that is captured.
pub record StartsHandshake (r : RecordStart) : Type 0 where
  pub content : r.content_type ≡ 0x16
  pub low : 0x0300 ≤ r.record_version
  pub high : r.record_version ≤ 0x0303
  pub kind : IsCaptured r.hs_type

handshake-is_wanted : (r : RecordStart) → StartsHandshake r → is_wanted false r ≡ true
unfolding is_wanted
handshake-is_wanted r h = ground (arith, h.content, h.low, h.high, h.kind)

other-is_wanted :
    (r : RecordStart) → r.content_type ≢ 0x16 → r.content_type ≢ 0x15 → is_wanted false r ≡ false
unfolding is_wanted
other-is_wanted r h k = ground arith

-- The state while more is to come, and behind the last segment.
continue_state-more :
    (state : ReasmState) (n : ℕ)
    → n < state.remaining
    → 0 < state.segments_left
    → continue_state state n
      ≡ some (record { remaining = state.remaining - n; segments_left = state.segments_left - 1 })
unfolding continue_state
continue_state-more state n h k = ground arith

continue_state-last :
    (state : ReasmState) (n : ℕ)
    → (state.remaining ≤ n) ⊎ (state.segments_left ≡ 0)
    → continue_state state n ≡ none
unfolding continue_state
continue_state-last state n h = ground arith

module _ (reasms : KernelMap ReasmKey ReasmState) (conns : KernelMap ConnKey ConnInfo) where
  -- A packet that comes, and what the classifier reads of it.
  pub record Packet : Type 0 where
    pub now : ℕ
    pub has_room : Bool
    pub meanwhile : reasms.Map → reasms.Map
    pub skb : Skb
    pub is_egress : Bool
    pub segment : Segment

  -- A packet of this flow, with room in the ring buffer; other processors leave the flow's entry
  -- alone.
  pub record IsOf (key : ReasmKey) (p : Packet) : Type 0 where
    pub read : read_segment p.skb ≡ some p.segment
    pub same : reasm_key p.segment p.is_egress ≡ key
    pub room : p.has_room ≡ true
    pub kept : (m : reasms.Map) → reasms.get key (p.meanwhile m) ≡ reasms.get key m

  -- The bytes of records that a packet has.
  abbrev pub size : Packet → ℕ
  size p = p.skb.len - p.segment.tls_start

  abbrev pub total : List Packet → ℕ
  total [] = 0
  total (p ∷ ps) = size p + total ps

  abbrev pub AllOf : ReasmKey → List Packet → Type 0
  AllOf key [] = Unit
  AllOf key (p ∷ ps) = IsOf key p × AllOf key ps

  abbrev pub capture : Kernel reasms conns → Packet → Kernel reasms conns × Option RawTlsCapture
  capture k p = try_capture_tls reasms conns p.now p.has_room p.meanwhile k p.skb p.is_egress

  -- The packets one after the other.
  abbrev pub run :
      Kernel reasms conns → List Packet → Kernel reasms conns × List (Option RawTlsCapture)
  run k [] = (k, [])
  run k (p ∷ ps) = let (k', c) = capture k p in let (k'', cs) = run k' ps in (k'', c ∷ cs)

  abbrev pub entry : ReasmKey → Kernel reasms conns → Option ReasmState
  entry key k = reasms.get key k.reasm_map

  capture-classify :
      (key : ReasmKey) (k : Kernel reasms conns) (p : Packet)
      → IsOf key p
      → capture k p ≡ classify reasms conns p.now true p.meanwhile k p.skb p.segment p.is_egress
  unfolding try_capture_tls classify_segment
  capture-classify key k p h = rw (h.read, h.room)

  -- The maps do as they are told.
  module _ (key : ReasmKey)
      (put : (v : ReasmState) (m : reasms.Map) → reasms.get key (reasms.insert key v m) ≡ some v)
      (gone : (m : reasms.Map) → reasms.get key (reasms.remove key m) ≡ none) where
    put_or_remove-get :
        (state : Option ReasmState) (m : reasms.Map)
        → reasms.get key (put_or_remove reasms conns key state m) ≡ state
    put_or_remove-get none m = gone m
    put_or_remove-get (some v) m = put v m

    -- A packet of a flow whose state is known is captured, and the state goes on.
    capture-known :
        (k : Kernel reasms conns) (p : Packet) (state : ReasmState)
        → IsOf key p
        → entry key k ≡ some state
        → Captured IsLater (capture k p).1
          × (entry key (capture k p).0 ≡ continue_state state (size p))
    unfolding classify is_wanted continue_record make_capture
    capture-known k p state h e =
        let same = h.kept k.reasm_map ∙ e in
        rw (capture-classify key k p h, h.same, e, same)
          (
            record {
              continued = (first_flags-set p.is_egress p.segment.start).2;
              plain = (first_flags-set p.is_egress p.segment.start).3;
            },
            rw (continue_record, h.same)
                (put_or_remove-get (continue_state state (size p)) (p.meanwhile k.reasm_map)),
          )

    capture-start :
        (k : Kernel reasms conns) (p : Packet)
        → IsOf key p
        → StartsHandshake p.segment.start
        → entry key k ≡ none
        → size p < p.segment.start.record_len + 5
        → Captured IsFirst (capture k p).1
          × (entry key (capture k p).0 ≡ first_state p.segment.start.record_len (size p))
    unfolding classify start_record make_capture first_state
    capture-start k p h s e short =
        rw
          (
            capture-classify key k p h,
            h.same,
            e,
            handshake-is_wanted p.segment.start s,
            lt→ltb (size p) (p.segment.start.record_len + 5) short,
          )
          (
            record {
              fragment = (first_flags-set p.is_egress p.segment.start).0;
              plain = (first_flags-set p.is_egress p.segment.start).1;
            },
            put _ (p.meanwhile k.reasm_map),
          )

    capture-other :
        (k : Kernel reasms conns) (p : Packet)
        → IsOf key p
        → p.segment.start.content_type ≢ 0x16
        → p.segment.start.content_type ≢ 0x15
        → entry key k ≡ none
        → (capture k p).1 ≡ none
    unfolding classify
    capture-other k p h s t e =
        rw (capture-classify key k p h, h.same, e, other-is_wanted p.segment.start s t)

    -- The later packets of a record, of which the last completes it or comes when no segment is
    -- left.
    run-known :
        (ps : List Packet) (last : Packet) (k : Kernel reasms conns) (state : ReasmState)
        → AllOf key ps
        → IsOf key last
        → entry key k ≡ some state
        → total ps < state.remaining
        → length ps ≤ state.segments_left
        → (state.remaining ≤ total ps + size last) ⊎ (length ps ≡ state.segments_left)
        → AllCaptured (run k (ps ++ last ∷ [])).1
          × (length (run k (ps ++ last ∷ [])).1 ≡ suc (length ps))
          × (entry key (run k (ps ++ last ∷ [])).0 ≡ none)
    run-known [] last k state hs h e part few done =
        let (captured, next) = capture-known k last state h e in
        ((captured, tt), refl, next ∙ continue_state-last state (size last) (ground arith))
    run-known (p ∷ ps) last k state hs h e part few done =
        let (captured, next) = capture-known k p state hs.0 e in
        let left : ReasmState = record {
          remaining = state.remaining - size p;
          segments_left = state.segments_left - 1;
        } in
        let more : entry key (capture k p).0 ≡ some left =
          next ∙ continue_state-more state (size p) (omega arith) (omega arith) in
        let (rest, count, removed) =
          run-known ps last (capture k p).0 left hs.1 h more (omega arith) (omega arith)
            (ground arith) in
        ((captured, rest), ap suc count, removed)

    -- A handshake record in several packets of a flow of which no record waits, with maps that do as
    -- they are told, room in the ring buffer, and a flow's entry that no other processor changes
    -- between the two lookups. Where the last packet completes the record, of at most five, or is
    -- the fifth: the first is captured and marked as a fragment, every later one is captured and
    -- marked as a continuation, whatever it starts with, and the flow's entry is removed. A packet
    -- behind them that starts with neither a handshake nor an alert record is not captured: of a
    -- longer record exactly five packets are, one more than the announced number of segments.
    pub run-segments :
        (k : Kernel reasms conns) (first : Packet) (ps : List Packet) (last behind : Packet)
        → IsOf key first
        → AllOf key ps
        → IsOf key last
        → IsOf key behind
        → entry key k ≡ none
        → StartsHandshake first.segment.start
        → behind.segment.start.content_type ≢ 0x16
        → behind.segment.start.content_type ≢ 0x15
        → size first + total ps < first.segment.start.record_len + 5
        → length ps ≤ 3
        → (first.segment.start.record_len + 5 ≤ size first + total ps + size last) ⊎ (length ps ≡ 3)
        → Captured IsFirst (capture k first).1
          × AllCaptured (run (capture k first).0 (ps ++ last ∷ [])).1
          × (length (run (capture k first).0 (ps ++ last ∷ [])).1 ≡ suc (length ps))
          × (entry key (run (capture k first).0 (ps ++ last ∷ [])).0 ≡ none)
          × ((capture (run (capture k first).0 (ps ++ last ∷ [])).0 behind).1 ≡ none)
    unfolding first_state
    run-segments k first ps last behind f hs l b e starts s t part few done =
        let short : size first < first.segment.start.record_len + 5 = omega arith in
        let (captured, next) = capture-start k first f starts e short in
        let state : ReasmState = record {
          remaining = first.segment.start.record_len + 5 - size first;
          segments_left = 3;
        } in
        let waits : entry key (capture k first).0 ≡ some state =
          next ∙ rw (lt→ltb (size first) (first.segment.start.record_len + 5) short) in
        let (rest, count, removed) =
          run-known ps last (capture k first).0 state hs l waits (omega arith) few (ground arith) in
        (
          captured,
          rest,
          count,
          removed,
          capture-other (run (capture k first).0 (ps ++ last ∷ [])).0 behind b s t removed,
        )
