-- ===== src/Classifier/Filter.antt =====
-- crates/tls-probe-ebpf/src/tls.rs: which captures leave the kernel.
use tls_probe.Classifier.{
  KernelMap, is_wanted, first_flags, first_state, loaded, make_capture, Kernel, output,
  continue_record, start_record, classify, classify_segment, try_capture_tls,
}
use tls_probe.Classifier.Packet.{Skb, RecordStart, Segment, read_segment, conn_key, reasm_key}
use tls_probe.Common.Capture.{
  ConnKey, ConnInfo, ReasmKey, ReasmState, RawTlsCapture, flag_fragment, flag_continuation,
  has_flag, set_flag, raw_payload_size,
}
use tls_probe.Common.Codes.{
  content_type_alert, content_type_handshake, handshake_client_hello, handshake_server_hello,
  handshake_certificate, handshake_certificate_request,
}
use tls_probe.Prelude.{
  ℕ, ◌-◌, ◌≤◌, ◌≡◌, refl, ◌⊎◌, inl, inr, Bool, true, false, Option, none, some, is_some, leb, ◌==◌,
  min, arith, Bool-cases, if◌then◌else◌,
}
use tls_probe.Wire.{Bytes}

-- The types of handshake messages that are captured.
abbrev pub IsCaptured : ℕ → Type 0
IsCaptured t =
    (t ≡ handshake_client_hello)
    ⊎ (t ≡ handshake_server_hello)
    ⊎ (t ≡ handshake_certificate)
    ⊎ (t ≡ handshake_certificate_request)

-- The start of a handshake or alert record of a known version.
pub record StartsRecord (c : RawTlsCapture) : Type 0 where
  pub version : (0x0300 ≤ c.record_version) × (c.record_version ≤ 0x0303)
  pub kind :
      ((c.content_type ≡ content_type_handshake) × IsCaptured c.handshake_type)
      ⊎ ((c.content_type ≡ content_type_alert) × (c.handshake_type ≡ 0))

-- A continuation.
pub record Continues (c : RawTlsCapture) : Type 0 where
  pub flagged : has_flag c.flags flag_continuation ≡ true
  pub no_version : c.record_version ≡ 0
  pub no_kind : c.handshake_type ≡ 0

loaded-short :
    (bytes : Option Bytes) (n : ℕ) → n ≤ raw_payload_size → (loaded bytes n).1 ≤ raw_payload_size
loaded-short none n h = omega arith
loaded-short (some bytes) n h = h

make_capture-short :
    (now : ℕ) (skb : Skb) (s : Segment) (is_egress is_continuation : Bool) (info : Option ConnInfo)
    (flags : ℕ)
    → (make_capture now skb s is_egress is_continuation info flags).payload_len ≤ raw_payload_size
unfolding make_capture
make_capture-short now skb s is_egress is_continuation info flags =
    let n = min (skb.len - s.tls_start) raw_payload_size in
    loaded-short (if leb 1 n then skb.load_bytes s.tls_start n else none) n (omega arith)

-- The flags before a record is known to have several segments say nothing of that.
pub first_flags-plain :
    (is_egress : Bool) (r : RecordStart)
    → (has_flag (first_flags is_egress r) flag_fragment ≡ false)
      × (has_flag (first_flags is_egress r) flag_continuation ≡ false)
unfolding first_flags
first_flags-plain true r = elim (Bool-cases (r.content_type == 0x15)) [
  | inl e ↦ rw e (refl, refl)
  | inr e ↦ rw e (refl, refl)
]
first_flags-plain false r = elim (Bool-cases (r.content_type == 0x15)) [
  | inl e ↦ rw e (refl, refl)
  | inr e ↦ rw e (refl, refl)
]

-- One flag is set, and the other is not.
pub first_flags-set :
    (is_egress : Bool) (r : RecordStart)
    → (has_flag (set_flag (first_flags is_egress r) flag_fragment) flag_fragment ≡ true)
      × (has_flag (set_flag (first_flags is_egress r) flag_fragment) flag_continuation ≡ false)
      × (has_flag (set_flag (first_flags is_egress r) flag_continuation) flag_continuation ≡ true)
      × (has_flag (set_flag (first_flags is_egress r) flag_continuation) flag_fragment ≡ false)
unfolding first_flags
first_flags-set true r = elim (Bool-cases (r.content_type == 0x15)) [
  | inl e ↦ rw e (refl, refl, refl, refl)
  | inr e ↦ rw e (refl, refl, refl, refl)
]
first_flags-set false r = elim (Bool-cases (r.content_type == 0x15)) [
  | inl e ↦ rw e (refl, refl, refl, refl)
  | inr e ↦ rw e (refl, refl, refl, refl)
]

-- What the tests let through.
wanted_kind :
    (r : RecordStart)
    → is_wanted false r ≡ true
    → (0x0300 ≤ r.record_version)
      × (r.record_version ≤ 0x0303)
      × (((r.content_type ≡ 0x16) × IsCaptured r.hs_type) ⊎ (r.content_type ≡ 0x15))
unfolding is_wanted
wanted_kind r h = ground arith

make_capture-StartsRecord :
    (now : ℕ) (skb : Skb) (s : Segment) (is_egress : Bool) (info : Option ConnInfo) (flags : ℕ)
    → is_wanted false s.start ≡ true
    → StartsRecord (make_capture now skb s is_egress false info flags)
unfolding make_capture
make_capture-StartsRecord now skb s is_egress info flags h =
    let (low, high, kind) = wanted_kind s.start h in
    record {
      version = (low, high);
      kind = elim kind [
        | inl (handshake, captured) ↦
            let other : (s.start.content_type == 0x15) ≡ false = ground arith in
            inl (handshake, rw other captured)
        | inr alert ↦
            let same : (s.start.content_type == 0x15) ≡ true = ground arith in
            inr (alert, rw same refl)
      ];
    }

make_capture-Continues :
    (now : ℕ) (skb : Skb) (s : Segment) (is_egress : Bool) (info : Option ConnInfo)
    → Continues (
        make_capture now skb s is_egress true info
          (set_flag (first_flags is_egress s.start) flag_continuation))
unfolding make_capture
make_capture-Continues now skb s is_egress info = record {
  flagged = (first_flags-set is_egress s.start).2;
  no_version = refl;
  no_kind = refl;
}

module _ (reasms : KernelMap ReasmKey ReasmState) (conns : KernelMap ConnKey ConnInfo) where
  -- The entry of the packet's flow was there when it was first looked up, and no more the second
  -- time. The capture says neither that it goes on with a record nor how one starts.
  pub record LosesEntry (meanwhile : reasms.Map → reasms.Map) (k : Kernel reasms conns) (skb : Skb)
      (is_egress : Bool) (c : RawTlsCapture) : Type 0 where
    pub segment : Segment
    pub read : read_segment skb ≡ some segment
    pub found : is_some (reasms.get (reasm_key segment is_egress) k.reasm_map) ≡ true
    pub gone : reasms.get (reasm_key segment is_egress) (meanwhile k.reasm_map) ≡ none
    pub no_fragment : has_flag c.flags flag_fragment ≡ false
    pub no_continuation : has_flag c.flags flag_continuation ≡ false
    pub no_version : c.record_version ≡ 0
    pub no_kind : c.handshake_type ≡ 0

  -- What leaves the kernel, if anything.
  abbrev pub IsAdmitted :
      (reasms.Map → reasms.Map) → Kernel reasms conns → Skb → Bool → Option RawTlsCapture → Type 0
  IsAdmitted meanwhile k skb is_egress none = Unit
  IsAdmitted meanwhile k skb is_egress (some c) =
      (c.payload_len ≤ raw_payload_size)
      × (Continues c ⊎ StartsRecord c ⊎ LosesEntry meanwhile k skb is_egress c)

  module _ (meanwhile : reasms.Map → reasms.Map) (k : Kernel reasms conns) (skb : Skb)
      (is_egress : Bool) where
    output-IsAdmitted :
        (k' : Kernel reasms conns) (has_room : Bool) (c : RawTlsCapture)
        → IsAdmitted meanwhile k skb is_egress (some c)
        → IsAdmitted meanwhile k skb is_egress (output reasms conns k' has_room c).1
    output-IsAdmitted k' true c h = h
    output-IsAdmitted k' false c h = tt

    continue_record-IsAdmitted :
        (now : ℕ) (has_room : Bool) (k' : Kernel reasms conns) (s : Segment)
        (pending : Option ReasmState)
        → read_segment skb ≡ some s
        → is_some (reasms.get (reasm_key s is_egress) k.reasm_map) ≡ true
        → reasms.get (reasm_key s is_egress) (meanwhile k.reasm_map) ≡ pending
        → IsAdmitted meanwhile k skb is_egress
            (continue_record reasms conns now has_room k' skb s is_egress pending).1
    unfolding continue_record make_capture
    continue_record-IsAdmitted now has_room k' s none read found gone =
        let info = conns.get (conn_key s is_egress) k'.conn_map in
        let flags = first_flags is_egress s.start in
        output-IsAdmitted _ has_room (make_capture now skb s is_egress true info flags) (
          make_capture-short now skb s is_egress true info flags,
          inr (
              inr (record {
                segment = s;
                read = read;
                found = found;
                gone = gone;
                no_fragment = (first_flags-plain is_egress s.start).0;
                no_continuation = (first_flags-plain is_egress s.start).1;
                no_version = refl;
                no_kind = refl;
              })),
        )
    continue_record-IsAdmitted now has_room k' s (some state) read found same =
        let info = conns.get (conn_key s is_egress) k'.conn_map in
        let flags = set_flag (first_flags is_egress s.start) flag_continuation in
        output-IsAdmitted _ has_room (make_capture now skb s is_egress true info flags) (
          make_capture-short now skb s is_egress true info flags,
          inl (make_capture-Continues now skb s is_egress info),
        )

    start_record-IsAdmitted :
        (now : ℕ) (has_room : Bool) (k' : Kernel reasms conns) (s : Segment)
        → is_wanted false s.start ≡ true
        → IsAdmitted meanwhile k skb is_egress
            (start_record reasms conns now has_room k' skb s is_egress).1
    unfolding start_record
    start_record-IsAdmitted now has_room k' s wanted =
        let info = conns.get (conn_key s is_egress) k'.conn_map in
        let flags =
          if is_some (first_state s.start.record_len (skb.len - s.tls_start))
          then set_flag (first_flags is_egress s.start) flag_fragment
          else first_flags is_egress s.start in
        output-IsAdmitted _ has_room (make_capture now skb s is_egress false info flags) (
          make_capture-short now skb s is_egress false info flags,
          inr (inl (make_capture-StartsRecord now skb s is_egress info flags wanted)),
        )

    classify-IsAdmitted :
        (now : ℕ) (has_room : Bool) (s : Segment)
        → read_segment skb ≡ some s
        → IsAdmitted meanwhile k skb is_egress
            (classify reasms conns now has_room meanwhile k skb s is_egress).1
    unfolding classify is_wanted
    classify-IsAdmitted now has_room s read =
        let key = reasm_key s is_egress in
        let k' : Kernel reasms conns = record k { reasm_map = meanwhile k.reasm_map } in
        elim (Bool-cases (is_some (reasms.get key k.reasm_map))) [
          | inl found ↦ rw found (
              continue_record-IsAdmitted now has_room k' s (reasms.get key (meanwhile k.reasm_map))
                read found refl)
          | inr unknown ↦ rw unknown (elim (Bool-cases (is_wanted false s.start)) [
            | inr other ↦ rw other tt
            | inl wanted ↦ rw wanted (start_record-IsAdmitted now has_room k' s wanted)
          ])
        ]

    found-IsAdmitted :
        (now : ℕ) (has_room : Bool) (found : Option Segment)
        → read_segment skb ≡ found
        → IsAdmitted meanwhile k skb is_egress
            (classify_segment reasms conns now has_room meanwhile k skb is_egress found).1
    unfolding classify_segment
    found-IsAdmitted now has_room none e = tt
    found-IsAdmitted now has_room (some s) e = classify-IsAdmitted now has_room s e

  -- Whatever the packet, whatever the kernel's functions and maps return, and whatever other
  -- processors do to the map of states between its two lookups: a capture that leaves the kernel
  -- announces at most the payload that it can hold. It is marked as a continuation, of no version
  -- and no handshake type; or it is the start of a record of a known version: an alert, with no
  -- handshake type, or a handshake of one of the four types; or its flow's entry was there at the
  -- first lookup and gone at the second, and it has neither mark, version nor handshake type.
  pub try_capture_tls-IsAdmitted :
      (now : ℕ) (has_room : Bool) (meanwhile : reasms.Map → reasms.Map) (k : Kernel reasms conns)
      (skb : Skb) (is_egress : Bool)
      → IsAdmitted meanwhile k skb is_egress
          (try_capture_tls reasms conns now has_room meanwhile k skb is_egress).1
  unfolding try_capture_tls
  try_capture_tls-IsAdmitted now has_room meanwhile k skb is_egress =
      found-IsAdmitted meanwhile k skb is_egress now has_room (read_segment skb) refl
