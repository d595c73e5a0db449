-- ===== src/Classifier.antt =====
-- crates/tls-probe-ebpf/src/tls.rs: the classifier that makes captures of packets. The kernel's maps
-- are arguments: they may drop entries of their own. The time, and whether the ring buffer takes the
-- capture, are arguments of each call. A capture's payload are the bytes that were copied.
pub mod Attempt
pub mod Filter
pub mod Packet
pub mod Segments
mod Tests
use tls_probe.Classifier.Packet.{Skb, RecordStart, Segment, read_segment, conn_key, reasm_key}
use tls_probe.Common.Capture.{
  ConnKey, ConnInfo, ReasmKey, ReasmState, RawTlsCapture, flag_fragment, flag_continuation,
  flag_alert, flag_ingress, max_reasm_segments, raw_payload_size, set_flag, zeros,
}
use tls_probe.Common.Codes.{
  content_type_alert, content_type_handshake, handshake_client_hello, handshake_server_hello,
  handshake_certificate, handshake_certificate_request,
}
use tls_probe.Prelude.{
  ℕ, suc, ◌+◌, ◌-◌, ◌*◌, Bool, true, false, not, ◌&&◌, ◌||◌, List, [], ◌∷◌, Option, none, some,
  is_some, leb, ltb, ◌==◌, min, if◌then◌else◌,
}
use tls_probe.Wire.{Bytes}

-- A map of the kernel.
pub record KernelMap (K V : Type 0) : Type 1 where
  pub Map : Type 0
  pub get : K → Map → Option V
  pub insert : K → V → Map → Map
  pub remove : K → Map → Map

-- The tests on the record's start. A continuation is let through whatever it starts with.
unfoldable pub is_wanted : Bool → RecordStart → Bool
is_wanted true r = true
is_wanted false r =
    (r.content_type == content_type_handshake || r.content_type == content_type_alert)
    && (leb 0x0300 r.record_version && leb r.record_version 0x0303)
    && (not (r.content_type == content_type_handshake)
        || (r.hs_type == handshake_client_hello
            || r.hs_type == handshake_server_hello
            || r.hs_type == handshake_certificate
            || r.hs_type == handshake_certificate_request))

-- The flags before it is known whether the record has several segments.
unfoldable pub first_flags : Bool → RecordStart → ℕ
first_flags is_egress r =
    let direction = if is_egress then 0 else flag_ingress in
    if r.content_type == content_type_alert then set_flag direction flag_alert else direction

abbrev pub be32 : Option Bytes → ℕ
be32 (some (a ∷ b ∷ c ∷ e ∷ [])) = ((a * 256 + b) * 256 + c) * 256 + e
be32 _ = 0

abbrev pub loaded : Option Bytes → ℕ → Bytes × ℕ
loaded none copy_len = ([], 0)
loaded (some bytes) copy_len = (bytes, copy_len)

abbrev pub no_info : ConnInfo
no_info = record { pid = 0; tgid = 0; comm = zeros 16; cgroup_id = 0 }

abbrev pub info_or_none : Option ConnInfo → ConnInfo
info_or_none none = no_info
info_or_none (some info) = info

-- The capture, with these flags.
unfoldable pub make_capture : ℕ → Skb → Segment → Bool → Bool → Option ConnInfo → ℕ → RawTlsCapture
unfolding conn_key
make_capture now skb s is_egress is_continuation info flags =
    let key = conn_key s is_egress in
    let copy_len = min (skb.len - s.tls_start) raw_payload_size in
    let payload =
      loaded (if leb 1 copy_len then skb.load_bytes s.tls_start copy_len else none) copy_len in
    let process = info_or_none info in
    record {
      timestamp_ns = now;
      cgroup_id = process.cgroup_id;
      src_addr = key.src_addr;
      dst_addr = key.dst_addr;
      src_port = key.src_port;
      dst_port = key.dst_port;
      is_ipv6 = if s.is_ipv6 then 1 else 0;
      handshake_type =
          if is_continuation || s.start.content_type == content_type_alert
          then 0
          else s.start.hs_type;
      record_version = if is_continuation then 0 else s.start.record_version;
      payload_len = payload.1;
      tcp_seq =
          if ltb skb.len (s.tcp_start + 8) then 0 else be32 (skb.load_bytes (s.tcp_start + 4) 4);
      flags = flags;
      content_type = s.start.content_type;
      pid = process.pid;
      comm = process.comm;
      payload = payload.0;
    }

-- What becomes of the state of a record when one more segment has come; none: it is removed.
unfoldable pub continue_state : ReasmState → ℕ → Option ReasmState
continue_state state payload_avail =
    let new_remaining = state.remaining - payload_avail in
    if new_remaining == 0 || state.segments_left == 0
    then none
    else some (record { remaining = new_remaining; segments_left = state.segments_left - 1 })

-- The state of a record whose first segment does not hold all of it.
unfoldable pub first_state : ℕ → ℕ → Option ReasmState
first_state record_len payload_avail =
    if ltb payload_avail (record_len + 5)
    then some (record {
      remaining = record_len + 5 - payload_avail;
      segments_left = max_reasm_segments - 1;
    })
    else none

module _ (reasms : KernelMap ReasmKey ReasmState) (conns : KernelMap ConnKey ConnInfo) where
  pub record Kernel : Type 0 where
    pub reasm_map : reasms.Map
    pub conn_map : conns.Map
    pub ringbuf_drops : ℕ

  -- The capture goes to the ring buffer, or is counted as dropped.
  abbrev pub output : Kernel → Bool → RawTlsCapture → Kernel × Option RawTlsCapture
  output k true capture = (k, some capture)
  output k false capture = (record k { ringbuf_drops = suc k.ringbuf_drops }, none)

  abbrev pub put_or_remove : ReasmKey → Option ReasmState → reasms.Map → reasms.Map
  put_or_remove key none m = reasms.remove key m
  put_or_remove key (some state) m = reasms.insert key state m

  abbrev pub put_if : ReasmKey → Option ReasmState → reasms.Map → reasms.Map
  put_if key none m = m
  put_if key (some state) m = reasms.insert key state m

  -- A continuation: the state that the second lookup finds, or none where the entry is gone.
  unfoldable pub continue_record :
      ℕ → Bool → Kernel → Skb → Segment → Bool → Option ReasmState → Kernel × Option RawTlsCapture
  unfolding make_capture first_flags continue_state reasm_key
  continue_record now has_room k skb s is_egress none =
      let info = conns.get (conn_key s is_egress) k.conn_map in
      output k has_room (make_capture now skb s is_egress true info (first_flags is_egress s.start))
  continue_record now has_room k skb s is_egress (some state) =
      let payload_avail = skb.len - s.tls_start in
      let key = reasm_key s is_egress in
      let info = conns.get (conn_key s is_egress) k.conn_map in
      let flags = set_flag (first_flags is_egress s.start) flag_continuation in
      output
        (record k {
          reasm_map = put_or_remove key (continue_state state payload_avail) k.reasm_map;
        })
        has_room (make_capture now skb s is_egress true info flags)

  -- The start of a record.
  unfoldable pub start_record :
      ℕ → Bool → Kernel → Skb → Segment → Bool → Kernel × Option RawTlsCapture
  unfolding make_capture first_flags first_state reasm_key
  start_record now has_room k skb s is_egress =
      let key = reasm_key s is_egress in
      let info = conns.get (conn_key s is_egress) k.conn_map in
      let state = first_state s.start.record_len (skb.len - s.tls_start) in
      let flags =
        if is_some state
        then set_flag (first_flags is_egress s.start) flag_fragment
        else first_flags is_egress s.start in
      output (record k { reasm_map = put_if key state k.reasm_map }) has_room
        (make_capture now skb s is_egress false info flags)

  -- The map of states is looked up twice. Other processors share it: what they do to it between
  -- the two is an argument.
  unfoldable pub classify :
      ℕ
      → Bool
      → (reasms.Map → reasms.Map)
      → Kernel
      → Skb
      → Segment
      → Bool
      → Kernel × Option RawTlsCapture
  unfolding is_wanted continue_record start_record reasm_key
  classify now has_room meanwhile k skb s is_egress =
      let key = reasm_key s is_egress in
      let is_continuation = is_some (reasms.get key k.reasm_map) in
      let k' : Kernel = record k { reasm_map = meanwhile k.reasm_map } in
      let continued =
        continue_record now has_room k' skb s is_egress (reasms.get key k'.reasm_map) in
      let started = start_record now has_room k' skb s is_egress in
      if not (is_wanted is_continuation s.start)
      then (k', none)
      else if is_continuation
      then continued
      else started

  pub classify_segment :
      ℕ
      → Bool
      → (reasms.Map → reasms.Map)
      → Kernel
      → Skb
      → Bool
      → Option Segment
      → Kernel × Option RawTlsCapture
  unfolding classify
  classify_segment now has_room meanwhile k skb is_egress none = (k, none)
  classify_segment now has_room meanwhile k skb is_egress (some s) =
      classify now has_room meanwhile k skb s is_egress

  unfoldable pub try_capture_tls :
      ℕ → Bool → (reasms.Map → reasms.Map) → Kernel → Skb → Bool → Kernel × Option RawTlsCapture
  unfolding read_segment classify_segment
  try_capture_tls now has_room meanwhile k skb is_egress =
      classify_segment now has_room meanwhile k skb is_egress (read_segment skb)
