-- ===== src/Classifier/Tests.antt =====
-- crates/tls-probe-ebpf/src/tls.rs on a small packet.
use tls_probe.Classifier.{KernelMap, Kernel, try_capture_tls}
use tls_probe.Classifier.Filter.{IsAdmitted, try_capture_tls-IsAdmitted}
use tls_probe.Classifier.Packet.{Skb, RecordStart, Segment, read_segment, reasm_key}
use tls_probe.Classifier.Segments.{
  IsFirst, Captured, AllCaptured, Packet, IsOf, capture, run, entry, run-segments,
}
use tls_probe.Common.Capture.{ConnKey, ConnInfo, ReasmKey, ReasmState, zeros}
use tls_probe.Prelude.{
  ℕ, ◌+◌, ◌≡◌, refl, true, false, inl, List, [], ◌∷◌, ◌++◌, Option, none, some, is_some, leb,
  length, take, drop, arith, if◌then◌else◌,
}
use tls_probe.SortedMap
use tls_probe.SortedMap.{KeyOrder, Entries}
use tls_probe.SortedMap.Orders.{number_order, list_order}
use tls_probe.Wire.{Bytes}

abbrev code_order : KeyOrder (List (List ℕ))
code_order = list_order (list_order number_order)

abbrev conn_code : ConnKey → List (List ℕ)
conn_code k = k.src_addr ∷ k.dst_addr ∷ (k.src_port ∷ []) ∷ (k.dst_port ∷ []) ∷ []

-- Maps that keep every entry.
abbrev conns : KernelMap ConnKey ConnInfo
conns = record {
  Map = Entries (List (List ℕ)) ConnInfo;
  get = λ k m. SortedMap.get code_order (conn_code k) m;
  insert = λ k v m. SortedMap.insert code_order (conn_code k) v m;
  remove = λ k m. SortedMap.remove code_order (conn_code k) m;
}

abbrev reasms : KernelMap ReasmKey ReasmState
reasms = record {
  Map = Entries (List (List ℕ)) ReasmState;
  get = λ k m. SortedMap.get code_order ((k.dir ∷ []) ∷ conn_code k.conn) m;
  insert = λ k v m. SortedMap.insert code_order ((k.dir ∷ []) ∷ conn_code k.conn) v m;
  remove = λ k m. SortedMap.remove code_order ((k.dir ∷ []) ∷ conn_code k.conn) m;
}

abbrev part : Bytes → ℕ → ℕ → Option Bytes
part bytes offset n =
    if leb (offset + n) (length bytes) then some (take n (drop offset bytes)) else none

abbrev skb_of : Bytes → Skb
skb_of bytes = record { len = length bytes; load_bytes = part bytes; direct = part bytes }

-- Ethernet, IPv4 without options, TCP without options, and the start of a client hello.
abbrev hello_packet : Bytes
hello_packet =
    zeros 12
    ++ (8 ∷ 0 ∷ 0x45 ∷ zeros 8
        ++ (6
              ∷ 0
              ∷ 0
              ∷ 10
              ∷ 0
              ∷ 0
              ∷ 1
              ∷ 10
              ∷ 0
              ∷ 0
              ∷ 2
              ∷ 200
              ∷ 0
              ∷ 1
              ∷ 187
              ∷ 0
              ∷ 0
              ∷ 0
              ∷ 100
              ∷ zeros 4
            ++ (0x50 ∷ zeros 7 ++ (0x16 ∷ 3 ∷ 1 ∷ 0 ∷ 9 ∷ 1 ∷ 0 ∷ []))))

abbrev idle : Kernel reasms conns
idle = record { reasm_map = []; conn_map = []; ringbuf_drops = 0 }

hello_packet_captured :
    is_some (try_capture_tls reasms conns 5 true (λ m. m) idle (skb_of hello_packet) true).1 ≡ true
unfolding try_capture_tls SortedMap.get
hello_packet_captured = refl

-- Another processor empties the map between the two lookups.
try_capture_tls-IsAdmitted_example :
    IsAdmitted reasms conns
      (λ m. [])
      idle
      (skb_of hello_packet)
      true
      (try_capture_tls reasms conns 5 true (λ m. []) idle (skb_of hello_packet) true).1
try_capture_tls-IsAdmitted_example =
    try_capture_tls-IsAdmitted reasms conns 5 true (λ m. []) idle (skb_of hello_packet) true

-- A map that holds one entry.
abbrev one_slot : KernelMap ReasmKey ReasmState
one_slot = record {
  Map = Option ReasmState;
  get = λ k m. m;
  insert = λ k v m. some v;
  remove = λ k m. none;
}

-- The packet with the start of a record of 25 bytes, of which it has eight, and one of its flow with
-- eight bytes of the record.
abbrev packet_of : Bytes → Bytes
packet_of bytes = take 54 hello_packet ++ bytes

abbrev first_packet : Bytes
first_packet = packet_of (0x16 ∷ 3 ∷ 1 ∷ 0 ∷ 20 ∷ 1 ∷ 0 ∷ 0 ∷ [])

abbrev later_packet : Bytes
later_packet = packet_of (9 ∷ 9 ∷ 9 ∷ 9 ∷ 9 ∷ 9 ∷ 9 ∷ 9 ∷ [])

abbrev segment_of : RecordStart → Segment
segment_of start = record {
  is_ipv6 = false;
  tcp_start = 34;
  tls_start = 54;
  src_addr = 10 ∷ 0 ∷ 0 ∷ 1 ∷ zeros 12;
  dst_addr = 10 ∷ 0 ∷ 0 ∷ 2 ∷ zeros 12;
  src_port = 51200;
  dst_port = 443;
  start = start;
}

abbrev arrival : Bytes → RecordStart → Packet one_slot conns
arrival bytes start = record {
  now = 5;
  has_room = true;
  meanwhile = λ m. m;
  skb = skb_of bytes;
  is_egress = true;
  segment = segment_of start;
}

abbrev first : Packet one_slot conns
first =
    arrival first_packet
      (record { content_type = 0x16; record_version = 0x0301; record_len = 20; hs_type = 1 })

abbrev later : Packet one_slot conns
later =
    arrival later_packet
      (record { content_type = 9; record_version = 0x0909; record_len = 0x0909; hs_type = 9 })

abbrev flow : ReasmKey
flow = record {
  conn = record {
    src_addr = 10 ∷ 0 ∷ 0 ∷ 1 ∷ zeros 12;
    dst_addr = 10 ∷ 0 ∷ 0 ∷ 2 ∷ zeros 12;
    src_port = 51200;
    dst_port = 443;
  };
  dir = 0;
}

first-IsOf : IsOf one_slot conns flow first
unfolding read_segment reasm_key
first-IsOf = record { read = refl; same = refl; room = refl; kept = λ m. refl }

later-IsOf : IsOf one_slot conns flow later
unfolding read_segment reasm_key
later-IsOf = record { read = refl; same = refl; room = refl; kept = λ m. refl }

abbrev unknown : Kernel one_slot conns
unknown = record { reasm_map = none; conn_map = []; ringbuf_drops = 0 }

-- The fourth packet has the last byte.
run-segments_example :
    Captured IsFirst (capture one_slot conns unknown first).1
    × AllCaptured
        (run one_slot conns
          (capture one_slot conns unknown first).0
          ((later ∷ later ∷ []) ++ later ∷ [])).1
    × (length
          (run one_slot conns
            (capture one_slot conns unknown first).0
            ((later ∷ later ∷ []) ++ later ∷ [])).1
        ≡ 3)
    × (entry one_slot conns flow
          (run one_slot conns
            (capture one_slot conns unknown first).0
            ((later ∷ later ∷ []) ++ later ∷ [])).0
        ≡ none)
    × ((capture one_slot conns
          (run one_slot conns
            (capture one_slot conns unknown first).0
            ((later ∷ later ∷ []) ++ later ∷ [])).0
          later).1
        ≡ none)
run-segments_example =
    run-segments one_slot conns flow (λ v m. refl) (λ m. refl) unknown first (later ∷ later ∷ [])
      later later first-IsOf (later-IsOf, (later-IsOf, tt)) later-IsOf later-IsOf refl
      (record { content = refl; low = omega arith; high = omega arith; kind = inl refl })
      (omega arith) (omega arith) (omega arith) (omega arith) (inl (omega arith))
