-- ===== src/Classifier/Packet.antt =====
-- crates/tls-probe-ebpf/src/tls.rs: what the classifier reads of a packet's headers. The packet is
-- read through the kernel's functions, which are arguments here.
use tls_probe.Classifier.Attempt.{◌>>=◌, ◌>>◌, require}
use tls_probe.Common.Capture.{ConnKey, ReasmKey, zeros}
use tls_probe.Prelude.{
  ℕ, ◌+◌, ◌*◌, ◌/◌, ◌%◌, Bool, true, false, ◌&&◌, [], ◌∷◌, ◌++◌, Option, none, some, leb, ◌==◌,
  if◌then◌else◌,
}
use tls_probe.Wire.{Bytes}

-- A packet: its length, the bytes at an offset by `bpf_skb_load_bytes`, and those that can be read
-- directly.
pub record Skb : Type 0 where
  pub len : ℕ
  pub load_bytes : ℕ → ℕ → Option Bytes
  pub direct : ℕ → ℕ → Option Bytes

abbrev pub the_byte : Bytes → Option ℕ
the_byte (b ∷ []) = some b
the_byte _ = none

abbrev pub the_u16 : Bytes → Option ℕ
the_u16 (hi ∷ lo ∷ []) = some (hi * 256 + lo)
the_u16 _ = none

unfoldable pub load_u8 : Skb → ℕ → Option ℕ
load_u8 skb offset = skb.load_bytes offset 1 >>= the_byte

unfoldable pub read_u8 : Skb → ℕ → Option ℕ
read_u8 skb offset = skb.direct offset 1 >>= the_byte

unfoldable pub read_u16_be : Skb → ℕ → Option ℕ
read_u16_be skb offset = skb.direct offset 2 >>= the_u16

-- `(is_ipv6, ip_hdr_len, src_offset, dst_offset)`
pub record IpHeader : Type 0 where
  pub is_ipv6 : Bool
  pub ip_hdr_len : ℕ
  pub src_offset : ℕ
  pub dst_offset : ℕ

unfoldable pub read_ip : Skb → ℕ → Option IpHeader
unfolding read_u8
read_ip skb eth_proto =
    let v4 = do
      ip_proto ← read_u8 skb 23
      require (ip_proto == 6)
      version_ihl ← read_u8 skb 14
      let ip_hdr_len = version_ihl % 16 * 4
      require (leb 20 ip_hdr_len)
      some (record { is_ipv6 = false; ip_hdr_len = ip_hdr_len; src_offset = 26; dst_offset = 30 })
    in let v6 = do
      ip_proto ← read_u8 skb 20
      require (ip_proto == 6)
      some (record { is_ipv6 = true; ip_hdr_len = 40; src_offset = 22; dst_offset = 38 })
      in if eth_proto == 0x0800 then v4 else if eth_proto == 0x86DD then v6 else none

-- An address of four bytes stands in front of zeros.
unfoldable pub read_addr : Skb → Bool → ℕ → Option Bytes
read_addr skb true offset = skb.load_bytes offset 16
read_addr skb false offset = do addr ← skb.load_bytes offset 4; some (addr ++ zeros 12)

abbrev pub the_ports : Bytes → Option (ℕ × ℕ)
the_ports (a ∷ b ∷ c ∷ e ∷ []) = some (a * 256 + b, c * 256 + e)
the_ports _ = none

-- The record's header and the byte behind it.
pub record RecordStart : Type 0 where
  pub content_type : ℕ
  pub record_version : ℕ
  pub record_len : ℕ
  pub hs_type : ℕ

abbrev pub the_record : Bytes → Option RecordStart
the_record (t ∷ a ∷ b ∷ c ∷ e ∷ hs ∷ []) = some (record {
  content_type = t;
  record_version = a * 256 + b;
  record_len = c * 256 + e;
  hs_type = hs;
})
the_record _ = none

-- What has been read when the packet is looked up.
pub record Segment : Type 0 where
  pub is_ipv6 : Bool
  pub tcp_start : ℕ
  pub tls_start : ℕ
  pub src_addr : Bytes
  pub dst_addr : Bytes
  pub src_port : ℕ
  pub dst_port : ℕ
  pub start : RecordStart

unfoldable pub read_segment : Skb → Option Segment
unfolding read_u16_be read_ip load_u8 read_addr
read_segment skb = do
  require (leb 60 skb.len)
  eth_proto ← read_u16_be skb 12
  ip ← read_ip skb eth_proto
  let tcp_start = 14 + ip.ip_hdr_len
  require (leb (tcp_start + 13) skb.len)
  tcp_off_byte ← load_u8 skb (tcp_start + 12)
  let tcp_data_off = tcp_off_byte / 16 * 4
  require (leb 20 tcp_data_off && leb tcp_data_off 60)
  let tls_start = tcp_start + tcp_data_off
  require (leb (tls_start + 6) skb.len)
  src_addr ← read_addr skb ip.is_ipv6 ip.src_offset
  dst_addr ← read_addr skb ip.is_ipv6 ip.dst_offset
  (src_port, dst_port) ← skb.load_bytes tcp_start 4 >>= the_ports
  start ← skb.load_bytes tls_start 6 >>= the_record
  some (record {
    is_ipv6 = ip.is_ipv6;
    tcp_start = tcp_start;
    tls_start = tls_start;
    src_addr = src_addr;
    dst_addr = dst_addr;
    src_port = src_port;
    dst_port = dst_port;
    start = start;
  })

-- The local end first: a packet that comes in has it as its destination.
unfoldable pub conn_key : Segment → Bool → ConnKey
conn_key s true = record {
  src_addr = s.src_addr;
  dst_addr = s.dst_addr;
  src_port = s.src_port;
  dst_port = s.dst_port;
}
conn_key s false = record {
  src_addr = s.dst_addr;
  dst_addr = s.src_addr;
  src_port = s.dst_port;
  dst_port = s.src_port;
}

unfoldable pub reasm_key : Segment → Bool → ReasmKey
unfolding conn_key
reasm_key s is_egress = record { conn = conn_key s is_egress; dir = if is_egress then 0 else 1 }
