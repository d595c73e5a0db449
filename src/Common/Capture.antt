-- ===== src/Common/Capture.antt =====
-- crates/tls-probe-common/src/domains/tls.rs and process.rs: the capture that the kernel program
-- hands to the user program, and the keys of connections.
use tls_probe.Common.Codes.{handshake_client_hello, handshake_server_hello}
use tls_probe.Prelude.{
  ℕ, zero, suc, ◌+◌, ◌/◌, ◌%◌, ◌≤◌, min, Bool, not, [], ◌∷◌, arith, ◌==◌, length, take, length-take,
  if◌then◌else◌,
}
use tls_probe.Wire.{Bytes}

abbrev pub raw_payload_size : ℕ
raw_payload_size = 4096

abbrev pub raw_capture_header_size : ℕ
raw_capture_header_size = 88

abbrev pub max_reasm_segments : ℕ
max_reasm_segments = 4

-- The flags, each one bit of a byte.
abbrev pub flag_fragment : ℕ
flag_fragment = 1

abbrev pub flag_continuation : ℕ
flag_continuation = 2

abbrev pub flag_alert : ℕ
flag_alert = 4

abbrev pub flag_ingress : ℕ
flag_ingress = 8

-- `flags & bit != 0` for a power of two
abbrev pub has_flag : ℕ → ℕ → Bool
has_flag flags bit = flags / bit % 2 == 1

-- `flags |= bit` for a power of two
abbrev pub set_flag : ℕ → ℕ → ℕ
set_flag flags bit = if has_flag flags bit then flags else flags + bit

pub record ConnKey : Type 0 where
  pub src_addr : Bytes
  pub dst_addr : Bytes
  pub src_port : ℕ
  pub dst_port : ℕ

pub record ConnInfo : Type 0 where
  pub pid : ℕ
  pub tgid : ℕ
  pub comm : Bytes
  pub cgroup_id : ℕ

pub record RawTlsCapture : Type 0 where
  pub timestamp_ns : ℕ
  pub cgroup_id : ℕ
  pub src_addr : Bytes
  pub dst_addr : Bytes
  pub src_port : ℕ
  pub dst_port : ℕ
  pub is_ipv6 : ℕ
  pub handshake_type : ℕ
  pub record_version : ℕ
  pub payload_len : ℕ
  pub tcp_seq : ℕ
  pub flags : ℕ
  pub content_type : ℕ
  pub pid : ℕ
  pub comm : Bytes
  pub payload : Bytes

pub record ReasmKey : Type 0 where
  pub conn : ConnKey
  pub dir : ℕ

pub record ReasmState : Type 0 where
  pub remaining : ℕ
  pub segments_left : ℕ

-- `vec![0; n]`
abbrev pub zeros : ℕ → Bytes
zeros zero = []
zeros (suc n) = 0 ∷ zeros n

-- The fields of `RawTlsCapture::default()`, with an empty payload where that has zeros.
abbrev pub default_capture : RawTlsCapture
default_capture = record {
  timestamp_ns = 0;
  cgroup_id = 0;
  src_addr = zeros 16;
  dst_addr = zeros 16;
  src_port = 0;
  dst_port = 0;
  is_ipv6 = 0;
  handshake_type = 0;
  record_version = 0;
  payload_len = 0;
  tcp_seq = 0;
  flags = 0;
  content_type = 0;
  pid = 0;
  comm = zeros 16;
  payload = [];
}

-- `is_ipv6()`
abbrev pub has_ipv6 : RawTlsCapture → Bool
has_ipv6 c = not (c.is_ipv6 == 0)

unfoldable pub payload_slice : RawTlsCapture → Bytes
payload_slice c = take (min c.payload_len raw_payload_size) c.payload

unfoldable pub is_client_hello : RawTlsCapture → Bool
is_client_hello c = c.handshake_type == handshake_client_hello

unfoldable pub is_server_hello : RawTlsCapture → Bool
is_server_hello c = c.handshake_type == handshake_server_hello

-- A payload is never longer than the array that holds it.
pub length-payload_slice-le : (c : RawTlsCapture) → length (payload_slice c) ≤ raw_payload_size
unfolding payload_slice
length-payload_slice-le c =
    omega (arith, length-take (min c.payload_len raw_payload_size) c.payload)
