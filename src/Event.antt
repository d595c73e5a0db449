-- ===== src/Event.antt =====
-- crates/tls-probe-cli/src/tls.rs: the event of a capture. The text of the time and of an IPv6 address
-- and SHA-256 are those of libraries, in `Host`.
pub mod Names
pub mod Build
pub mod Alerts
mod Tests
use Prim.Native.String.{String}
use tls_probe.Certificate.{Certificate, Libraries}
use tls_probe.Common.Capture.{RawTlsCapture, has_ipv6}
use tls_probe.Correlate.{Negotiation}
use tls_probe.Event.Names.{cipher_suite_name, key_exchange_name, signature_algorithm_name}
use tls_probe.Prelude.{ℕ, Bool, List, [], ◌∷◌, ◌++◌, map, Option, none, some, ◌==◌, if◌then◌else◌}
use tls_probe.Text.{decimal}
use tls_probe.Utf8.{from_utf8_lossy}
use tls_probe.Wire.{Bytes}

pub record Host : Type 0 where
  pub libraries : Libraries
  pub digest : Bytes → Bytes
  pub show_ipv6 : Bytes → Bytes
  pub timestamp : Bytes

pub record Resumption : Type 0 where
  pub psk_offered : Bool
  pub early_data_offered : Bool
  pub psk_selected : Bool
  pub session_ticket_offered : Bool

-- `CipherSuiteInfo`, `KeyExchangeInfo` and `SignatureAlgorithmInfo`, of the same fields.
pub record Info : Type 0 where
  pub id : ℕ
  pub name : String

pub record CaptureEvent : Type 0 where
  pub schema_version : String
  pub timestamp : Bytes
  pub timestamp_ns : ℕ
  pub src : Bytes
  pub dst : Bytes
  pub tls_version : String
  pub handshake_type : String
  pub cipher_suites : List Info
  pub key_exchange_groups : List Info
  pub signature_algorithms : List Info
  pub signature_algorithms_cert : Option (List Info)
  pub key_share_group : Option Info
  pub sni : Option Bytes
  pub process_name : Option Bytes
  pub pid : Option ℕ
  pub reassembled : Option Bool
  pub truncated : Option Bool
  pub alert_level : Option Bytes
  pub alert_description : Option Bytes
  pub negotiation : Option Negotiation
  pub resumption : Option Resumption
  pub cgroup_id : Option ℕ
  pub container_id : Option Bytes
  pub pod_uid : Option Bytes
  pub ja4 : Option Bytes
  pub certificate : Option Certificate

-- `{}.{}.{}.{}` of the first four bytes
abbrev dotted : Bytes → Bytes
dotted (a ∷ b ∷ c ∷ d ∷ rest) =
    decimal a ++ (46 ∷ (decimal b ++ (46 ∷ (decimal c ++ (46 ∷ decimal d)))))
dotted _ = []

unfoldable pub format_addr : Host → Bytes → Bool → Bytes
format_addr h addr is_ipv6 = if is_ipv6 then h.show_ipv6 addr else dotted addr

abbrev endpoint : Host → Bytes → Bool → ℕ → Bytes
endpoint h addr is_ipv6 port = format_addr h addr is_ipv6 ++ (58 ∷ decimal port)

unfoldable pub src_of : Host → RawTlsCapture → Bytes
unfolding format_addr
src_of h c = endpoint h c.src_addr (has_ipv6 c) c.src_port

unfoldable pub dst_of : Host → RawTlsCapture → Bytes
unfolding format_addr
dst_of h c = endpoint h c.dst_addr (has_ipv6 c) c.dst_port

-- `&comm[..len]`, up to the first zero.
abbrev pub until_zero : Bytes → Bytes
until_zero [] = []
until_zero (c ∷ comm) = let rest = until_zero comm in if c == 0 then [] else c ∷ rest

unfoldable pub process_attribution : RawTlsCapture → Option Bytes × Option ℕ
process_attribution c =
    if c.pid == 0 then (none, none) else (some (from_utf8_lossy (until_zero c.comm)), some c.pid)

-- The fields that every event takes from its capture; the others are empty.
unfoldable pub plain_event : Host → RawTlsCapture → String → String → CaptureEvent
unfolding src_of dst_of process_attribution
plain_event h c tls_version handshake_type = record {
  schema_version = "1";
  timestamp = h.timestamp;
  timestamp_ns = c.timestamp_ns;
  src = src_of h c;
  dst = dst_of h c;
  tls_version = tls_version;
  handshake_type = handshake_type;
  cipher_suites = [];
  key_exchange_groups = [];
  signature_algorithms = [];
  signature_algorithms_cert = none;
  key_share_group = none;
  sni = none;
  process_name = (process_attribution c).0;
  pid = (process_attribution c).1;
  reassembled = none;
  truncated = none;
  alert_level = none;
  alert_description = none;
  negotiation = none;
  resumption = none;
  cgroup_id = none;
  container_id = none;
  pod_uid = none;
  ja4 = none;
  certificate = none;
}
