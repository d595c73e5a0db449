-- ===== src/Worker/Tests.antt =====
-- crates/tls-probe-cli/src/commands/capture.rs on the hellos of one connection.
use tls_probe.Common.Capture.{
  RawTlsCapture, default_capture, payload_slice, zeros, is_client_hello, is_server_hello,
}
use tls_probe.Correlate
use tls_probe.Correlate.{Correlator, build_negotiation, summarise}
use tls_probe.Correlate.Bounds.{IsBounded}
use tls_probe.Event.{Host}
use tls_probe.Outcome.{ok}
use tls_probe.Parser.Analysis.{parse_tls_payload, effective_version}
use tls_probe.Parser.ClientHello.{parse_client_hello}
use tls_probe.Parser.Extensions.{
  ExtensionType, parse_extensions, from_u16, extract_supported_versions,
}
use tls_probe.Parser.ServerHello.{parse_server_hello}
use tls_probe.Parser.Types.{ParsedClientHello, ParsedServerHello}
use tls_probe.Prelude.{ℕ, ◌≡◌, refl, false, [], ◌∷◌, ◌++◌, arith, Option, none, some}
use tls_probe.Wire.{Bytes, byte_at, u16_at, slice}
use tls_probe.Worker.{Round, new_worker, is_part, handle, work}
use tls_probe.Worker.Branches.{Clocks, conn_key}
use tls_probe.Worker.Joined.{HoldsClientHello, HoldsServerHello, Reports, handle-handle}
use tls_probe.Worker.Safety.{Ends, work-Ends}

abbrev host : Host
host = record {
  libraries = record { parse_x509_certificate = λ der. none; from_timestamp = λ t. none; now = 0 };
  digest = λ s. zeros 32;
  show_ipv6 = λ a. [];
  timestamp = [];
}

abbrev no_path : ℕ → Option Bytes
no_path i = none

abbrev client_payload : Bytes
client_payload =
    22 ∷ 3 ∷ 1 ∷ 0 ∷ 45 ∷ 1 ∷ 0 ∷ 0 ∷ 41 ∷ 3 ∷ 3 ∷ (zeros 32 ++ (0 ∷ 0 ∷ 2 ∷ 0x13 ∷ 1 ∷ 1 ∷ 0 ∷ []))

abbrev server_payload : Bytes
server_payload =
    22
    ∷ 3
    ∷ 3
    ∷ 0
    ∷ 50
    ∷ 2
    ∷ 0
    ∷ 0
    ∷ 46
    ∷ 3
    ∷ 3
    ∷ (zeros 32 ++ (0 ∷ 0x13 ∷ 1 ∷ 0 ∷ 0 ∷ 6 ∷ 0 ∷ 43 ∷ 0 ∷ 2 ∷ 3 ∷ 4 ∷ []))

abbrev client_capture : RawTlsCapture
client_capture = record default_capture {
  handshake_type = 1;
  content_type = 22;
  payload_len = 50;
  payload = client_payload;
}

abbrev server_capture : RawTlsCapture
server_capture = record default_capture {
  handshake_type = 2;
  content_type = 22;
  payload_len = 55;
  payload = server_payload;
}

abbrev offer : ParsedClientHello
offer = record {
  legacy_version = 771;
  random = zeros 32;
  session_id = [];
  cipher_suites = 4865 ∷ [];
  compression_methods = 0 ∷ [];
  extensions = [];
  extension_ids = [];
  supported_versions = [];
  supported_groups = [];
  signature_algorithms = [];
  signature_algorithms_cert = [];
  key_share_groups = [];
  sni = none;
  alpn = [];
  psk_offered = false;
  early_data_offered = false;
  psk_key_exchange_modes_offered = false;
  session_ticket_offered = false;
}

abbrev choice : ParsedServerHello
choice = record {
  legacy_version = 771;
  random = zeros 32;
  session_id = [];
  cipher_suite = 4865;
  compression_method = 0;
  extensions = record { ext_type = ExtensionType.supported_versions; content = 3 ∷ 4 ∷ [] } ∷ [];
  negotiated_version = some 772;
  key_share_group = none;
  psk_selected = false;
}

client_capture-HoldsClientHello : HoldsClientHello client_capture 769 offer
unfolding is_part is_client_hello payload_slice parse_tls_payload u16_at byte_at parse_client_hello
    slice
client_capture-HoldsClientHello = record { whole = refl; client = refl; parsed = refl }

server_capture-HoldsServerHello : HoldsServerHello server_capture 771 choice
unfolding is_part is_client_hello is_server_hello payload_slice parse_tls_payload effective_version
    u16_at byte_at parse_server_hello slice parse_extensions from_u16 extract_supported_versions
server_capture-HoldsServerHello = record {
  whole = refl;
  not_client = refl;
  server = refl;
  parsed = refl;
  late = refl;
}

abbrev at : ℕ → Clocks
at n = record { instant = n; wall = n }

new-IsBounded : IsBounded Correlate.new
unfolding Correlate.new
new-IsBounded = record { sorted = tt; short = omega arith; positive = omega arith }

handle-handle_example :
    (r : Round) × (handle host no_path (at 5) new_worker client_capture ≡ ok r)
    × Reports
        (handle host no_path (at 9) r.worker server_capture)
        (build_negotiation (summarise 5 offer) choice)
unfolding new_worker conn_key
handle-handle_example =
    handle-handle host no_path (at 5) (at 9) new_worker client_capture server_capture 769 771 offer
      choice client_capture-HoldsClientHello server_capture-HoldsServerHello refl new-IsBounded refl
      refl

work-Ends_example :
    Ends (work host no_path new_worker ((at 5, client_capture) ∷ (at 9, server_capture) ∷ []))
work-Ends_example =
    work-Ends host no_path new_worker ((at 5, client_capture) ∷ (at 9, server_capture) ∷ [])
