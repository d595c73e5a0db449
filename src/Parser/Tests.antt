-- ===== src/Parser/Tests.antt =====
-- crates/tls-probe-parser on small payloads.
use tls_probe.Common.Capture.{zeros}
use tls_probe.Outcome.{ok, Within}
use tls_probe.Parser.Analysis.{IsAnalysis, parse_tls_payload, parse_tls_payload-Within}
use tls_probe.Parser.ClientHello.{HelloFields, no_fields, apply_extensions, parse_client_hello}
use tls_probe.Parser.ClientHello.RoundTrip.{
  WireHello, IsWire, hello_bytes, parsed, tail_of, parse_client_hello-hello_bytes,
}
use tls_probe.Parser.ClientHello.Safety.{IsHello, parse_client_hello-Within}
use tls_probe.Parser.Extensions.{
  ExtensionType, parse_extensions, extract_key_share_groups, extract_alpn, extract_sni,
  extract_supported_groups, extract_signature_algorithms, extract_signature_algorithms_cert,
  extract_supported_versions,
}
use tls_probe.Parser.Extensions.Framing.{
  RawExtension, IsRaw, frames, IsCut, Framed, decode, parse_extensions-whole,
}
use tls_probe.Parser.Extensions.Names.{key_share_groups-frames, alpn-name_frames}
use tls_probe.Parser.Extensions.Numbers.{typed, extract-u16_list}
use tls_probe.Parser.Extensions.Sni.{extract_sni-host}
use tls_probe.Parser.ServerHello.{
  ServerFields, no_server_fields, apply_server_extensions, parse_server_hello,
}
use tls_probe.Parser.ServerHello.RoundTrip
use tls_probe.Parser.ServerHello.RoundTrip.{
  WireServerHello, IsServerWire, server_hello_bytes, server_tail_of,
  parse_server_hello-server_hello_bytes,
}
use tls_probe.Parser.Types.{TlsVersion, from_u16}
use tls_probe.Prelude.{ℕ, ◌≡◌, refl, true, List, [], ◌∷◌, ◌++◌, map, arith, length, All}
use tls_probe.Utf8.{from_utf8, from_utf8_lossy}
use tls_probe.Wire.{Bytes, u16_be}

-- A list of two groups, an announced list of versions, and an extension cut off behind its header.
abbrev groups_body : Bytes
groups_body = 0 ∷ 4 ∷ 0 ∷ 29 ∷ 17 ∷ 236 ∷ []

abbrev raw_extensions : List RawExtension
raw_extensions =
    record { id = 10; body = groups_body } ∷ record { id = 43; body = 2 ∷ 3 ∷ 4 ∷ [] } ∷ []

abbrev cut_extension : Bytes
cut_extension = 0 ∷ 16 ∷ 0 ∷ 9 ∷ 1 ∷ []

raw_extensions-IsRaw : All IsRaw raw_extensions
raw_extensions-IsRaw = ((omega arith, omega arith), ((omega arith, omega arith), tt))

cut_extension-IsCut : IsCut cut_extension
cut_extension-IsCut = omega arith

abbrev hello : WireHello
hello = record {
  header = 22 ∷ 3 ∷ 1 ∷ 0 ∷ 90 ∷ 1 ∷ 0 ∷ 0 ∷ 86 ∷ [];
  legacy_version = 771;
  random = zeros 32;
  session_id = 7 ∷ 8 ∷ [];
  cipher_suites = 4865 ∷ 4866 ∷ [];
  compression_methods = 0 ∷ [];
}

hello-IsWire : IsWire hello
hello-IsWire = record {
  header_size = refl;
  random_size = refl;
  session_short = omega arith;
  suites_u16 = (omega arith, (omega arith, tt));
  suites_short = omega arith;
  compression_short = omega arith;
}

parse_client_hello-hello_bytes_example :
    (f : HelloFields) × (apply_extensions (map decode raw_extensions) no_fields ≡ ok f)
    × (parse_client_hello
          (hello_bytes hello (u16_be 22 ++ ((frames raw_extensions ++ cut_extension) ++ [])))
        ≡ ok (parsed hello (tail_of raw_extensions cut_extension f)))
parse_client_hello-hello_bytes_example =
    parse_client_hello-hello_bytes hello 22 raw_extensions cut_extension [] hello-IsWire
      (omega arith) raw_extensions-IsRaw cut_extension-IsCut refl

parse_client_hello-Within_example :
    Within (IsHello (hello_bytes hello [])) (parse_client_hello (hello_bytes hello []))
parse_client_hello-Within_example = parse_client_hello-Within (hello_bytes hello [])

parse_tls_payload-Within_example :
    Within (IsAnalysis (hello_bytes hello []) true) (parse_tls_payload (hello_bytes hello []) true)
parse_tls_payload-Within_example = parse_tls_payload-Within (hello_bytes hello []) true

abbrev server : WireServerHello
server = record {
  header = 22 ∷ 3 ∷ 3 ∷ 0 ∷ 80 ∷ 2 ∷ 0 ∷ 0 ∷ 76 ∷ [];
  legacy_version = 771;
  random = zeros 32;
  session_id = [];
  cipher_suite = 4865;
  compression_method = 0;
}

server-IsServerWire : IsServerWire server
server-IsServerWire = record {
  header_size = refl;
  random_size = refl;
  session_short = omega arith;
  suite_u16 = omega arith;
}

abbrev server_extensions : List RawExtension
server_extensions =
    record { id = 43; body = 3 ∷ 4 ∷ [] } ∷ record { id = 51; body = 0 ∷ 29 ∷ [] } ∷ []

parse_server_hello-server_hello_bytes_example :
    (f : ServerFields) × (apply_server_extensions (map decode server_extensions) no_server_fields
      ≡ ok f)
    × (parse_server_hello
          (server_hello_bytes server (u16_be 12 ++ ((frames server_extensions ++ []) ++ [])))
        ≡ ok (RoundTrip.parsed server (server_tail_of server_extensions f)))
parse_server_hello-server_hello_bytes_example =
    parse_server_hello-server_hello_bytes server 12 server_extensions [] [] server-IsServerWire
      (omega arith) ((omega arith, omega arith), ((omega arith, omega arith), tt)) tt refl
      (omega arith)

parse_extensions-whole_example :
    (p : Framed cut_extension) × (parse_extensions cut_extension ≡ ok (map decode p.whole))
parse_extensions-whole_example =
    parse_extensions-whole cut_extension
      (omega arith, (omega arith, (omega arith, (omega arith, (omega arith, tt)))))

abbrev shares : List RawExtension
shares = record { id = 29; body = 1 ∷ 2 ∷ [] } ∷ record { id = 4588; body = 3 ∷ [] } ∷ []

key_share_groups-frames_example :
    extract_key_share_groups
      (typed ExtensionType.key_share
        (u16_be (length (frames shares)) ++ (frames shares ++ 9 ∷ 9 ∷ [])))
      true
    ≡ ok (29 ∷ 4588 ∷ [])
key_share_groups-frames_example =
    key_share_groups-frames ExtensionType.key_share shares (9 ∷ 9 ∷ [])
      ((omega arith, omega arith), ((omega arith, omega arith), tt)) (omega arith)

-- "h2"
alpn-name_frames_example :
    extract_alpn (typed (ExtensionType.unknown 7) (0 ∷ 3 ∷ 2 ∷ 104 ∷ 50 ∷ 77 ∷ []))
    ≡ ok (map from_utf8_lossy ((104 ∷ 50 ∷ []) ∷ []))
alpn-name_frames_example =
    alpn-name_frames (ExtensionType.unknown 7) ((104 ∷ 50 ∷ []) ∷ []) (77 ∷ []) (omega arith)

-- "ab"
extract_sni-host_example :
    extract_sni (typed ExtensionType.server_name (0 ∷ 5 ∷ 0 ∷ 0 ∷ 2 ∷ 97 ∷ 98 ∷ 77 ∷ []))
    ≡ ok (from_utf8 (97 ∷ 98 ∷ []))
extract_sni-host_example =
    extract_sni-host ExtensionType.server_name 5 (97 ∷ 98 ∷ []) (77 ∷ []) (omega arith)

abbrev numbers : List ℕ
numbers = 29 ∷ 4588 ∷ []

extract-u16_list_example :
    (extract_supported_groups (typed (ExtensionType.unknown 7) (0 ∷ 4 ∷ 0 ∷ 29 ∷ 17 ∷ 236 ∷ 1 ∷ []))
      ≡ ok numbers)
    × (extract_signature_algorithms
          (typed (ExtensionType.unknown 7) (0 ∷ 4 ∷ 0 ∷ 29 ∷ 17 ∷ 236 ∷ 1 ∷ []))
        ≡ ok numbers)
    × (extract_signature_algorithms_cert
          (typed (ExtensionType.unknown 7) (0 ∷ 4 ∷ 0 ∷ 29 ∷ 17 ∷ 236 ∷ 1 ∷ []))
        ≡ ok numbers)
    × (extract_supported_versions
          (typed (ExtensionType.unknown 7) (4 ∷ 0 ∷ 29 ∷ 17 ∷ 236 ∷ 1 ∷ []))
          true
        ≡ ok numbers)
extract-u16_list_example =
    extract-u16_list (ExtensionType.unknown 7) numbers (1 ∷ []) (omega arith, (omega arith, tt))
      (omega arith)

from_u16_tls13 : from_u16 772 ≡ TlsVersion.tls13
unfolding from_u16
from_u16_tls13 = refl
