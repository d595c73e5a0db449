-- ===== src/Parser/ClientHello.antt =====
-- crates/tls-probe-parser/src/client_hello.rs. The record and handshake headers in front of the
-- hello, nine bytes, are skipped unread.
pub mod Loops
pub mod RoundTrip
pub mod Safety
use tls_probe.Outcome.{Outcome, ok, err, spin, ◌>>=◌, ◌>>◌, guard, too_short, unexpected_end}
use tls_probe.Parser.Extensions.{
  ExtensionType, Extension, parse_extensions, extract_supported_versions, extract_supported_groups,
  extract_signature_algorithms, extract_signature_algorithms_cert, extract_key_share_groups,
  extract_sni, extract_alpn, has_pre_shared_key, has_psk_key_exchange_modes, has_early_data,
  has_session_ticket,
}
use tls_probe.Parser.Types.{ParsedClientHello}
use tls_probe.Prelude.{
  ℕ, zero, suc, ◌+◌, ◌-◌, min, Bool, true, false, List, [], ◌∷◌, ◌++◌, Option, none, some, ltb, leb,
  length, if◌then◌else◌,
}
use tls_probe.Wire.{Bytes, byte_at, u16_at, slice}

abbrev pub tls_record_hdr_len : ℕ
tls_record_hdr_len = 5

abbrev pub tls_handshake_hdr_len : ℕ
tls_handshake_hdr_len = 4

abbrev pub tls_random_len : ℕ
tls_random_len = 32

abbrev pub hello_start : ℕ
hello_start = tls_record_hdr_len + tls_handshake_hdr_len

-- `while offset + 2 <= cipher_end`
unfoldable pub cipher_loop : ℕ → Bytes → ℕ → ℕ → List ℕ → Outcome (List ℕ)
cipher_loop zero payload offset cipher_end found = spin
cipher_loop (suc fuel) payload offset cipher_end found =
    let body = do
      v ← u16_at payload offset
      cipher_loop fuel payload (offset + 2) cipher_end (found ++ v ∷ [])
    in if leb (offset + 2) cipher_end then body else ok found

-- `while ext_offset + 4 <= offset + parse_len`
unfoldable pub extension_ids_loop : ℕ → Bytes → ℕ → ℕ → List ℕ → Outcome (List ℕ)
extension_ids_loop zero payload ext_offset end found = spin
extension_ids_loop (suc fuel) payload ext_offset end found =
    let body = do
      ext_type ← u16_at payload ext_offset
      ext_data_len ← u16_at payload (ext_offset + 2)
      extension_ids_loop fuel payload (ext_offset + (4 + ext_data_len)) end (found ++ ext_type ∷ [])
    in if leb (ext_offset + 4) end then body else ok found

-- The variables that the `match` over the extensions assigns.
pub record HelloFields : Type 0 where
  pub supported_versions : List ℕ
  pub supported_groups : List ℕ
  pub signature_algorithms : List ℕ
  pub signature_algorithms_cert : List ℕ
  pub key_share_groups : List ℕ
  pub sni : Option Bytes
  pub alpn : List Bytes
  pub psk_offered : Bool
  pub early_data_offered : Bool
  pub psk_key_exchange_modes_offered : Bool
  pub session_ticket_offered : Bool

abbrev pub no_fields : HelloFields
no_fields = record {
  supported_versions = [];
  supported_groups = [];
  signature_algorithms = [];
  signature_algorithms_cert = [];
  key_share_groups = [];
  sni = none;
  alpn = [];
  psk_offered = false;
  early_data_offered = false;
  psk_key_exchange_modes_offered = false;
  session_ticket_offered = false;
}

-- The `match` on the type of one extension.
unfoldable pub apply_typed : ExtensionType → Extension → HelloFields → Outcome HelloFields
apply_typed ExtensionType.supported_versions ext f = do
  vs ← extract_supported_versions ext true
  ok (record f { supported_versions = vs })
apply_typed ExtensionType.supported_groups ext f = do
  gs ← extract_supported_groups ext
  ok (record f { supported_groups = gs })
apply_typed ExtensionType.signature_algorithms ext f = do
  algs ← extract_signature_algorithms ext
  ok (record f { signature_algorithms = algs })
apply_typed ExtensionType.signature_algorithms_cert ext f = do
  algs ← extract_signature_algorithms_cert ext
  ok (record f { signature_algorithms_cert = algs })
apply_typed ExtensionType.key_share ext f = do
  gs ← extract_key_share_groups ext true
  ok (record f { key_share_groups = gs })
apply_typed ExtensionType.server_name ext f = do
  name ← extract_sni ext
  ok (record f { sni = name })
apply_typed ExtensionType.pre_shared_key ext f =
    ok (record f { psk_offered = has_pre_shared_key ext })
apply_typed ExtensionType.early_data ext f =
    ok (record f { early_data_offered = has_early_data ext })
apply_typed ExtensionType.psk_key_exchange_modes ext f =
    ok (record f { psk_key_exchange_modes_offered = has_psk_key_exchange_modes ext })
apply_typed ExtensionType.session_ticket ext f =
    ok (record f { session_ticket_offered = has_session_ticket ext })
apply_typed ExtensionType.application_layer_protocol_negotiation ext f = do
  names ← extract_alpn ext
  ok (record f { alpn = names })
apply_typed (ExtensionType.unknown v) ext f = ok f

-- `for ext in &extensions`
unfoldable pub apply_extensions : List Extension → HelloFields → Outcome HelloFields
unfolding apply_typed
apply_extensions [] f = ok f
apply_extensions (ext ∷ exts) f = apply_typed ext.ext_type ext f >>= apply_extensions exts

-- What is found behind the compression methods.
pub record HelloTail : Type 0 where
  pub extensions : List Extension
  pub extension_ids : List ℕ
  pub fields : HelloFields

abbrev pub no_tail : HelloTail
no_tail = record { extensions = []; extension_ids = []; fields = no_fields }

-- `if parse_len > 0 { … }`
unfoldable pub read_block : Bytes → ℕ → ℕ → Outcome HelloTail
unfolding extension_ids_loop apply_extensions
read_block payload start parse_len = do
  ids ← extension_ids_loop (suc (length payload)) payload start (start + parse_len) []
  bytes ← slice payload start (start + parse_len)
  exts ← parse_extensions bytes
  fields ← apply_extensions exts no_fields
  ok (record { extensions = exts; extension_ids = ids; fields = fields })

unfoldable pub read_tail : Bytes → ℕ → Outcome HelloTail
unfolding read_block
read_tail payload offset =
    let read = do
      ext_len ← u16_at payload offset
      let available = length payload - (offset + 2)
      let parse_len = min available ext_len
      if ltb 0 parse_len then read_block payload (offset + 2) parse_len else ok no_tail
    in if leb (offset + 2) (length payload) then read else ok no_tail

-- The body of `parse_client_hello` behind its first test.
unfoldable pub read_hello : Bytes → Outcome ParsedClientHello
unfolding cipher_loop read_tail
read_hello payload = do
  legacy_version ← u16_at payload hello_start
  random ← slice payload (hello_start + 2) (hello_start + 2 + tls_random_len)
  session_id_len ← byte_at payload (hello_start + 2 + tls_random_len)
  let offset = hello_start + 2 + tls_random_len + 1
  guard (leb (offset + session_id_len) (length payload)) (unexpected_end offset)
  session_id ← slice payload offset (offset + session_id_len)
  let cipher_at = offset + session_id_len
  guard (leb (cipher_at + 2) (length payload)) (unexpected_end cipher_at)
  cipher_len ← u16_at payload cipher_at
  let cipher_start = cipher_at + 2
  guard (leb (cipher_start + cipher_len) (length payload)) (unexpected_end cipher_start)
  let cipher_end = cipher_start + cipher_len
  cipher_suites ← cipher_loop (suc (length payload)) payload cipher_start cipher_end []
  guard (ltb cipher_end (length payload)) (unexpected_end cipher_end)
  comp_len ← byte_at payload cipher_end
  let comp_at = cipher_end + 1
  guard (leb (comp_at + comp_len) (length payload)) (unexpected_end comp_at)
  compression_methods ← slice payload comp_at (comp_at + comp_len)
  tail ← read_tail payload (comp_at + comp_len)
  ok (record {
    legacy_version = legacy_version;
    random = random;
    session_id = session_id;
    cipher_suites = cipher_suites;
    compression_methods = compression_methods;
    extensions = tail.extensions;
    extension_ids = tail.extension_ids;
    supported_versions = tail.fields.supported_versions;
    supported_groups = tail.fields.supported_groups;
    signature_algorithms = tail.fields.signature_algorithms;
    signature_algorithms_cert = tail.fields.signature_algorithms_cert;
    key_share_groups = tail.fields.key_share_groups;
    sni = tail.fields.sni;
    alpn = tail.fields.alpn;
    psk_offered = tail.fields.psk_offered;
    early_data_offered = tail.fields.early_data_offered;
    psk_key_exchange_modes_offered = tail.fields.psk_key_exchange_modes_offered;
    session_ticket_offered = tail.fields.session_ticket_offered;
  })

unfoldable pub parse_client_hello : Bytes → Outcome ParsedClientHello
unfolding read_hello
parse_client_hello payload =
    if ltb (length payload) (hello_start + 2 + tls_random_len + 1)
    then err too_short
    else read_hello payload
