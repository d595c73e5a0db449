-- ===== src/Parser/ServerHello.antt =====
-- crates/tls-probe-parser/src/server_hello.rs.
pub mod RoundTrip
pub mod Safety
use tls_probe.Outcome.{Outcome, ok, err, ◌>>=◌, ◌>>◌, guard, too_short, unexpected_end}
use tls_probe.Parser.ClientHello.{hello_start, tls_random_len}
use tls_probe.Parser.Extensions.{
  ExtensionType, Extension, parse_extensions, extract_supported_versions, extract_key_share_groups,
  is_psk_selected,
}
use tls_probe.Parser.Types.{ParsedServerHello}
use tls_probe.Prelude.{
  ℕ, ◌+◌, ◌-◌, min, Bool, true, false, List, [], ◌∷◌, Option, none, some, head?, ltb, leb, length,
  if◌then◌else◌,
}
use tls_probe.Wire.{Bytes, byte_at, u16_at, slice}

-- The variables that the `match` over the extensions assigns.
pub record ServerFields : Type 0 where
  pub negotiated_version : Option ℕ
  pub key_share_group : Option ℕ
  pub psk_selected : Bool

abbrev pub no_server_fields : ServerFields
no_server_fields = record {
  negotiated_version = none;
  key_share_group = none;
  psk_selected = false;
}

unfoldable pub apply_server_typed : ExtensionType → Extension → ServerFields → Outcome ServerFields
apply_server_typed ExtensionType.supported_versions ext f = do
  versions ← extract_supported_versions ext false
  ok (record f { negotiated_version = head? versions })
apply_server_typed ExtensionType.key_share ext f = do
  groups ← extract_key_share_groups ext false
  ok (record f { key_share_group = head? groups })
apply_server_typed ExtensionType.pre_shared_key ext f =
    ok (record f { psk_selected = is_psk_selected ext })
apply_server_typed _ ext f = ok f

-- `for ext in &extensions`
unfoldable pub apply_server_extensions : List Extension → ServerFields → Outcome ServerFields
unfolding apply_server_typed
apply_server_extensions [] f = ok f
apply_server_extensions (ext ∷ exts) f =
    apply_server_typed ext.ext_type ext f >>= apply_server_extensions exts

pub record ServerTail : Type 0 where
  pub extensions : List Extension
  pub fields : ServerFields

abbrev pub no_server_tail : ServerTail
no_server_tail = record { extensions = []; fields = no_server_fields }

-- `if parse_len > 0 { … }`
unfoldable pub read_server_block : Bytes → ℕ → ℕ → Outcome ServerTail
unfolding apply_server_extensions
read_server_block payload start parse_len = do
  bytes ← slice payload start (start + parse_len)
  exts ← parse_extensions bytes
  fields ← apply_server_extensions exts no_server_fields
  ok (record { extensions = exts; fields = fields })

unfoldable pub read_server_tail : Bytes → ℕ → Outcome ServerTail
unfolding read_server_block
read_server_tail payload offset =
    let read = do
      ext_len ← u16_at payload offset
      let available = length payload - (offset + 2)
      let parse_len = min available ext_len
      if ltb 0 parse_len
          then read_server_block payload (offset + 2) parse_len
          else ok no_server_tail
    in if leb (offset + 2) (length payload) then read else ok no_server_tail

-- The body of `parse_server_hello` behind its first test.
unfoldable pub read_server_hello : Bytes → Outcome ParsedServerHello
unfolding read_server_tail
read_server_hello payload = do
  legacy_version ← u16_at payload hello_start
  random ← slice payload (hello_start + 2) (hello_start + 2 + tls_random_len)
  session_id_len ← byte_at payload (hello_start + 2 + tls_random_len)
  let offset = hello_start + 2 + tls_random_len + 1
  guard (leb (offset + session_id_len) (length payload)) (unexpected_end offset)
  session_id ← slice payload offset (offset + session_id_len)
  let suite_at = offset + session_id_len
  guard (leb (suite_at + 2) (length payload)) (unexpected_end suite_at)
  cipher_suite ← u16_at payload suite_at
  guard (ltb (suite_at + 2) (length payload)) (unexpected_end (suite_at + 2))
  compression_method ← byte_at payload (suite_at + 2)
  tail ← read_server_tail payload (suite_at + 2 + 1)
  ok (record {
    legacy_version = legacy_version;
    random = random;
    session_id = session_id;
    cipher_suite = cipher_suite;
    compression_method = compression_method;
    extensions = tail.extensions;
    negotiated_version = tail.fields.negotiated_version;
    key_share_group = tail.fields.key_share_group;
    psk_selected = tail.fields.psk_selected;
  })

unfoldable pub parse_server_hello : Bytes → Outcome ParsedServerHello
unfolding read_server_hello
parse_server_hello payload =
    if ltb (length payload) (hello_start + 2 + tls_random_len + 1)
    then err too_short
    else read_server_hello payload
