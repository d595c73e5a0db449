-- ===== src/Parser/Extensions.antt =====
-- crates/tls-probe-parser/src/extensions.rs: the list of extensions of a hello, and what each kind
-- of extension holds. A `while` loop takes fuel, one round more than there are bytes.
pub mod Framing
pub mod Names
pub mod Numbers
pub mod Sni
use tls_probe.Outcome.{Outcome, ok, spin, ◌>>=◌}
use tls_probe.Prelude.{
  ℕ, zero, suc, ◌+◌, Bool, true, false, not, ◌&&◌, List, [], ◌∷◌, ◌++◌, Option, none, some, ltb,
  leb, ◌==◌, length, if◌then◌else◌,
}
use tls_probe.Utf8.{from_utf8, from_utf8_lossy}
use tls_probe.Wire.{Bytes, byte_at, u16_at, slice}

pub data ExtensionType : Type 0 where
  server_name : ExtensionType
  application_layer_protocol_negotiation : ExtensionType
  supported_groups : ExtensionType
  signature_algorithms : ExtensionType
  supported_versions : ExtensionType
  key_share : ExtensionType
  signature_algorithms_cert : ExtensionType
  session_ticket : ExtensionType
  early_data : ExtensionType
  psk_key_exchange_modes : ExtensionType
  pre_shared_key : ExtensionType
  unknown : ℕ → ExtensionType

unfoldable pub from_u16 : ℕ → ExtensionType
from_u16 v =
    if v == 0x0000
    then server_name
    else if v == 0x0010
    then application_layer_protocol_negotiation
    else if v == 0x000A
    then supported_groups
    else if v == 0x000D
    then signature_algorithms
    else if v == 0x0023
    then session_ticket
    else if v == 0x002A
    then early_data
    else if v == 0x002B
    then supported_versions
    else if v == 0x002D
    then psk_key_exchange_modes
    else if v == 0x0029
    then pre_shared_key
    else if v == 0x0032
    then signature_algorithms_cert
    else if v == 0x0033
    then key_share
    else unknown v

pub record Extension : Type 0 where
  pub ext_type : ExtensionType
  pub content : Bytes

-- The loop of `parse_extensions`; `break` leaves it with what has been found.
unfoldable pub extensions_loop : ℕ → Bytes → ℕ → List Extension → Outcome (List Extension)
extensions_loop zero d offset found = spin
extensions_loop (suc fuel) d offset found =
    let body = do
      ext_type ← u16_at d offset
      ext_len ← u16_at d (offset + 2)
      let rest = do
        content ← slice d (offset + 4) (offset + 4 + ext_len)
        let ext : Extension = record { ext_type = from_u16 ext_type; content = content }
        extensions_loop fuel d (offset + 4 + ext_len) (found ++ ext ∷ [])
      if ltb (length d) (offset + 4 + ext_len) then ok found else rest
    in if leb (offset + 4) (length d) then body else ok found

unfoldable pub parse_extensions : Bytes → Outcome (List Extension)
unfolding extensions_loop
parse_extensions d = extensions_loop (suc (length d)) d 0 []

-- `while offset + 2 <= data.len() && offset < limit`, pushing a u16 in each round.
unfoldable pub u16_loop : ℕ → Bytes → ℕ → ℕ → List ℕ → Outcome (List ℕ)
u16_loop zero d offset limit found = spin
u16_loop (suc fuel) d offset limit found =
    let body = do v ← u16_at d offset; u16_loop fuel d (offset + 2) limit (found ++ v ∷ [])
    in if leb (offset + 2) (length d) && ltb offset limit then body else ok found

unfoldable pub extract_supported_versions : Extension → Bool → Outcome (List ℕ)
unfolding u16_loop
extract_supported_versions ext true =
    let d = ext.content in
    let read = (do list_len ← byte_at d 0; u16_loop (suc (length d)) d 1 (1 + list_len) []) in
    if length d == 0 then ok [] else read
extract_supported_versions ext false =
    let d = ext.content in
    let read = (do v ← u16_at d 0; ok (v ∷ [])) in if leb 2 (length d) then read else ok []

unfoldable pub extract_supported_groups : Extension → Outcome (List ℕ)
unfolding u16_loop
extract_supported_groups ext =
    let d = ext.content in
    let read = (do list_len ← u16_at d 0; u16_loop (suc (length d)) d 2 (2 + list_len) []) in
    if ltb (length d) 2 then ok [] else read

unfoldable pub extract_signature_algorithms : Extension → Outcome (List ℕ)
unfolding u16_loop
extract_signature_algorithms ext =
    let d = ext.content in
    let read = (do list_len ← u16_at d 0; u16_loop (suc (length d)) d 2 (2 + list_len) []) in
    if ltb (length d) 2 then ok [] else read

unfoldable pub extract_signature_algorithms_cert : Extension → Outcome (List ℕ)
unfolding u16_loop
extract_signature_algorithms_cert ext =
    let d = ext.content in
    let read = (do list_len ← u16_at d 0; u16_loop (suc (length d)) d 2 (2 + list_len) []) in
    if ltb (length d) 2 then ok [] else read

-- The loop of `extract_key_share_groups`: a group, a length, and a key that is skipped.
unfoldable pub key_share_loop : ℕ → Bytes → ℕ → ℕ → List ℕ → Outcome (List ℕ)
key_share_loop zero d offset limit found = spin
key_share_loop (suc fuel) d offset limit found =
    let body = do
      group ← u16_at d offset
      key_len ← u16_at d (offset + 2)
      key_share_loop fuel d (offset + (4 + key_len)) limit (found ++ group ∷ [])
    in if leb (offset + 4) (length d) && ltb offset limit then body else ok found

unfoldable pub extract_key_share_groups : Extension → Bool → Outcome (List ℕ)
unfolding key_share_loop
extract_key_share_groups ext true =
    let d = ext.content in
    let read = (do list_len ← u16_at d 0; key_share_loop (suc (length d)) d 2 (2 + list_len) []) in
    if ltb (length d) 2 then ok [] else read
extract_key_share_groups ext false =
    let d = ext.content in
    let read = (do v ← u16_at d 0; ok (v ∷ [])) in if leb 2 (length d) then read else ok []

unfoldable pub extract_sni : Extension → Outcome (Option Bytes)
extract_sni ext =
    let d = ext.content in
    let name = do
      name_len ← u16_at d 3
      let text = do bytes ← slice d 5 (5 + name_len); ok (from_utf8 bytes)
      if ltb (length d) (5 + name_len) then ok none else text
    in let read = do
      list_len ← u16_at d 0
      name_type ← byte_at d 2
      if not (name_type == 0) then ok none else name
      in if ltb (length d) 5 then ok none else read

unfoldable pub has_pre_shared_key : Extension → Bool
has_pre_shared_key ext = elim ext.ext_type [ pre_shared_key ↦ true | _ ↦ false ]

unfoldable pub has_psk_key_exchange_modes : Extension → Bool
has_psk_key_exchange_modes ext = elim ext.ext_type [ psk_key_exchange_modes ↦ true | _ ↦ false ]

unfoldable pub has_early_data : Extension → Bool
has_early_data ext = elim ext.ext_type [ early_data ↦ true | _ ↦ false ]

unfoldable pub has_session_ticket : Extension → Bool
has_session_ticket ext = elim ext.ext_type [ session_ticket ↦ true | _ ↦ false ]

unfoldable pub is_psk_selected : Extension → Bool
unfolding has_pre_shared_key
is_psk_selected ext = has_pre_shared_key ext && not (length ext.content == 0)

-- The loop of `extract_alpn`: a length byte and a protocol name. The test at the head of the body
-- repeats the loop's.
unfoldable pub alpn_loop : ℕ → Bytes → ℕ → ℕ → List Bytes → Outcome (List Bytes)
alpn_loop zero d offset limit found = spin
alpn_loop (suc fuel) d offset limit found =
    let body = do
      proto_len ← byte_at d offset
      let rest = do
        proto ← slice d (offset + 1) (offset + 1 + proto_len)
        alpn_loop fuel d (offset + 1 + proto_len) limit (found ++ from_utf8_lossy proto ∷ [])
      if ltb (length d) (offset + 1 + proto_len) then ok found else rest
    in let round = if leb (length d) offset then ok found else body in
      if ltb offset (length d) && ltb offset limit then round else ok found

unfoldable pub extract_alpn : Extension → Outcome (List Bytes)
unfolding alpn_loop
extract_alpn ext =
    let d = ext.content in
    let read = (do list_len ← u16_at d 0; alpn_loop (suc (length d)) d 2 (2 + list_len) []) in
    if ltb (length d) 2 then ok [] else read
