-- ===== src/Parser/Types.antt =====
-- crates/tls-probe-parser/src/types.rs: versions, and what is parsed of the two hellos.
use tls_probe.Parser.Extensions.{Extension}
use tls_probe.Prelude.{ℕ, ◌≡◌, Bool, List, Option, arith, ◌==◌, if◌then◌else◌}
use tls_probe.Wire.{Bytes}

pub data TlsVersion : Type 0 where
  ssl30 tls10 tls11 tls12 tls13 : TlsVersion
  unknown : ℕ → TlsVersion

unfoldable pub from_u16 : ℕ → TlsVersion
from_u16 v =
    if v == 0x0300
    then ssl30
    else if v == 0x0301
    then tls10
    else if v == 0x0302
    then tls11
    else if v == 0x0303
    then tls12
    else if v == 0x0304
    then tls13
    else unknown v

unfoldable pub to_u16 : TlsVersion → ℕ
to_u16 ssl30 = 0x0300
to_u16 tls10 = 0x0301
to_u16 tls11 = 0x0302
to_u16 tls12 = 0x0303
to_u16 tls13 = 0x0304
to_u16 (unknown v) = v

-- Every number comes back from its version.
pub to_u16-from_u16 : (v : ℕ) → to_u16 (from_u16 v) ≡ v
unfolding to_u16 from_u16
to_u16-from_u16 v = ground arith

pub record ParsedClientHello : Type 0 where
  pub legacy_version : ℕ
  pub random : Bytes
  pub session_id : Bytes
  pub cipher_suites : List ℕ
  pub compression_methods : Bytes
  pub extensions : List Extension
  pub extension_ids : List ℕ
  pub supported_versions : List ℕ
  pub supported_groups : List ℕ
  pub signature_algorithms : List ℕ
  pub signature_algorithms_cert : List ℕ
  pub key_share_groups : List ℕ
  pub sni : Option Bytes
  pub alpn : List Bytes
  pub psk_offered : Bool
  pub early_data_offered : Bool
  pub psk_key_exchange_modes_offered : Bool
  pub session_ticket_offered : Bool

pub record ParsedServerHello : Type 0 where
  pub legacy_version : ℕ
  pub random : Bytes
  pub session_id : Bytes
  pub cipher_suite : ℕ
  pub compression_method : ℕ
  pub extensions : List Extension
  pub negotiated_version : Option ℕ
  pub key_share_group : Option ℕ
  pub psk_selected : Bool
