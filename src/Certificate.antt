-- ===== src/Certificate.antt =====
-- crates/tls-probe-cli/src/certificate.rs: the leaf certificate of a Certificate message. X.509 is
-- parsed by a library, `parse_x509_certificate`; what the code asks of a certificate that it has
-- parsed are the fields of `X509Certificate`. Times are seconds since 1970.
pub mod Framing
mod Tests
use Prim.Native.String.{String}
use mathlib.Core.Option.{get_or}
use tls_probe.Outcome.{Outcome, ok, ◌>>=◌}
use tls_probe.Prelude.{
  ℕ, ◌+◌, ◌*◌, ◌%◌, ◌^◌, Bool, true, false, ◌&&◌, ◌||◌, List, [], ◌∷◌, Option, none, some, ltb,
  length, if◌then◌else◌,
}
use tls_probe.Text.{text, same_text}
use tls_probe.Wire.{Bytes, byte_at, slice}

pub record Certificate : Type 0 where
  pub not_before : Bytes
  pub not_after : Bytes
  pub expired : Bool
  pub public_key_algorithm : String
  pub public_key_bits : ℕ
  pub signature_algorithm : String
  pub self_signed : Bool
  pub subject_cn : Option Bytes
  pub issuer_cn : Option Bytes
  pub san_count : ℕ

-- An object identifier by its arcs.
abbrev pub Oid : Type 0
Oid = List ℕ

-- A common name is `none` where it is no text, the size of a key where it is not parsed, and an
-- extension where it is another than the alternative names, of which it has so many.
pub record X509Certificate : Type 0 where
  pub not_before : ℕ
  pub not_after : ℕ
  pub public_key_oid : Oid
  pub key_size : Option ℕ
  pub signature_oid : Oid
  pub subject : List (Option Bytes)
  pub issuer : List (Option Bytes)
  pub same_names : Bool
  pub extensions : List (Option ℕ)

-- The libraries, and the clock.
pub record Libraries : Type 0 where
  pub parse_x509_certificate : Bytes → Option X509Certificate
  pub from_timestamp : ℕ → Option Bytes
  pub now : ℕ

-- `BY_OID.iter().find(..)` and `as_str`
abbrev pub name_of_oid : Oid → List (Oid × String) → String
name_of_oid oid [] = "unknown"
name_of_oid oid ((known, name) ∷ by_oid) =
    let rest = name_of_oid oid by_oid in if same_text known oid then name else rest

abbrev pub public_key_names : List (Oid × String)
public_key_names =
    (1 ∷ 2 ∷ 840 ∷ 113549 ∷ 1 ∷ 1 ∷ 1 ∷ [], "rsa")
    ∷ (1 ∷ 2 ∷ 840 ∷ 10045 ∷ 2 ∷ 1 ∷ [], "ec")
    ∷ (1 ∷ 2 ∷ 840 ∷ 10040 ∷ 4 ∷ 1 ∷ [], "dsa")
    ∷ []

abbrev pub signature_names : List (Oid × String)
signature_names =
    (1 ∷ 2 ∷ 840 ∷ 113549 ∷ 1 ∷ 1 ∷ 5 ∷ [], "sha1WithRSAEncryption")
    ∷ (1 ∷ 2 ∷ 840 ∷ 113549 ∷ 1 ∷ 1 ∷ 11 ∷ [], "sha256WithRSAEncryption")
    ∷ (1 ∷ 2 ∷ 840 ∷ 113549 ∷ 1 ∷ 1 ∷ 12 ∷ [], "sha384WithRSAEncryption")
    ∷ (1 ∷ 2 ∷ 840 ∷ 113549 ∷ 1 ∷ 1 ∷ 13 ∷ [], "sha512WithRSAEncryption")
    ∷ (1 ∷ 2 ∷ 840 ∷ 10045 ∷ 4 ∷ 3 ∷ 2 ∷ [], "sha256WithECDSA")
    ∷ (1 ∷ 2 ∷ 840 ∷ 10045 ∷ 4 ∷ 3 ∷ 3 ∷ [], "sha384WithECDSA")
    ∷ (1 ∷ 2 ∷ 840 ∷ 10045 ∷ 4 ∷ 3 ∷ 4 ∷ [], "sha512WithECDSA")
    ∷ []

unfoldable pub asn1_time_to_rfc3339 : Libraries → ℕ → Bytes
asn1_time_to_rfc3339 l time = get_or (l.from_timestamp time) (text "1970-01-01T00:00:00Z")

unfoldable pub is_certificate_expired : Libraries → ℕ → Bool
is_certificate_expired l not_after = ltb not_after l.now

-- `key_size() as u16`
abbrev bits_of : Option ℕ → ℕ
bits_of none = 0
bits_of (some size) = size % 2 ^ 16

unfoldable pub extract_public_key_info : X509Certificate → String × ℕ
extract_public_key_info cert =
    (name_of_oid cert.public_key_oid public_key_names, bits_of cert.key_size)

unfoldable pub extract_signature_algorithm_name : X509Certificate → String
extract_signature_algorithm_name cert = name_of_oid cert.signature_oid signature_names

-- The first common name that is text.
unfoldable pub extract_cn : List (Option Bytes) → Option Bytes
extract_cn [] = none
extract_cn (some name ∷ names) = some name
extract_cn (none ∷ names) = extract_cn names

unfoldable pub count_san_entries : List (Option ℕ) → ℕ
count_san_entries [] = 0
count_san_entries (some names ∷ extensions) = names % 2 ^ 16
count_san_entries (none ∷ extensions) = count_san_entries extensions

unfoldable pub certificate_of : Libraries → X509Certificate → Certificate
unfolding asn1_time_to_rfc3339 is_certificate_expired extract_public_key_info
    extract_signature_algorithm_name extract_cn count_san_entries
certificate_of l cert = record {
  not_before = asn1_time_to_rfc3339 l cert.not_before;
  not_after = asn1_time_to_rfc3339 l cert.not_after;
  expired = is_certificate_expired l cert.not_after;
  public_key_algorithm = (extract_public_key_info cert).0;
  public_key_bits = (extract_public_key_info cert).1;
  signature_algorithm = extract_signature_algorithm_name cert;
  self_signed = cert.same_names;
  subject_cn = extract_cn cert.subject;
  issuer_cn = extract_cn cert.issuer;
  san_count = count_san_entries cert.extensions;
}

abbrev parsed_certificate : Libraries → Option X509Certificate → Option Certificate
parsed_certificate l none = none
parsed_certificate l (some cert) = some (certificate_of l cert)

unfoldable pub parse_der_certificate : Libraries → Bytes → Option Certificate
unfolding certificate_of
parse_der_certificate l der_bytes = parsed_certificate l (l.parse_x509_certificate der_bytes)

-- `u24_from_be` of three bytes from an offset on.
unfoldable pub u24_at : Bytes → ℕ → Outcome ℕ
u24_at bytes i = do
  a ← byte_at bytes i
  b ← byte_at bytes (i + 1)
  c ← byte_at bytes (i + 2)
  ok (a * 65536 + b * 256 + c)

-- The first certificate of a length.
unfoldable pub first_cert : Libraries → Bytes → ℕ → Outcome (Option Certificate)
unfolding parse_der_certificate
first_cert l payload first_cert_len =
    let whole = do
      der_bytes ← slice payload 6 (6 + first_cert_len)
      ok (parse_der_certificate l der_bytes)
    in if ltb (length payload) (6 + first_cert_len) then ok none else whole

-- A list of certificates of a length.
unfoldable pub cert_list : Libraries → Bytes → ℕ → Outcome (Option Certificate)
unfolding u24_at first_cert
cert_list l payload cert_list_len =
    let leaf = do first_cert_len ← u24_at payload 3; first_cert l payload first_cert_len
    in if ltb (length payload) 6 || ltb cert_list_len 3 then ok none else leaf

unfoldable pub parse_certificate : Libraries → Bytes → Outcome (Option Certificate)
unfolding u24_at cert_list
parse_certificate l payload =
    let read = do cert_list_len ← u24_at payload 0; cert_list l payload cert_list_len
    in if ltb (length payload) 3 then ok none else read
