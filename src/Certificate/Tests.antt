-- ===== src/Certificate/Tests.antt =====
-- crates/tls-probe-cli/src/certificate.rs with a library that finds one certificate.
use tls_probe.Certificate.{Libraries, X509Certificate, parse_der_certificate, parse_certificate}
use tls_probe.Certificate.Framing.{
  certificate_list, certificate_record, parse_certificate-certificate_list,
  parse_certificate-certificate_record,
}
use tls_probe.Outcome.{ok}
use tls_probe.Prelude.{◌≡◌, true, [], ◌∷◌, arith, none, some, drop, ltb, if◌then◌else◌}
use tls_probe.Text.{text, same_text}

abbrev found : X509Certificate
found = record {
  not_before = 5;
  not_after = 9;
  public_key_oid = 1 ∷ 2 ∷ 840 ∷ 10045 ∷ 2 ∷ 1 ∷ [];
  key_size = some 256;
  signature_oid = 1 ∷ [];
  subject = none ∷ some (text "a") ∷ [];
  issuer = [];
  same_names = true;
  extensions = none ∷ some 2 ∷ [];
}

abbrev libraries : Libraries
libraries = record {
  parse_x509_certificate = λ der. if same_text der (7 ∷ 8 ∷ []) then some found else none;
  from_timestamp = λ t. some (48 ∷ []);
  now = 10;
}

parse_certificate-certificate_list_example :
    parse_certificate libraries (certificate_list 5 (7 ∷ 8 ∷ []) [])
    ≡ (if ltb 5 3 then ok none else ok (parse_der_certificate libraries (7 ∷ 8 ∷ [])))
parse_certificate-certificate_list_example =
    parse_certificate-certificate_list libraries 5 (7 ∷ 8 ∷ []) []

parse_certificate-certificate_record_example :
    parse_certificate libraries
      (drop 4 (certificate_record 3 3 (certificate_list 5 (7 ∷ 8 ∷ []) [])))
    ≡ ok none
parse_certificate-certificate_record_example =
    parse_certificate-certificate_record libraries 3 3 (certificate_list 5 (7 ∷ 8 ∷ []) [])
      (omega arith)
