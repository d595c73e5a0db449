-- ===== src/Event/Names.antt =====
-- crates/tls-probe-cli/src/tls.rs: the names of protocol numbers in events. A `match` is the table of
-- its lines.
use Prim.Native.String.{String}
use tls_probe.Common.Codes.{handshake_client_hello, handshake_server_hello}
use tls_probe.Correlate.Names.{name_in}
use tls_probe.Prelude.{ℕ, ◌/◌, ◌%◌, Bool, ◌&&◌, List, [], ◌∷◌, ◌++◌, ◌==◌, if◌then◌else◌}
use tls_probe.Text.{text, decimal}
use tls_probe.Wire.{Bytes}

unfoldable pub tls_version_str : ℕ → String
tls_version_str version = name_in version "Unknown" (
    (0x0304, "TLS 1.3")
    ∷ (0x0303, "TLS 1.2")
    ∷ (0x0302, "TLS 1.1")
    ∷ (0x0301, "TLS 1.0")
    ∷ (0x0300, "SSL 3.0")
    ∷ [])

-- The file's own copy of the test.
unfoldable pub is_grease : ℕ → Bool
is_grease value = let hi = value / 256 % 256 in let lo = value % 256 in hi == lo && hi % 16 == 0x0A

abbrev pub key_exchange_names : List (ℕ × String)
key_exchange_names =
    (0x0017, "secp256r1")
    ∷ (0x0018, "secp384r1")
    ∷ (0x0019, "secp521r1")
    ∷ (0x001D, "x25519")
    ∷ (0x001E, "x448")
    ∷ (0x0100, "ffdhe2048")
    ∷ (0x0101, "ffdhe3072")
    ∷ (0x0102, "ffdhe4096")
    ∷ (0x0103, "ffdhe6144")
    ∷ (0x0104, "ffdhe8192")
    ∷ (0x0200, "MLKEM512")
    ∷ (0x0201, "MLKEM768")
    ∷ (0x0202, "MLKEM1024")
    ∷ (0x11E9, "SecP256r1MLKEM512")
    ∷ (0x11EA, "MLKEM512X25519")
    ∷ (0x11EB, "SecP256r1MLKEM768")
    ∷ (0x11EC, "X25519MLKEM768")
    ∷ (0x11ED, "SecP384r1MLKEM1024")
    ∷ (0x6399, "X25519Kyber768Draft00")
    ∷ (0x639A, "SecP256r1Kyber768Draft00")
    ∷ []

unfoldable pub key_exchange_name : ℕ → String
unfolding is_grease
key_exchange_name id = if is_grease id then "GREASE" else name_in id "unknown" key_exchange_names

abbrev pub cipher_suite_names : List (ℕ × String)
cipher_suite_names =
    (0x1301, "TLS_AES_128_GCM_SHA256")
    ∷ (0x1302, "TLS_AES_256_GCM_SHA384")
    ∷ (0x1303, "TLS_CHACHA20_POLY1305_SHA256")
    ∷ (0x1304, "TLS_AES_128_CCM_SHA256")
    ∷ (0x1305, "TLS_AES_128_CCM_8_SHA256")
    ∷ (0xC02B, "TLS_ECDHE_ECDSA_WITH_AES_128_GCM_SHA256")
    ∷ (0xC02C, "TLS_ECDHE_ECDSA_WITH_AES_256_GCM_SHA384")
    ∷ (0xC02F, "TLS_ECDHE_RSA_WITH_AES_128_GCM_SHA256")
    ∷ (0xC030, "TLS_ECDHE_RSA_WITH_AES_256_GCM_SHA384")
    ∷ (0xC023, "TLS_ECDHE_ECDSA_WITH_AES_128_CBC_SHA256")
    ∷ (0xC024, "TLS_ECDHE_ECDSA_WITH_AES_256_CBC_SHA384")
    ∷ (0xC027, "TLS_ECDHE_RSA_WITH_AES_128_CBC_SHA256")
    ∷ (0xC028, "TLS_ECDHE_RSA_WITH_AES_256_CBC_SHA384")
    ∷ (0xC009, "TLS_ECDHE_ECDSA_WITH_AES_128_CBC_SHA")
    ∷ (0xC00A, "TLS_ECDHE_ECDSA_WITH_AES_256_CBC_SHA")
    ∷ (0xC013, "TLS_ECDHE_RSA_WITH_AES_128_CBC_SHA")
    ∷ (0xC014, "TLS_ECDHE_RSA_WITH_AES_256_CBC_SHA")
    ∷ (0xCCA8, "TLS_ECDHE_RSA_WITH_CHACHA20_POLY1305_SHA256")
    ∷ (0xCCA9, "TLS_ECDHE_ECDSA_WITH_CHACHA20_POLY1305_SHA256")
    ∷ (0xC008, "TLS_ECDHE_ECDSA_WITH_3DES_EDE_CBC_SHA")
    ∷ (0xC012, "TLS_ECDHE_RSA_WITH_3DES_EDE_CBC_SHA")
    ∷ (0xC007, "TLS_ECDHE_ECDSA_WITH_RC4_128_SHA")
    ∷ (0xC011, "TLS_ECDHE_RSA_WITH_RC4_128_SHA")
    ∷ (0x009E, "TLS_DHE_RSA_WITH_AES_128_GCM_SHA256")
    ∷ (0x009F, "TLS_DHE_RSA_WITH_AES_256_GCM_SHA384")
    ∷ (0x0067, "TLS_DHE_RSA_WITH_AES_128_CBC_SHA256")
    ∷ (0x006B, "TLS_DHE_RSA_WITH_AES_256_CBC_SHA256")
    ∷ (0x0033, "TLS_DHE_RSA_WITH_AES_128_CBC_SHA")
    ∷ (0x0039, "TLS_DHE_RSA_WITH_AES_256_CBC_SHA")
    ∷ (0xCCAA, "TLS_DHE_RSA_WITH_CHACHA20_POLY1305_SHA256")
    ∷ (0x00A2, "TLS_DHE_DSS_WITH_AES_128_GCM_SHA256")
    ∷ (0x00A3, "TLS_DHE_DSS_WITH_AES_256_GCM_SHA384")
    ∷ (0x0040, "TLS_DHE_DSS_WITH_AES_128_CBC_SHA256")
    ∷ (0x006A, "TLS_DHE_DSS_WITH_AES_256_CBC_SHA256")
    ∷ (0x0032, "TLS_DHE_DSS_WITH_AES_128_CBC_SHA")
    ∷ (0x0038, "TLS_DHE_DSS_WITH_AES_256_CBC_SHA")
    ∷ (0x009C, "TLS_RSA_WITH_AES_128_GCM_SHA256")
    ∷ (0x009D, "TLS_RSA_WITH_AES_256_GCM_SHA384")
    ∷ (0x002F, "TLS_RSA_WITH_AES_128_CBC_SHA")
    ∷ (0x0035, "TLS_RSA_WITH_AES_256_CBC_SHA")
    ∷ (0x003C, "TLS_RSA_WITH_AES_128_CBC_SHA256")
    ∷ (0x003D, "TLS_RSA_WITH_AES_256_CBC_SHA256")
    ∷ (0x000A, "TLS_RSA_WITH_3DES_EDE_CBC_SHA")
    ∷ (0x0005, "TLS_RSA_WITH_RC4_128_SHA")
    ∷ (0x0004, "TLS_RSA_WITH_RC4_128_MD5")
    ∷ (0x00FF, "TLS_EMPTY_RENEGOTIATION_INFO_SCSV")
    ∷ (0x5600, "TLS_FALLBACK_SCSV")
    ∷ []

unfoldable pub cipher_suite_name : ℕ → String
unfolding is_grease
cipher_suite_name id = if is_grease id then "GREASE" else name_in id "unknown" cipher_suite_names

abbrev pub signature_algorithm_names : List (ℕ × String)
signature_algorithm_names =
    (0x0201, "rsa_pkcs1_sha1")
    ∷ (0x0202, "dsa_sha1")
    ∷ (0x0203, "ecdsa_sha1")
    ∷ (0x0301, "rsa_pkcs1_sha224")
    ∷ (0x0302, "dsa_sha224")
    ∷ (0x0303, "ecdsa_sha224")
    ∷ (0x0401, "rsa_pkcs1_sha256")
    ∷ (0x0402, "dsa_sha256")
    ∷ (0x0403, "ecdsa_secp256r1_sha256")
    ∷ (0x0501, "rsa_pkcs1_sha384")
    ∷ (0x0502, "dsa_sha384")
    ∷ (0x0503, "ecdsa_secp384r1_sha384")
    ∷ (0x0601, "rsa_pkcs1_sha512")
    ∷ (0x0602, "dsa_sha512")
    ∷ (0x0603, "ecdsa_secp521r1_sha512")
    ∷ (0x0804, "rsa_pss_rsae_sha256")
    ∷ (0x0805, "rsa_pss_rsae_sha384")
    ∷ (0x0806, "rsa_pss_rsae_sha512")
    ∷ (0x0807, "ed25519")
    ∷ (0x0808, "ed448")
    ∷ (0x0809, "rsa_pss_pss_sha256")
    ∷ (0x080A, "rsa_pss_pss_sha384")
    ∷ (0x080B, "rsa_pss_pss_sha512")
    ∷ (0x081A, "ecdsa_brainpoolP256r1tls13_sha256")
    ∷ (0x081B, "ecdsa_brainpoolP384r1tls13_sha384")
    ∷ (0x081C, "ecdsa_brainpoolP512r1tls13_sha512")
    ∷ (0x0904, "mldsa44")
    ∷ (0x0905, "mldsa65")
    ∷ (0x0906, "mldsa87")
    ∷ []

unfoldable pub signature_algorithm_name : ℕ → String
unfolding is_grease
signature_algorithm_name id =
    if is_grease id then "GREASE" else name_in id "unknown" signature_algorithm_names

-- `format!("unknown({})", n)`
abbrev pub unknown : ℕ → Bytes
unknown n = text "unknown(" ++ (decimal n ++ (41 ∷ []))

unfoldable pub alert_level_name : ℕ → Bytes
alert_level_name level =
    if level == 1 then text "warning" else if level == 2 then text "fatal" else unknown level

abbrev pub alert_names : List (ℕ × String)
alert_names =
    (0, "close_notify(0)")
    ∷ (10, "unexpected_message(10)")
    ∷ (20, "bad_record_mac(20)")
    ∷ (22, "record_overflow(22)")
    ∷ (40, "handshake_failure(40)")
    ∷ (42, "bad_certificate(42)")
    ∷ (43, "unsupported_certificate(43)")
    ∷ (44, "certificate_revoked(44)")
    ∷ (45, "certificate_expired(45)")
    ∷ (46, "certificate_unknown(46)")
    ∷ (47, "illegal_parameter(47)")
    ∷ (48, "unknown_ca(48)")
    ∷ (49, "access_denied(49)")
    ∷ (50, "decode_error(50)")
    ∷ (51, "decrypt_error(51)")
    ∷ (70, "protocol_version(70)")
    ∷ (71, "insufficient_security(71)")
    ∷ (80, "internal_error(80)")
    ∷ (86, "inappropriate_fallback(86)")
    ∷ (90, "user_canceled(90)")
    ∷ (109, "missing_extension(109)")
    ∷ (110, "unsupported_extension(110)")
    ∷ (112, "unrecognized_name(112)")
    ∷ (113, "bad_certificate_status_response(113)")
    ∷ (115, "unknown_psk_identity(115)")
    ∷ (116, "certificate_required(116)")
    ∷ (120, "no_application_protocol(120)")
    ∷ []

abbrev pub text_in : ℕ → List (ℕ × String) → Bytes
text_in id [] = unknown id
text_in id ((code, name) ∷ table) =
    let rest = text_in id table in if id == code then text name else rest

unfoldable pub alert_description_name : ℕ → Bytes
alert_description_name description = text_in description alert_names

unfoldable pub handshake_type_name : ℕ → String
handshake_type_name ht =
    if ht == handshake_client_hello
    then "ClientHello"
    else if ht == handshake_server_hello
    then "ServerHello"
    else name_in ht "Unknown" (
        (0x04, "NewSessionTicket")
        ∷ (0x08, "EncryptedExtensions")
        ∷ (0x0B, "Certificate")
        ∷ (0x0D, "CertificateRequest")
        ∷ (0x0F, "CertificateVerify")
        ∷ (0x14, "Finished")
        ∷ [])
