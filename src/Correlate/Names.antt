-- ===== src/Correlate/Names.antt =====
-- crates/tls-probe-cli/src/correlate.rs: the names of versions and groups.
use Prim.Native.String.{String}
use tls_probe.Common.Codes.{is_grease}
use tls_probe.Prelude.{ℕ, List, [], ◌∷◌, ◌==◌, if◌then◌else◌}

unfoldable pub tls_version_name : ℕ → String
tls_version_name version =
    if version == 0x0304
    then "TLS 1.3"
    else if version == 0x0303
    then "TLS 1.2"
    else if version == 0x0302
    then "TLS 1.1"
    else if version == 0x0301
    then "TLS 1.0"
    else if version == 0x0300
    then "SSL 3.0"
    else "Unknown"

-- A `match` on the values of a table, from its first line on.
abbrev pub name_in : ℕ → String → List (ℕ × String) → String
name_in id other [] = other
name_in id other ((code, name) ∷ table) =
    let rest = name_in id other table in if id == code then name else rest

abbrev pub key_exchange_names : List (ℕ × String)
key_exchange_names =
    (0x0017, "secp256r1")
    ∷ (0x0018, "secp384r1")
    ∷ (0x0019, "secp521r1")
    ∷ (0x001D, "x25519")
    ∷ (0x001E, "x448")
    ∷ (0x0100, "ffdhe2048")
    ∷ (0x0101, "ffdhe3072")
    ∷ (0x0102, "ffdhe4096")
    ∷ (0x0103, "ffdhe6144")
    ∷ (0x0104, "ffdhe8192")
    ∷ (0x0200, "MLKEM512")
    ∷ (0x0201, "MLKEM768")
    ∷ (0x0202, "MLKEM1024")
    ∷ (0x11E9, "SecP256r1MLKEM512")
    ∷ (0x11EA, "MLKEM512X25519")
    ∷ (0x11EB, "SecP256r1MLKEM768")
    ∷ (0x11EC, "X25519MLKEM768")
    ∷ (0x11ED, "SecP384r1MLKEM1024")
    ∷ (0x6399, "X25519Kyber768Draft00")
    ∷ (0x639A, "SecP256r1Kyber768Draft00")
    ∷ []

unfoldable pub key_exchange_name : ℕ → String
key_exchange_name id = if is_grease id then "GREASE" else name_in id "unknown" key_exchange_names
