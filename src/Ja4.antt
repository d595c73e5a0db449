-- ===== src/Ja4.antt =====
-- crates/tls-probe-cli/src/ja4.rs: the JA4 fingerprint of a client hello. SHA-256 is a function that
-- the definitions take; the file's own copy of `is_grease` is that of the common crate. Names are the
-- bytes of their text: its first or last character is alphanumeric in ASCII where that byte is.
pub mod Invariance
pub mod Shape
pub mod Sort
mod Tests
pub mod Text
use mathlib.Core.Option.{get_or}
use tls_probe.Common.Codes.{is_grease, without_grease}
use tls_probe.Ja4.Sort.{sort, max_of}
use tls_probe.Ja4.Text.{hex_bytes, two_digits, joined}
use tls_probe.Parser.Types.{ParsedClientHello}
use tls_probe.Prelude.{
  ℕ, Bool, true, false, not, ◌&&◌, ◌||◌, List, [], ◌∷◌, ◌++◌, Option, none, some, is_some, leb,
  ◌==◌, length, take, min, if◌then◌else◌,
}
use tls_probe.Wire.{Bytes}

-- The largest version that is not GREASE; without one, or without the extension, the legacy one.
abbrev pub select_version : List ℕ → ℕ → ℕ
select_version [] legacy = legacy
select_version (v ∷ vs) legacy = get_or (max_of (without_grease (v ∷ vs))) legacy

unfoldable pub ja4_version : ParsedClientHello → ℕ
ja4_version hello = select_version hello.supported_versions hello.legacy_version

-- "13", "12", "11", "10" and "00"
abbrev pub version_text : ℕ → Bytes
version_text version =
    if version == 0x0304
    then 49 ∷ 51 ∷ []
    else if version == 0x0303
    then 49 ∷ 50 ∷ []
    else if version == 0x0302
    then 49 ∷ 49 ∷ []
    else if version == 0x0301
    then 49 ∷ 48 ∷ []
    else 48 ∷ 48 ∷ []

unfoldable pub ja4_version_string : ParsedClientHello → Bytes
unfolding ja4_version
ja4_version_string hello = version_text (ja4_version hello)

-- 'd' or 'i'
unfoldable pub sni_marker : ParsedClientHello → ℕ
sni_marker hello = if is_some hello.sni then 100 else 105

abbrev pub is_ascii_alphanumeric : ℕ → Bool
is_ascii_alphanumeric c = leb 48 c && leb c 57 || leb 65 c && leb c 90 || leb 97 c && leb c 122

abbrev pub last_of : ℕ → Bytes → ℕ
last_of c [] = c
last_of c (d ∷ cs) = last_of d cs

abbrev pub alpn_text : List Bytes → Bytes
alpn_text [] = 48 ∷ 48 ∷ []
alpn_text ([] ∷ _) = 48 ∷ 48 ∷ []
alpn_text ((c ∷ cs) ∷ _) =
    if not (is_ascii_alphanumeric c) || not (is_ascii_alphanumeric (last_of c cs))
    then 57 ∷ 57 ∷ []
    else c ∷ last_of c cs ∷ []

unfoldable pub alpn_chars : ParsedClientHello → Bytes
alpn_chars hello = alpn_text hello.alpn

-- "000000000000"
abbrev pub no_hash : Bytes
no_hash = 48 ∷ 48 ∷ 48 ∷ 48 ∷ 48 ∷ 48 ∷ 48 ∷ 48 ∷ 48 ∷ 48 ∷ 48 ∷ 48 ∷ []

-- The extensions that are hashed: neither GREASE nor a server name nor ALPN.
abbrev pub is_hashed : ℕ → Bool
is_hashed e = not (is_grease e) && not (e == 0x0000) && not (e == 0x0010)

unfoldable pub hashed_extensions : List ℕ → List ℕ
hashed_extensions [] = []
hashed_extensions (e ∷ es) =
    let rest = hashed_extensions es in if is_hashed e then e ∷ rest else rest

-- The signature algorithms in their order, behind an underscore.
abbrev pub signature_part : List ℕ → Bytes
signature_part [] = []
signature_part (s ∷ ss) = 95 ∷ joined (s ∷ ss)

unfoldable pub hash_input : ParsedClientHello → Bytes
unfolding hashed_extensions
hash_input hello =
    joined (sort (hashed_extensions hello.extension_ids))
    ++ signature_part hello.signature_algorithms

-- Empty, or only an underscore.
abbrev pub is_blank : Bytes → Bool
is_blank [] = true
is_blank (c ∷ []) = c == 95
is_blank _ = false

-- `Sha256::digest` is the argument.
module _ (digest : Bytes → Bytes) where
  -- `format!("{:x}", hash)[..12]`
  unfoldable pub hash12 : Bytes → Bytes
  hash12 text = take 12 (hex_bytes (digest text))

  abbrev pub cipher_text : List ℕ → Bytes
  cipher_text [] = no_hash
  cipher_text (c ∷ cs) = hash12 (joined (sort (c ∷ cs)))

  unfoldable pub cipher_hash : ParsedClientHello → Bytes
  cipher_hash hello = cipher_text (without_grease hello.cipher_suites)

  unfoldable pub extension_hash : ParsedClientHello → Bytes
  unfolding hash_input
  extension_hash hello = if is_blank (hash_input hello) then no_hash else hash12 (hash_input hello)

  unfoldable pub ja4 : ParsedClientHello → Bytes
  unfolding ja4_version_string sni_marker alpn_chars cipher_hash extension_hash
  ja4 hello =
      let cipher_count = min (length (without_grease hello.cipher_suites)) 99 in
      let extension_count = min (length (without_grease hello.extension_ids)) 99 in
      116
      ∷ (ja4_version_string hello
          ++ (sni_marker hello
              ∷ (two_digits cipher_count
                  ++ (two_digits extension_count
                      ++ (alpn_chars hello
                          ++ (95 ∷ (cipher_hash hello ++ (95 ∷ extension_hash hello))))))))
