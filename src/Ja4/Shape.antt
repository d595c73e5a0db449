-- ===== src/Ja4/Shape.antt =====
-- crates/tls-probe-cli/src/ja4.rs: the length of a fingerprint.
use tls_probe.Common.Codes.{without_grease}
use tls_probe.Ja4.{
  version_text, ja4_version, ja4_version_string, is_ascii_alphanumeric, last_of, alpn_text,
  alpn_chars, is_blank, hash_input, cipher_text, cipher_hash, extension_hash, ja4, hash12,
}
use tls_probe.Ja4.Text.{hex_bytes, two_digits, joined}
use tls_probe.Ja4.Sort.{sort}
use tls_probe.Parser.Types.{ParsedClientHello}
use tls_probe.Prelude.{
  ℕ, zero, suc, ◌+◌, ◌/◌, ◌%◌, ◌≤◌, ◌<◌, min, ltb, lt→ltb, ltb→le, ◌*◌, ◌≡◌, refl, not, ◌||◌, List,
  [], ◌∷◌, ◌++◌, arith, Bool-cases, inl, inr, length, length-append, length-take,
}
use tls_probe.Text.{digits, decimal}
use tls_probe.Wire.{Bytes}

length-hex_bytes : (bs : Bytes) → length (hex_bytes bs) ≡ 2 * length bs
unfolding hex_bytes
length-hex_bytes [] = omega arith
length-hex_bytes (b ∷ bs) = omega (arith, length-hex_bytes bs)

length-version_text : (v : ℕ) → length (version_text v) ≡ 2
length-version_text v = ground arith

length-alpn_text : (names : List Bytes) → length (alpn_text names) ≡ 2
length-alpn_text [] = refl
length-alpn_text ([] ∷ _) = refl
length-alpn_text ((c ∷ cs) ∷ _) =
    elim (Bool-cases
      (not (is_ascii_alphanumeric c) || not (is_ascii_alphanumeric (last_of c cs)))) [
        | inl other ↦ rw other refl
        | inr plain ↦ rw plain refl
      ]

length-digits_one :
    (fuel n : ℕ) (behind : Bytes)
    → n < 10
    → length (digits (suc fuel) n behind) ≡ suc (length behind)
length-digits_one fuel n behind h = rw (lt→ltb n 10 h)

-- From 100 on there would be three characters.
length-two_digits : (n : ℕ) → n < 100 → length (two_digits n) ≡ 2
unfolding two_digits decimal
length-two_digits zero h = refl
length-two_digits (suc n) h = elim (Bool-cases (ltb (suc n) 10)) [
  | inl small ↦ rw small
  | inr large ↦
      let ten : 10 ≤ suc n = ltb→le (suc n) 10 large in
      rw large (length-digits_one n (suc n / 10) ((48 + suc n % 10) ∷ []) (omega arith))
]

-- The digest has 32 bytes.
module _ (digest : Bytes → Bytes) (size : (text : Bytes) → length (digest text) ≡ 32) where
  length-hash12 : (text : Bytes) → length (hash12 digest text) ≡ 12
  unfolding hash12
  length-hash12 text =
      omega
        (arith, length-take 12 (hex_bytes (digest text)), length-hex_bytes (digest text), size text)

  length-cipher_text : (cs : List ℕ) → length (cipher_text digest cs) ≡ 12
  length-cipher_text [] = refl
  length-cipher_text (c ∷ cs) = length-hash12 (joined (sort (c ∷ cs)))

  length-extension_hash : (h : ParsedClientHello) → length (extension_hash digest h) ≡ 12
  unfolding extension_hash
  length-extension_hash h = elim (Bool-cases (is_blank (hash_input h))) [
    | inl blank ↦ rw blank refl
    | inr full ↦ rw full (length-hash12 (hash_input h))
  ]

  -- With a digest of 32 bytes, every fingerprint has 36 characters, whatever the hello.
  pub length-ja4 : (h : ParsedClientHello) → length (ja4 digest h) ≡ 36
  unfolding ja4 ja4_version_string alpn_chars cipher_hash
  length-ja4 h =
      let ciphers = cipher_text digest (without_grease h.cipher_suites) in
      let cipher_count = min (length (without_grease h.cipher_suites)) 99 in
      let extension_count = min (length (without_grease h.extension_ids)) 99 in
      let behind = alpn_text h.alpn ++ (95 ∷ (ciphers ++ (95 ∷ extension_hash digest h))) in
      omega (
        arith,
        length-two_digits cipher_count (omega arith),
        length-two_digits extension_count (omega arith),
        length-append (two_digits cipher_count) (two_digits extension_count ++ behind),
        length-append (two_digits extension_count) behind,
        length-version_text (ja4_version h),
        length-alpn_text h.alpn,
        length-cipher_text (without_grease h.cipher_suites),
        length-extension_hash h,
        length-append (version_text (ja4_version h)) _,
        length-append (alpn_text h.alpn) (95 ∷ (ciphers ++ (95 ∷ extension_hash digest h))),
        length-append ciphers (95 ∷ extension_hash digest h),
      )
