-- ===== src/Ja4/Invariance.antt =====
-- crates/tls-probe-cli/src/ja4.rs: what the fingerprint does not depend on.
use mathlib.Core.List.{Perm, Permᴰ}
use mathlib.Core.List.Permᴰ as Permᴰ
use mathlib.Core.Logic.{∥∥₁_map}
use mathlib.Core.Option.{get_or}
use tls_probe.Common.Codes.{is_grease, without_grease}
use tls_probe.Ja4.{
  select_version, ja4_version, ja4_version_string, sni_marker, alpn_chars, is_hashed,
  hashed_extensions, hash_input, cipher_text, cipher_hash, extension_hash, ja4, hash12,
}
use tls_probe.Ja4.Sort.{sort, max_of, sort-Perm, max_of-Perm, length-Perm}
use tls_probe.Ja4.Text.{joined}
use tls_probe.Parser.Types.{ParsedClientHello}
use tls_probe.Prelude.{
  ℕ, ◌≡◌, refl, sym, ap, ◌∙◌, List, [], ◌∷◌, is_some, arith, Bool-cases, inl, inr,
}
use tls_probe.Wire.{Bytes}

-- Two hellos that offer the same: the same ciphers, extensions and versions in any order, with any
-- GREASE among them, and the rest that the fingerprint reads.
pub record OffersSame (h g : ParsedClientHello) : Type 0 where
  pub ciphers : Perm (without_grease h.cipher_suites) (without_grease g.cipher_suites)
  pub extensions : Perm (without_grease h.extension_ids) (without_grease g.extension_ids)
  pub versions : Perm (without_grease h.supported_versions) (without_grease g.supported_versions)
  pub legacy : h.legacy_version ≡ g.legacy_version
  pub named : is_some h.sni ≡ is_some g.sni
  pub protocols : h.alpn ≡ g.alpn
  pub signatures : h.signature_algorithms ≡ g.signature_algorithms

select_version_lem :
    (vs : List ℕ) (v : ℕ) → select_version vs v ≡ get_or (max_of (without_grease vs)) v
unfolding max_of without_grease
select_version_lem [] v = refl
select_version_lem (w ∷ ws) v = refl

-- GREASE is left out of what is hashed anyway.
hashed_extensions-without_grease :
    (es : List ℕ) → hashed_extensions (without_grease es) ≡ hashed_extensions es
unfolding hashed_extensions without_grease
hashed_extensions-without_grease [] = refl
hashed_extensions-without_grease (e ∷ es) = elim (Bool-cases (is_grease e)) [
  | inl grease ↦ rw grease (hashed_extensions-without_grease es)
  | inr plain ↦ rw (plain, plain, hashed_extensions-without_grease es)
]

hashed_extensions-Permᴰ :
    {xs ys : List ℕ} → Permᴰ xs ys → Permᴰ (hashed_extensions xs) (hashed_extensions ys)
unfolding hashed_extensions
hashed_extensions-Permᴰ Permᴰ.nil = Permᴰ.nil
hashed_extensions-Permᴰ (Permᴰ.cons {b = b} e d) =
    let rest = hashed_extensions-Permᴰ d in
    rw e (elim (Bool-cases (is_hashed b)) [
      | inl kept ↦ rw kept (Permᴰ.cons refl rest)
      | inr dropped ↦ rw dropped rest
    ])
hashed_extensions-Permᴰ (Permᴰ.swap {a' = a} {b' = b} {l = l} e f) =
    rw (e, f)
      (elim (Bool-cases (is_hashed a)) [
        | inl kept ↦ rw kept (elim (Bool-cases (is_hashed b)) [
          | inl both ↦ rw both (Permᴰ.swap refl refl)
          | inr one ↦ rw one (Permᴰ.refl _)
        ])
        | inr dropped ↦ rw dropped (Permᴰ.refl _)
      ])
hashed_extensions-Permᴰ (Permᴰ.trans d e) =
    Permᴰ.trans (hashed_extensions-Permᴰ d) (hashed_extensions-Permᴰ e)

sorted_extensions :
    (xs ys : List ℕ)
    → Perm (without_grease xs) (without_grease ys)
    → sort (hashed_extensions xs) ≡ sort (hashed_extensions ys)
sorted_extensions xs ys p =
    let moved : Perm (hashed_extensions (without_grease xs))
        (hashed_extensions (without_grease ys)) =
      ∥∥₁_map
        {B = Permᴰ (hashed_extensions (without_grease xs)) (hashed_extensions (without_grease ys))}
        p hashed_extensions-Permᴰ in
    ap sort (sym (hashed_extensions-without_grease xs))
    ∙ sort-Perm moved
    ∙ ap sort (hashed_extensions-without_grease ys)

cipher_text-Perm :
    (digest : Bytes → Bytes) (xs ys : List ℕ)
    → Perm xs ys
    → cipher_text digest xs ≡ cipher_text digest ys
cipher_text-Perm digest [] [] p = refl
cipher_text-Perm digest [] (y ∷ ys) p = absurd (omega (arith, length-Perm p))
cipher_text-Perm digest (x ∷ xs) [] p = absurd (omega (arith, length-Perm p))
cipher_text-Perm digest (x ∷ xs) (y ∷ ys) p = ap (λ cs. hash12 digest (joined cs)) (sort-Perm p)

-- Two hellos that offer the same have the same fingerprint, whatever the order of their ciphers,
-- extensions and versions, wherever GREASE stands among these, and whatever digest is used.
pub ja4-OffersSame :
    (digest : Bytes → Bytes) (h g : ParsedClientHello)
    → OffersSame h g
    → ja4 digest h ≡ ja4 digest g
unfolding ja4 ja4_version_string ja4_version sni_marker alpn_chars cipher_hash extension_hash
    hash_input
ja4-OffersSame digest h g s =
    let version : select_version h.supported_versions h.legacy_version
        ≡ select_version g.supported_versions g.legacy_version =
      select_version_lem h.supported_versions h.legacy_version
      ∙ (rw (s.legacy, max_of-Perm s.versions))
      ∙ sym (select_version_lem g.supported_versions g.legacy_version) in
    rw (
      version,
      s.named,
      s.protocols,
      s.signatures,
      length-Perm s.ciphers,
      length-Perm s.extensions,
      sorted_extensions h.extension_ids g.extension_ids s.extensions,
      cipher_text-Perm digest (without_grease h.cipher_suites) (without_grease g.cipher_suites)
          s.ciphers,
    )
