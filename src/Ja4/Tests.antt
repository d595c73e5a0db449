-- ===== src/Ja4/Tests.antt =====
-- crates/tls-probe-cli/src/ja4.rs on two hellos that offer the same.
use mathlib.Core.List.Perm
use tls_probe.Common.Capture.{zeros}
use tls_probe.Common.Codes.{is_grease, without_grease}
use tls_probe.Ja4.{ja4}
use tls_probe.Ja4.Invariance.{OffersSame, ja4-OffersSame}
use tls_probe.Ja4.Shape.{length-ja4}
use tls_probe.Parser.Types.{ParsedClientHello}
use tls_probe.Prelude.{
  ℕ, ◌≡◌, refl, false, List, [], ◌∷◌, none, arith, length, take, length-take, length-append, ◌++◌,
}
use tls_probe.Wire.{Bytes}

abbrev hello : List ℕ → List ℕ → List ℕ → ParsedClientHello
hello ciphers extensions versions = record {
  legacy_version = 771;
  random = zeros 32;
  session_id = [];
  cipher_suites = ciphers;
  compression_methods = 0 ∷ [];
  extensions = [];
  extension_ids = extensions;
  supported_versions = versions;
  supported_groups = [];
  signature_algorithms = 1027 ∷ [];
  signature_algorithms_cert = [];
  key_share_groups = [];
  sni = none;
  alpn = (104 ∷ 50 ∷ []) ∷ [];
  psk_offered = false;
  early_data_offered = false;
  psk_key_exchange_modes_offered = false;
  session_ticket_offered = false;
}

abbrev plain : ParsedClientHello
plain = hello (4865 ∷ 4866 ∷ []) (43 ∷ []) (772 ∷ [])

-- Another order, and GREASE in each list.
abbrev greased : ParsedClientHello
greased = hello (0x0A0A ∷ 4866 ∷ 4865 ∷ []) (43 ∷ 0x1A1A ∷ []) (0xFAFA ∷ 772 ∷ [])

same_offer : OffersSame plain greased
unfolding without_grease is_grease
same_offer = record {
  ciphers = Perm.swap 4866 4865 [];
  extensions = Perm.refl (43 ∷ []);
  versions = Perm.refl (772 ∷ []);
  legacy = refl;
  named = refl;
  protocols = refl;
  signatures = refl;
}

-- Not a digest of any use, but one of 32 bytes.
abbrev first_bytes : Bytes → Bytes
first_bytes text = take 32 (text ++ zeros 32)

first_bytes_size : (text : Bytes) → length (first_bytes text) ≡ 32
first_bytes_size text =
    omega (arith, length-take 32 (text ++ zeros 32), length-append text (zeros 32))

ja4-OffersSame_example : ja4 first_bytes plain ≡ ja4 first_bytes greased
ja4-OffersSame_example = ja4-OffersSame first_bytes plain greased same_offer

length-ja4_example : length (ja4 first_bytes plain) ≡ 36
length-ja4_example = length-ja4 first_bytes first_bytes_size plain
