-- ===== src/Common/Codes.antt =====
-- crates/tls-probe-common/src/codes.rs: the predicates on protocol numbers, and the constants that
-- they name.
use tls_probe.Prelude.{
  ℕ, ◌+◌, ◌*◌, ◌/◌, ◌%◌, ◌<◌, List, [], ◌∷◌, if◌then◌else◌, ◌≡◌, ◌↔◌, Bool, true, ◌&&◌, ◌||◌, arith,
  leb, ◌==◌,
}
use tls_probe.Wire.{IsU16}

abbrev pub content_type_alert : ℕ
content_type_alert = 0x15

abbrev pub content_type_handshake : ℕ
content_type_handshake = 0x16

abbrev pub handshake_client_hello : ℕ
handshake_client_hello = 0x01

abbrev pub handshake_server_hello : ℕ
handshake_server_hello = 0x02

abbrev pub handshake_certificate : ℕ
handshake_certificate = 0x0B

abbrev pub handshake_certificate_request : ℕ
handshake_certificate_request = 0x0D

-- `(value >> 8) as u8`, `(value & 0xFF) as u8` and `hi & 0x0F`.
unfoldable pub is_grease : ℕ → Bool
is_grease value = let hi = value / 256 % 256 in let lo = value % 256 in hi == lo && hi % 16 == 0x0A

-- `filter(|v| !is_grease(v))`
unfoldable pub without_grease : List ℕ → List ℕ
without_grease [] = []
without_grease (v ∷ vs) = let rest = without_grease vs in if is_grease v then rest else v ∷ rest

unfoldable pub is_pqc_sig_alg : ℕ → Bool
is_pqc_sig_alg id = leb 0x0904 id && leb id 0x0906

unfoldable pub is_pqc_group : ℕ → Bool
is_pqc_group id =
    leb 0x0200 id && leb id 0x0202 || leb 0x11E9 id && leb id 0x11ED || id == 0x6399 || id == 0x639A

unfoldable pub is_client_hello : ℕ → Bool
is_client_hello handshake_type = handshake_type == handshake_client_hello

unfoldable pub is_server_hello : ℕ → Bool
is_server_hello handshake_type = handshake_type == handshake_server_hello

grease_form : (v : ℕ) → IsU16 v → is_grease v ≡ true → v ≡ 0x0A0A + 0x1010 * (v / 4096)
unfolding is_grease
grease_form v h g =
    let same : v / 256 % 256 ≡ v % 256 = ground arith in
    let low : v / 256 % 256 % 16 ≡ 10 = ground arith in omega arith

grease_found : (k : ℕ) → k < 16 → is_grease (0x0A0A + 0x1010 * k) ≡ true
unfolding is_grease
grease_found k h =
    let same : (0x0A0A + 0x1010 * k) / 256 % 256 ≡ (0x0A0A + 0x1010 * k) % 256 = omega arith in
    let low : (0x0A0A + 0x1010 * k) / 256 % 256 % 16 ≡ 10 = omega arith in ground arith

-- Of the 16-bit numbers exactly the sixteen of RFC 8701 are GREASE: 0x0A0A, 0x1A1A, to 0xFAFA.
pub is_grease_iff :
    (v : ℕ) → IsU16 v → (is_grease v ≡ true) ↔ ((k : ℕ) × (k < 16) × (v ≡ 0x0A0A + 0x1010 * k))
is_grease_iff v h =
    (λ g. (v / 4096, omega arith, grease_form v h g), λ (k, l, e). rw e (grease_found k l))
