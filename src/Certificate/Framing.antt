-- ===== src/Certificate/Framing.antt =====
-- crates/tls-probe-cli/src/certificate.rs: where the leaf certificate is looked for.
use tls_probe.Certificate.{
  Libraries, u24_at, parse_der_certificate, first_cert, cert_list, parse_certificate,
}
use tls_probe.Outcome.{ok, Returns, Returns->>=}
use tls_probe.Prelude.{
  ℕ, ◌+◌, ◌*◌, ◌/◌, ◌%◌, ◌≤◌, ◌<◌, ◌≡◌, refl, ap, ◌∙◌, true, false, [], ◌∷◌, ◌++◌, none, arith,
  Bool-cases, inl, inr, ltb, lt→ltb, le→ltb, ltb→le, length, length-append, drop, if◌then◌else◌,
}
use tls_probe.Wire.{Bytes, byte_at, slice}
use tls_probe.Wire.Cursor.{
  Cursor, Cursor-start, Cursor-to, byte_at-Cursor, byte_at-Returns, slice-Cursor, slice-Returns,
}

-- Three bytes of a number below 2^24.
abbrev pub u24_be : ℕ → Bytes
u24_be n = n / 65536 ∷ n / 256 % 256 ∷ n % 256 ∷ []

u24_at-Returns : (d : Bytes) (i : ℕ) → i + 2 < length d → Returns (λ _. Unit) (u24_at d i)
unfolding u24_at
u24_at-Returns d i h = Returns->>= _ _ (byte_at d i) _ (byte_at-Returns d i (omega arith)) λ a _.
    Returns->>= _ _ (byte_at d (i + 1)) _ (byte_at-Returns d (i + 1) (omega arith)) λ b _.
      Returns->>= _ _ (byte_at d (i + 2)) _ (byte_at-Returns d (i + 2) (omega arith)) λ c _. tt

first_cert-Returns : (l : Libraries) (d : Bytes) (n : ℕ) → Returns (λ _. Unit) (first_cert l d n)
unfolding first_cert
first_cert-Returns l d n = elim (Bool-cases (ltb (length d) (6 + n))) [
  | inl cut ↦ rw cut tt
  | inr whole ↦
      let fits = ltb→le (length d) (6 + n) whole in
      rw whole (
        Returns->>= _ _ (slice d 6 (6 + n)) _ (slice-Returns d 6 (6 + n) (omega arith) fits)
          λ der _. tt)
]

cert_list-Returns : (l : Libraries) (d : Bytes) (n : ℕ) → Returns (λ _. Unit) (cert_list l d n)
unfolding cert_list
cert_list-Returns l d n = elim (Bool-cases (ltb (length d) 6)) [
  | inl short ↦ rw short tt
  | inr long ↦
      let six = ltb→le (length d) 6 long in
      (elim (Bool-cases (ltb n 3)) [
        | inl small ↦ rw (long, small) tt
        | inr large ↦
            rw (long, large)
              (Returns->>= _ _ (u24_at d 3) _ (u24_at-Returns d 3 (omega arith))
                λ m _. first_cert-Returns l d m)
      ])
]

-- No payload makes the code read out of bounds: it returns a certificate or none.
pub parse_certificate-Returns :
    (l : Libraries) (payload : Bytes) → Returns (λ _. Unit) (parse_certificate l payload)
unfolding parse_certificate
parse_certificate-Returns l payload = elim (Bool-cases (ltb (length payload) 3)) [
  | inl short ↦ rw short tt
  | inr long ↦
      let three = ltb→le (length payload) 3 long in
      rw long (
        Returns->>= _ _ (u24_at payload 0) _ (u24_at-Returns payload 0 (omega arith))
          λ list _. cert_list-Returns l payload list)
]

u24_at-Cursor :
    (d : Bytes) (i a b c : ℕ) (rest : Bytes)
    → Cursor d i (a ∷ b ∷ c ∷ rest)
    → u24_at d i ≡ ok (a * 65536 + b * 256 + c)
unfolding u24_at
u24_at-Cursor d i a b c rest h = rw (
  byte_at-Cursor d i a (b ∷ c ∷ rest) h,
  byte_at-Cursor d (i + 1) b (c ∷ rest)
      (Cursor-to d i (a ∷ []) (b ∷ c ∷ rest) (i + 1) h (omega arith)),
  byte_at-Cursor d (i + 2) c rest (Cursor-to d i (a ∷ b ∷ []) (c ∷ rest) (i + 2) h (omega arith)),
)

u24_at-u24_be :
    (d : Bytes) (i n : ℕ) (rest : Bytes) → Cursor d i (u24_be n ++ rest) → u24_at d i ≡ ok n
u24_at-u24_be d i n rest h =
    let e : n / 65536 * 65536 + n / 256 % 256 * 256 + n % 256 ≡ n = omega arith in
    u24_at-Cursor d i (n / 65536) (n / 256 % 256) (n % 256) rest h ∙ ap ok e

-- The body of a Certificate message, behind its handshake header.
abbrev pub certificate_list : ℕ → Bytes → Bytes → Bytes
certificate_list list_len der rest = u24_be list_len ++ (u24_be (length der) ++ (der ++ rest))

read_list :
    (l : Libraries) (list_len : ℕ) (der rest : Bytes)
    → cert_list l (certificate_list list_len der rest) list_len
      ≡ (if ltb list_len 3 then ok none else ok (parse_der_certificate l der))
unfolding cert_list first_cert
read_list l list_len der rest =
    let d = certificate_list list_len der rest in
    let c = Cursor-start d in
    let c₃ =
      Cursor-to d 0 (u24_be list_len) (u24_be (length der) ++ (der ++ rest)) 3 c (omega arith) in
    let c₆ = Cursor-to d 3 (u24_be (length der)) (der ++ rest) 6 c₃ (omega arith) in
    let size : 6 + length der ≤ length d = omega (arith, length-append der rest) in
    let long : ltb (length d) 6 ≡ false = le→ltb (length d) 6 (omega arith) in
    elim (Bool-cases (ltb list_len 3)) [
      | inl small ↦ rw (cert_list, long, small)
      | inr large ↦ rw (
        cert_list,
        long,
        large,
        u24_at-u24_be d 3 (length der) (der ++ rest) c₃,
        first_cert,
        le→ltb (length d) (6 + length der) size,
        slice-Cursor d 6 (6 + length der) der rest c₆ refl,
      )
    ]

-- Of the body of a Certificate message, of any length that it announces and with anything behind
-- its first certificate, that certificate is parsed, unless the announced length has no room for one.
pub parse_certificate-certificate_list :
    (l : Libraries) (list_len : ℕ) (der rest : Bytes)
    → parse_certificate l (certificate_list list_len der rest)
      ≡ (if ltb list_len 3 then ok none else ok (parse_der_certificate l der))
unfolding parse_certificate
parse_certificate-certificate_list l list_len der rest =
    let d = certificate_list list_len der rest in
    let long : ltb (length d) 3 ≡ false = le→ltb (length d) 3 (omega arith) in
    rw
      (
        parse_certificate,
        long,
        u24_at-u24_be d 0 list_len (u24_be (length der) ++ (der ++ rest)) (Cursor-start d),
      )
      (read_list l list_len der rest)

-- A Certificate message in a record of its own.
abbrev pub certificate_record : ℕ → ℕ → Bytes → Bytes
certificate_record major minor body =
    0x16
    ∷ major
    ∷ minor
    ∷ ((4 + length body) / 256)
    ∷ ((4 + length body) % 256)
    ∷ 0x0B
    ∷ (u24_be (length body) ++ body)

misread :
    (l : Libraries) (r h₂ h₁ h₀ b list_len : ℕ) (rest : Bytes)
    → h₁ * 256 + h₀ ≡ length (b ∷ rest)
    → cert_list l (r ∷ 0x0B ∷ h₂ ∷ h₁ ∷ h₀ ∷ b ∷ rest) list_len ≡ ok none
unfolding cert_list first_cert
misread l r h₂ h₁ h₀ b list_len rest e =
    let d = r ∷ 0x0B ∷ h₂ ∷ h₁ ∷ h₀ ∷ b ∷ rest in
    let c =
      Cursor-to d 0 (r ∷ 0x0B ∷ h₂ ∷ []) (h₁ ∷ h₀ ∷ b ∷ rest) 3 (Cursor-start d) (omega arith) in
    let long : ltb (length d) 6 ≡ false = le→ltb (length d) 6 (omega arith) in
    let cut : ltb (length d) (6 + (h₁ * 65536 + h₀ * 256 + b)) ≡ true =
      lt→ltb (length d) (6 + (h₁ * 65536 + h₀ * 256 + b)) (omega (arith, e)) in
    elim (Bool-cases (ltb list_len 3)) [
      | inl small ↦ rw (cert_list, long, small)
      | inr large ↦ rw (cert_list, long, large, u24_at-Cursor d 3 h₁ h₀ b rest c, first_cert, cut)
    ]

misread_all :
    (l : Libraries) (r h₂ h₁ h₀ list_len : ℕ) (body : Bytes)
    → h₁ * 256 + h₀ ≡ length body
    → cert_list l (r ∷ 0x0B ∷ h₂ ∷ h₁ ∷ h₀ ∷ body) list_len ≡ ok none
unfolding cert_list
misread_all l r h₂ h₁ h₀ list_len [] e = refl
misread_all l r h₂ h₁ h₀ list_len (b ∷ rest) e = misread l r h₂ h₁ h₀ b list_len rest e

-- Of a record that holds one Certificate message, whatever is in it, no certificate is found behind
-- its first four bytes, where the capture command looks for one: the header of the record is
-- longer, and the message's own header is read as a length that the record does not have.
pub parse_certificate-certificate_record :
    (l : Libraries) (major minor : ℕ) (body : Bytes)
    → 4 + length body < 65536
    → parse_certificate l (drop 4 (certificate_record major minor body)) ≡ ok none
unfolding parse_certificate
parse_certificate-certificate_record l major minor body h =
    let n = length body in
    let r = (4 + n) % 256 in
    let d = r ∷ 0x0B ∷ (n / 65536) ∷ (n / 256 % 256) ∷ (n % 256) ∷ body in
    let e : n / 256 % 256 * 256 + n % 256 ≡ n = omega arith in
    let long : ltb (length d) 3 ≡ false = le→ltb (length d) 3 (omega arith) in
    rw
      (
        parse_certificate,
        long,
        u24_at-Cursor d 0 r 0x0B (n / 65536) (n / 256 % 256 ∷ n % 256 ∷ body) (Cursor-start d),
      )
      (misread_all l r (n / 65536) (n / 256 % 256) (n % 256) (r * 65536 + 0x0B * 256 + n / 65536)
        body e)
