-- ===== src/Text/Decimal.antt =====
-- A number that is written is read back.
use tls_probe.Prelude.{
  ℕ, zero, suc, ◌+◌, ◌-◌, ◌*◌, ◌/◌, ◌%◌, ◌≤◌, ◌<◌, ◌≡◌, refl, ap, ◌∙◌, false, [], ◌∷◌, some, arith,
  ltb, le→leb, lt→ltb, ltb→lt, ltb→le, ◌==◌, Bool-cases, inl, inr,
}
use tls_probe.Text.{digits, decimal, read_digits, parse_u64}
use tls_probe.Wire.{Bytes}

-- One digit more.
read_digit :
    (m d : ℕ) (behind : Bytes)
    → d < 10
    → m * 10 + d < 18446744073709551616
    → read_digits m ((48 + d) ∷ behind) ≡ read_digits (m * 10 + d) behind
read_digit m d behind h w =
    let e : m * 10 + (48 + d - 48) ≡ m * 10 + d = omega arith in
    rw (
      e,
      le→leb 48 (48 + d) (omega arith),
      le→leb (48 + d) 57 (omega arith),
      lt→ltb (m * 10 + d) 18446744073709551616 w,
    )

read_digits-digits :
    (fuel n : ℕ) (behind : Bytes)
    → n < fuel
    → n < 18446744073709551616
    → read_digits 0 (digits fuel n behind) ≡ read_digits n behind
read_digits-digits zero n behind h w = absurd (omega arith)
read_digits-digits (suc fuel) n behind h w = elim (Bool-cases (ltb n 10)) [
  | inl small ↦
      let plain : 0 * 10 + n ≡ n = omega arith in
      rw small (
        read_digit 0 n behind (ltb→lt n 10 small) (omega arith)
        ∙ ap (λ k. read_digits k behind) plain)
  | inr large ↦
      let ten : 10 ≤ n = ltb→le n 10 large in
      let e : n / 10 * 10 + n % 10 ≡ n = omega arith in
      rw large (
        read_digits-digits fuel (n / 10) ((48 + n % 10) ∷ behind) (omega arith) (omega arith)
        ∙ read_digit (n / 10) (n % 10) behind (omega arith) (omega arith)
        ∙ rw e)
]

-- There is a first digit.
pub record HasDigit (s : Bytes) : Type 0 where
  pub first : ℕ
  pub rest : Bytes
  pub splits : s ≡ first ∷ rest
  pub digit : 48 ≤ first

pub digits-HasDigit : (fuel n : ℕ) (behind : Bytes) → n < fuel → HasDigit (digits fuel n behind)
digits-HasDigit zero n behind h = absurd (omega arith)
digits-HasDigit (suc fuel) n behind h = elim (Bool-cases (ltb n 10)) [
  | inl small ↦
      rw small (record { first = 48 + n; rest = behind; splits = refl; digit = omega arith })
  | inr large ↦
      let ten : 10 ≤ n = ltb→le n 10 large in
      rw large (digits-HasDigit fuel (n / 10) ((48 + n % 10) ∷ behind) (omega arith))
]

parse_digits : (s : Bytes) → HasDigit s → parse_u64 s ≡ read_digits 0 s
unfolding parse_u64
parse_digits s h =
    let plain : (h.first == 43) ≡ false = ground (arith, h.digit) in rw (h.splits, plain)

-- A number of 64 bits is read back from its digits.
pub parse_u64-decimal : (n : ℕ) → n < 18446744073709551616 → parse_u64 (decimal n) ≡ some n
unfolding decimal
parse_u64-decimal n w =
    parse_digits (digits (suc n) n []) (digits-HasDigit (suc n) n [] (omega arith))
    ∙ read_digits-digits (suc n) n [] (omega arith) w
