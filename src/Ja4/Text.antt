-- ===== src/Ja4/Text.antt =====
-- The formatting that crates/tls-probe-cli/src/ja4.rs uses: texts are lists of ASCII codes.
use tls_probe.Prelude.{ℕ, ◌+◌, ◌/◌, ◌%◌, List, [], ◌∷◌, ◌++◌, ltb, if◌then◌else◌}
use tls_probe.Text.{decimal}
use tls_probe.Wire.{Bytes}

abbrev pub hex_digit : ℕ → ℕ
hex_digit n = if ltb n 10 then 48 + n else 87 + n

-- `{:04x}` of a `u16`
unfoldable pub hex4 : ℕ → Bytes
hex4 v =
    hex_digit (v / 4096 % 16)
    ∷ hex_digit (v / 256 % 16)
    ∷ hex_digit (v / 16 % 16)
    ∷ hex_digit (v % 16)
    ∷ []

-- `{:x}` of a digest
unfoldable pub hex_bytes : Bytes → Bytes
hex_bytes [] = []
hex_bytes (b ∷ bs) = hex_digit (b / 16 % 16) ∷ hex_digit (b % 16) ∷ hex_bytes bs

-- `{:02}`: the digits of a number, behind a zero where there is only one.
unfoldable pub two_digits : ℕ → Bytes
two_digits n = if ltb n 10 then 48 ∷ decimal n else decimal n

-- `join(",")` of the numbers in hex
unfoldable pub joined : List ℕ → Bytes
unfolding hex4
joined [] = []
joined (v ∷ []) = hex4 v
joined (v ∷ w ∷ vs) = hex4 v ++ (44 ∷ joined (w ∷ vs))
