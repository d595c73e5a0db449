-- ===== src/Text/Words.antt =====
-- Lines and words of a text in ASCII, and numbers in base 16.
pub mod Hex
pub mod Parts
use mathlib.Core.List.{filter}
use tls_probe.Prelude.{
  ℕ, zero, suc, ◌+◌, ◌-◌, ◌*◌, ◌/◌, ◌%◌, Bool, true, false, not, ◌&&◌, ◌||◌, List, [], ◌∷◌, ◌++◌,
  map, Option, none, some, ltb, leb, ◌==◌, if◌then◌else◌,
}
use tls_probe.Text.{split, strip_suffix}
use tls_probe.Wire.{Bytes}

-- `char::is_whitespace`
abbrev pub is_white : ℕ → Bool
is_white c = c == 32 || (leb 9 c && leb c 13)

abbrev pub to_space : ℕ → ℕ
to_space c = if is_white c then 32 else c

abbrev pub is_word : Bytes → Bool
is_word [] = false
is_word (c ∷ s) = true

abbrev pub keep_words : List Bytes → List Bytes
keep_words [] = []
keep_words (w ∷ ws) = let rest = keep_words ws in if is_word w then w ∷ rest else rest

abbrev pub spaced : Bytes → Bytes
spaced [] = []
spaced (c ∷ s) = to_space c ∷ spaced s

-- `split_whitespace`
unfoldable pub split_whitespace : Bytes → List Bytes
split_whitespace s = keep_words (split 32 (spaced s))

-- `lines`: no line behind the last line feed, and no carriage return at the end of one.
abbrev pub without_return : Bytes → Bytes
without_return s = elim (strip_suffix (13 ∷ []) s) [ none ↦ s | some line ↦ line ]

abbrev pub ended_lines : List Bytes → List Bytes
ended_lines [] = []
ended_lines (s ∷ []) = if is_word s then s ∷ [] else []
ended_lines (s ∷ t ∷ ss) = without_return s ∷ ended_lines (t ∷ ss)

unfoldable pub lines : Bytes → List Bytes
lines s = ended_lines (split 10 s)

abbrev pub hex_digit : ℕ → Option ℕ
hex_digit c =
    if leb 48 c && leb c 57
    then some (c - 48)
    else if leb 65 c && leb c 70
    then some (c - 55)
    else if leb 97 c && leb c 102
    then some (c - 87)
    else none

abbrev pub read_hex : ℕ → ℕ → Bytes → Option ℕ
read_hex bound n [] = some n
read_hex bound n (c ∷ s) = elim (hex_digit c) [
  | none ↦ none
  | some d ↦
      (let rest = read_hex bound (n * 16 + d) s in if ltb (n * 16 + d) bound then rest else none)
]

abbrev pub some_hex : ℕ → Bytes → Option ℕ
some_hex bound [] = none
some_hex bound (c ∷ s) = read_hex bound 0 (c ∷ s)

-- `from_str_radix(s, 16)` of an unsigned type with so many values, a plus before the digits or not.
unfoldable pub from_hex : ℕ → Bytes → Option ℕ
from_hex bound [] = none
from_hex bound (c ∷ s) = if c == 43 then some_hex bound s else some_hex bound (c ∷ s)

-- `trim_start_matches(c)`
abbrev pub trim_start : ℕ → Bytes → Bytes
trim_start c [] = []
trim_start c (d ∷ s) = let rest = trim_start c s in if d == c then rest else d ∷ s

-- Digits that were trimmed away are a zero.
abbrev pub or_zero : Bytes → Bytes
or_zero [] = 48 ∷ []
or_zero (c ∷ s) = c ∷ s
