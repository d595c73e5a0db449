-- ===== src/Text.antt =====
-- Texts as the lists of their bytes, with the functions on them that the program uses: `contains`,
-- `starts_with`, `strip_prefix`, `split` and their like, and the formatting and parsing of numbers.
pub mod Affixes
pub mod Decimal
pub mod Pieces
pub mod Words
use Prim.Native.Char.{code}
use Prim.Native.String.{String}
use mathlib.Core.List.{reverse}
use tls_probe.Prelude.{
  ℕ, zero, suc, ◌+◌, ◌-◌, ◌*◌, ◌/◌, ◌%◌, Bool, true, false, ◌&&◌, ◌||◌, List, [], ◌∷◌, ◌++◌, Option,
  none, some, is_some, leb, ltb, ◌==◌, if◌then◌else◌,
}
use tls_probe.Wire.{Bytes}

-- The bytes of a literal in ASCII.
abbrev pub text : String → Bytes
text String.[] = []
text (String.◌∷◌ c s) = code c ∷ text s

abbrev pub same_text : Bytes → Bytes → Bool
same_text [] [] = true
same_text [] (d ∷ ds) = false
same_text (c ∷ cs) [] = false
same_text (c ∷ cs) (d ∷ ds) = c == d && same_text cs ds

abbrev pub strip_prefix : Bytes → Bytes → Option Bytes
strip_prefix [] s = some s
strip_prefix (c ∷ p) [] = none
strip_prefix (c ∷ p) (d ∷ s) = let rest = strip_prefix p s in if c == d then rest else none

abbrev pub starts_with : Bytes → Bytes → Bool
starts_with p s = is_some (strip_prefix p s)

abbrev reversed : Option Bytes → Option Bytes
reversed none = none
reversed (some s) = some (reverse s)

abbrev pub strip_suffix : Bytes → Bytes → Option Bytes
strip_suffix p s = reversed (strip_prefix (reverse p) (reverse s))

abbrev pub ends_with : Bytes → Bytes → Bool
ends_with p s = is_some (strip_suffix p s)

abbrev pub contains : Bytes → Bytes → Bool
contains p [] = starts_with p []
contains p (c ∷ s) = starts_with p (c ∷ s) || contains p s

-- `split(c)`: the pieces between the separators, at least one.
abbrev pub onto_first : ℕ → List Bytes → List Bytes
onto_first c [] = (c ∷ []) ∷ []
onto_first c (piece ∷ pieces) = (c ∷ piece) ∷ pieces

abbrev pub split : ℕ → Bytes → List Bytes
split sep [] = [] ∷ []
split sep (c ∷ s) = let rest = split sep s in if c == sep then [] ∷ rest else onto_first c rest

-- `replace` of one byte
abbrev pub replace : ℕ → ℕ → Bytes → Bytes
replace old new [] = []
replace old new (c ∷ s) = (if c == old then new else c) ∷ replace old new s

-- `{}` of a number: its digits, of which there are fewer than its successor.
abbrev pub digits : ℕ → ℕ → Bytes → Bytes
digits zero n behind = behind
digits (suc fuel) n behind =
    let more = digits fuel (n / 10) ((48 + n % 10) ∷ behind) in
    if ltb n 10 then (48 + n) ∷ behind else more

unfoldable pub decimal : ℕ → Bytes
decimal n = digits (suc n) n []

-- `parse::<u64>()`: digits, with a plus before them or not, and at most 64 bits.
abbrev pub read_digits : ℕ → Bytes → Option ℕ
read_digits n [] = some n
read_digits n (c ∷ s) =
    let m = n * 10 + (c - 48) in
    let rest = read_digits m s in
    if leb 48 c && leb c 57 && ltb m 18446744073709551616 then rest else none

abbrev pub some_digits : Bytes → Option ℕ
some_digits [] = none
some_digits (c ∷ s) = read_digits 0 (c ∷ s)

unfoldable pub parse_u64 : Bytes → Option ℕ
parse_u64 [] = none
parse_u64 (c ∷ s) = if c == 43 then some_digits s else some_digits (c ∷ s)
