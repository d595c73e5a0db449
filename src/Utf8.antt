-- ===== src/Utf8.antt =====
-- The two conversions of the Rust library from bytes to text that the parser calls,
-- `String::from_utf8` and `String::from_utf8_lossy`. A `String` is the list of its UTF-8 bytes.
use tls_probe.Prelude.{
  ℕ, Bool, true, false, ◌&&◌, List, [], ◌∷◌, ◌++◌, Option, none, some, ltb, leb, ◌==◌,
  if◌then◌else◌,
}
use tls_probe.Wire.{Bytes}

-- The continuation bytes that may follow, each as its lowest and highest value.
abbrev pub Ranges : Type 0
Ranges = List (ℕ × ℕ)

abbrev tail : Ranges
tail = (0x80, 0xbf) ∷ []

-- What must follow a first byte; none where no character starts with it.
unfoldable pub lead : ℕ → Option Ranges
lead c =
    if ltb c 0x80
    then some []
    else if ltb c 0xc2
    then none
    else if ltb c 0xe0
    then some tail
    else if c == 0xe0
    then some ((0xa0, 0xbf) ∷ tail)
    else if c == 0xed
    then some ((0x80, 0x9f) ∷ tail)
    else if ltb c 0xf0
    then some ((0x80, 0xbf) ∷ tail)
    else if c == 0xf0
    then some ((0x90, 0xbf) ∷ (0x80, 0xbf) ∷ tail)
    else if ltb c 0xf4
    then some ((0x80, 0xbf) ∷ (0x80, 0xbf) ∷ tail)
    else if c == 0xf4
    then some ((0x80, 0x8f) ∷ (0x80, 0xbf) ∷ tail)
    else none

abbrev pub in_range : ℕ × ℕ → ℕ → Bool
in_range r c = leb r.0 c && leb c r.1

-- Whether the bytes are valid once what is still expected has come.
unfoldable pub valid_from : Ranges → Bytes → Bool
valid_from [] [] = true
valid_from (r ∷ rs) [] = false
valid_from (r ∷ rs) (c ∷ cs) = in_range r c && valid_from rs cs
valid_from [] (c ∷ cs) = elim (lead c) [ none ↦ false | some rs ↦ valid_from rs cs ]

unfoldable pub is_utf8 : Bytes → Bool
unfolding valid_from lead
is_utf8 cs = valid_from [] cs

-- `String::from_utf8(v).ok()`
unfoldable pub from_utf8 : Bytes → Option Bytes
unfolding is_utf8
from_utf8 cs = if is_utf8 cs then some cs else none

abbrev replacement : Bytes
replacement = 0xef ∷ 0xbf ∷ 0xbd ∷ []

record Decoder : Type 0 where
  expected : Ranges
  pending : Bytes
  out : Bytes

-- A byte where a character may start.
start_byte : Bytes → ℕ → Decoder
unfolding lead
start_byte out c = elim (lead c) [
  | none ↦ record { expected = []; pending = []; out = out ++ replacement }
  | some [] ↦ record { expected = []; pending = []; out = out ++ c ∷ [] }
  | some (r ∷ rs) ↦ record { expected = r ∷ rs; pending = c ∷ []; out = out }
]

-- A byte inside a character. One that does not fit ends the character and may start the next.
inner_byte : Ranges → Bytes → Bytes → ℕ → Decoder
unfolding start_byte
inner_byte [] pending out c = start_byte out c
inner_byte (r ∷ []) pending out c =
    if in_range r c
    then record { expected = []; pending = []; out = out ++ (pending ++ c ∷ []) }
    else start_byte (out ++ replacement) c
inner_byte (r ∷ s ∷ rs) pending out c =
    if in_range r c
    then record { expected = s ∷ rs; pending = pending ++ c ∷ []; out = out }
    else start_byte (out ++ replacement) c

lossy_from : Decoder → Bytes → Bytes
unfolding inner_byte
lossy_from d [] = elim d.expected [ [] ↦ d.out | _ ∷ _ ↦ d.out ++ replacement ]
lossy_from d (c ∷ cs) = lossy_from (inner_byte d.expected d.pending d.out c) cs

-- `String::from_utf8_lossy(v).to_string()`
unfoldable pub from_utf8_lossy : Bytes → Bytes
unfolding lossy_from
from_utf8_lossy cs = lossy_from (record { expected = []; pending = []; out = [] }) cs
