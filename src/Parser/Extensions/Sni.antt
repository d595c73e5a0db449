-- ===== src/Parser/Extensions/Sni.antt =====
-- The server name: the host name of the first entry, if it is text.
use tls_probe.Outcome.{ok, Returns, Returns->>=}
use tls_probe.Parser.Extensions.{ExtensionType, Extension, extract_sni}
use tls_probe.Prelude.{
  ℕ, ◌+◌, ◌≤◌, ◌≡◌, refl, inl, inr, true, not, [], ◌∷◌, ◌++◌, arith, Bool-cases, ltb, le→ltb,
  ltb→le, ◌==◌, Option, none, some, length, length-append,
}
use tls_probe.Utf8.{is_utf8, from_utf8}
use tls_probe.Wire.{Bytes, IsU16, u16_be, u16_at, byte_at, slice}
use tls_probe.Wire.Cursor.{
  Cursor-start, Cursor-skip, u16_at-be, byte_at-Cursor, u16_at-Returns, byte_at-Returns,
  slice-Returns, slice-Cursor,
}

-- A name, if there is one, is text.
abbrev pub IsText : Option Bytes → Type 0
IsText none = Unit
IsText (some s) = is_utf8 s ≡ true

from_utf8-IsText : (s : Bytes) → IsText (from_utf8 s)
unfolding from_utf8
from_utf8-IsText s = elim (Bool-cases (is_utf8 s)) [ inl e ↦ rw e e | inr e ↦ rw e tt ]

-- On every content the search for a name ends, and what it finds is text.
pub extract_sni-Returns : (ext : Extension) → Returns IsText (extract_sni ext)
unfolding extract_sni
extract_sni-Returns ext =
    let d = ext.content in
    elim (Bool-cases (ltb (length d) 5)) [
      | inl short ↦ rw short tt
      | inr long ↦
          let five : 5 ≤ length d = ltb→le (length d) 5 long in
          rw long (
            Returns->>= _ _ (u16_at d 0) _ (u16_at-Returns d 0 (omega arith)) λ list_len _.
              Returns->>= _ _ (byte_at d 2) _ (byte_at-Returns d 2 (omega arith)) λ name_type _.
                elim (Bool-cases (not (name_type == 0))) [
                  | inl other ↦ rw other tt
                  | inr host ↦ rw host (
                      Returns->>= _ _ (u16_at d 3) _ (u16_at-Returns d 3 (omega arith)) λ n _.
                        elim (Bool-cases (ltb (length d) (5 + n))) [
                          | inl cut ↦ rw cut tt
                          | inr whole ↦ rw whole (
                              Returns->>= _ _ (slice d 5 (5 + n)) _
                                (slice-Returns d 5 (5 + n) (omega arith)
                                  (ltb→le (length d) (5 + n) whole))
                                λ s _. from_utf8-IsText s)
                        ])
                ])
    ]

-- The bytes of a host name behind its header are returned whole if they are text, whatever the
-- list's length says and whatever follows.
pub extract_sni-host :
    (ty : ExtensionType) (list_len : ℕ) (name rest : Bytes)
    → IsU16 (length name)
    → extract_sni (record {
      ext_type = ty;
      content = u16_be list_len ++ (0 ∷ (u16_be (length name) ++ (name ++ rest)));
    })
      ≡ ok (from_utf8 name)
unfolding extract_sni
extract_sni-host ty list_len name rest h =
    let n = length name in
    let d : Bytes = u16_be list_len ++ (0 ∷ (u16_be n ++ (name ++ rest))) in
    let c₀ = Cursor-start d in
    let c₂ = Cursor-skip d 0 (u16_be list_len) (0 ∷ (u16_be n ++ (name ++ rest))) c₀ in
    let c₃ = Cursor-skip d 2 (0 ∷ []) (u16_be n ++ (name ++ rest)) c₂ in
    let c₅ = Cursor-skip d 3 (u16_be n) (name ++ rest) c₃ in
    rw (
      le→ltb (length d) 5 (omega arith),
      u16_at-be d 0 list_len _ c₀,
      byte_at-Cursor d 2 0 _ c₂,
      u16_at-be d 3 n _ c₃,
      le→ltb (length d) (5 + n) (omega (arith, length-append name rest)),
      slice-Cursor d 5 (5 + n) name rest c₅ refl,
    )
