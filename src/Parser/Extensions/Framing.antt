-- ===== src/Parser/Extensions/Framing.antt =====
-- The list of extensions as framed on the wire, and the loop that takes it apart.
use tls_probe.Outcome.{ok, Returns, Returns->>=}
use tls_probe.Parser.Extensions.{Extension, from_u16, extensions_loop, parse_extensions}
use tls_probe.Prelude.{
  ℕ, zero, suc, ◌+◌, ◌*◌, ◌≤◌, ◌<◌, ◌≡◌, refl, sym, ap, ◌∙◌, inl, inr, List, [], ◌∷◌, ◌++◌, map,
  append_assoc, append-nil, arith, Bool-cases, leb, ltb, leb→le, leb→lt, le→leb, lt→leb, lt→ltb,
  le→ltb, ltb→le, length, take, drop, length-append, length-take, length-drop, All, All-drop,
  take-append-drop,
}
use tls_probe.Wire.{Bytes, IsBytes, IsU16, u16_be, u16_at, slice}
use tls_probe.Wire.Cursor.{
  Cursor, Cursor-start, Cursor-skip, Cursor-to, u16_at-be, u16_at-Cursor, slice-Cursor,
  u16_at-Returns, slice-Returns,
}

-- An extension on the wire: its number and its content.
pub record RawExtension : Type 0 where
  pub id : ℕ
  pub body : Bytes

abbrev pub IsRaw : RawExtension → Type 0
IsRaw e = IsU16 e.id × IsU16 (length e.body)

abbrev pub frame : RawExtension → Bytes
frame e = u16_be e.id ++ (u16_be (length e.body) ++ e.body)

abbrev pub frames : List RawExtension → Bytes
frames [] = []
frames (e ∷ es) = frame e ++ frames es

-- What may be left behind the last whole extension: fewer than four bytes, or a header that
-- announces more than there is.
abbrev pub IsCut : Bytes → Type 0
IsCut (a ∷ b ∷ c ∷ e ∷ body) = length body < c * 256 + e
IsCut _ = Unit

abbrev pub decode : RawExtension → Extension
decode e = record { ext_type = from_u16 e.id; content = e.body }

loop_short :
    (fuel : ℕ) (d : Bytes) (o : ℕ) (found : List Extension)
    → length d < o + 4
    → extensions_loop (suc fuel) d o found ≡ ok found
unfolding extensions_loop
loop_short fuel d o found h = rw (lt→leb (o + 4) (length d) h)

loop_cut :
    (fuel : ℕ) (d : Bytes) (o : ℕ) (found : List Extension) (rest : Bytes)
    → Cursor d o rest
    → IsCut rest
    → extensions_loop (suc fuel) d o found ≡ ok found
loop_cut fuel d o found [] c h = loop_short fuel d o found (omega (arith, c.size))
loop_cut fuel d o found (a ∷ []) c h = loop_short fuel d o found (omega (arith, c.size))
loop_cut fuel d o found (a ∷ b ∷ []) c h = loop_short fuel d o found (omega (arith, c.size))
loop_cut fuel d o found (a ∷ b ∷ e ∷ []) c h = loop_short fuel d o found (omega (arith, c.size))
loop_cut fuel d o found (a ∷ b ∷ e ∷ f ∷ body) c h =
    unfold extensions_loop in
    rw (
      le→leb (o + 4) (length d) (omega (arith, c.size)),
      u16_at-Cursor d o a b (e ∷ f ∷ body) c,
      u16_at-Cursor d (o + 2) e f body (Cursor-skip d o (a ∷ b ∷ []) (e ∷ f ∷ body) c),
      lt→ltb (length d) (o + 4 + (e * 256 + f)) (omega (arith, c.size)),
    )

loop_step :
    (fuel : ℕ) (d : Bytes) (o : ℕ) (found : List Extension) (e : RawExtension) (rest : Bytes)
    → IsRaw e
    → Cursor d o (frame e ++ rest)
    → extensions_loop (suc fuel) d o found
      ≡ extensions_loop fuel d (o + 4 + length e.body) (found ++ decode e ∷ [])
unfolding extensions_loop
loop_step fuel d o found e rest h c =
    let n = length e.body in
    let c₂ = Cursor-skip d o (u16_be e.id) (u16_be n ++ (e.body ++ rest)) c in
    let c₄ = Cursor-to d (o + 2) (u16_be n) (e.body ++ rest) (o + 4) c₂ (omega arith) in
    let fits : o + 4 + n ≤ length d = omega (arith, c₄.size, length-append e.body rest) in
    rw (
      le→leb (o + 4) (length d) (omega arith),
      u16_at-be d o e.id _ c,
      u16_at-be d (o + 2) n _ c₂,
      le→ltb (length d) (o + 4 + n) fits,
      slice-Cursor d (o + 4) (o + 4 + n) e.body rest c₄ refl,
    )

pub loop-frames :
    (es : List RawExtension) (fuel : ℕ) (d : Bytes) (o : ℕ) (found : List Extension) (rest : Bytes)
    → All IsRaw es
    → IsCut rest
    → Cursor d o (frames es ++ rest)
    → length es < fuel
    → extensions_loop fuel d o found ≡ ok (found ++ map decode es)
loop-frames es zero d o found rest h k c f = absurd (omega arith)
loop-frames [] (suc fuel) d o found rest h k c f =
    loop_cut fuel d o found rest c k ∙ ap ok (sym (append-nil found))
loop-frames (e ∷ es) (suc fuel) d o found rest h k c f =
    let c' : Cursor d o (frame e ++ (frames es ++ rest)) =
      rw (← append_assoc (frame e) (frames es) rest) c in
    loop_step fuel d o found e (frames es ++ rest) h.0 c'
    ∙ loop-frames es fuel d (o + 4 + length e.body) (found ++ decode e ∷ []) rest h.1 k
        (Cursor-to d o (frame e) (frames es ++ rest) (o + 4 + length e.body) c' (omega arith))
        (omega arith)
    ∙ ap ok (append_assoc found (decode e ∷ []) (map decode es))

length-frames : (es : List RawExtension) → length es ≤ length (frames es)
length-frames [] = omega arith
length-frames (e ∷ es) = omega (arith, length-frames es, length-append (frame e) (frames es))

-- Whole extensions are parsed as they stand, and what is cut off behind them is dropped.
pub parse_extensions-frames :
    (es : List RawExtension) (rest : Bytes)
    → All IsRaw es
    → IsCut rest
    → parse_extensions (frames es ++ rest) ≡ ok (map decode es)
unfolding parse_extensions
parse_extensions-frames es rest h k =
    loop-frames es (suc (length (frames es ++ rest))) (frames es ++ rest) 0 [] rest h k
      (Cursor-start (frames es ++ rest))
      (omega (arith, length-frames es, length-append (frames es) rest))

-- The parts of a byte sequence.
pub record Framed (d : Bytes) : Type 0 where
  pub whole : List RawExtension
  pub cut : Bytes
  pub splits : d ≡ frames whole ++ cut
  pub whole_raw : All IsRaw whole
  pub cut_short : IsCut cut

Framed-none : (d : Bytes) → IsCut d → Framed d
Framed-none d h = record { whole = []; cut = d; splits = refl; whole_raw = tt; cut_short = h }

frame_eq :
    (a b c e : ℕ) (body : Bytes)
    → a < 256
    → b < 256
    → c < 256
    → e < 256
    → c * 256 + e ≡ length body
    → frame (record { id = a * 256 + b; body = body }) ≡ a ∷ b ∷ c ∷ e ∷ body
frame_eq a b c e body ha hb hc he n = ground arith

Framed-cons :
    (d : Bytes) (e : RawExtension) (more : Bytes)
    → d ≡ frame e ++ more
    → IsRaw e
    → Framed more
    → Framed d
Framed-cons d e more q h f = record {
  whole = e ∷ f.whole;
  cut = f.cut;
  splits = q ∙ ap (◌++◌ (frame e)) f.splits ∙ sym (append_assoc (frame e) (frames f.whole) f.cut);
  whole_raw = (h, f.whole_raw);
  cut_short = f.cut_short;
}

Framed-below : (n : ℕ) (d : Bytes) → length d < n → IsBytes d → Framed d
Framed-below zero d l h = absurd (omega arith)
Framed-below (suc n) [] l h = Framed-none [] tt
Framed-below (suc n) (a ∷ []) l h = Framed-none (a ∷ []) tt
Framed-below (suc n) (a ∷ b ∷ []) l h = Framed-none (a ∷ b ∷ []) tt
Framed-below (suc n) (a ∷ b ∷ c ∷ []) l h = Framed-none (a ∷ b ∷ c ∷ []) tt
Framed-below (suc n) (a ∷ b ∷ c ∷ e ∷ body) l h =
    let k : ℕ = c * 256 + e in
    let more =
      Framed-below n (drop k body) (omega (arith, length-drop k body))
        (All-drop _ k body h.1.1.1.1) in
    elim (Bool-cases (leb k (length body))) [
      | inl fits ↦
          let size : length (take k body) ≡ k =
            omega (arith, length-take k body, leb→le k (length body) fits) in
          Framed-cons (a ∷ b ∷ c ∷ e ∷ body) (record { id = a * 256 + b; body = take k body })
            (drop k body)
            (ap (λ t. a ∷ b ∷ c ∷ e ∷ t) (sym (take-append-drop k body))
              ∙ ap (λ t. t ++ drop k body)
                  (sym (frame_eq a b c e (take k body) h.0 h.1.0 h.1.1.0 h.1.1.1.0 (sym size))))
            (omega arith, omega arith) more
      | inr short ↦ Framed-none (a ∷ b ∷ c ∷ e ∷ body) (leb→lt k (length body) short)
    ]

-- Every byte sequence is whole extensions with a cut tail.
pub framed : (d : Bytes) → IsBytes d → Framed d
framed d h = Framed-below (suc (length d)) d (omega arith) h

extensions_loop-Returns :
    (fuel : ℕ) (d : Bytes) (o : ℕ) (found : List Extension)
    → length d < fuel + o
    → 0 < fuel
    → Returns (λ _. Unit) (extensions_loop fuel d o found)
unfolding extensions_loop
extensions_loop-Returns zero d o found f p = absurd (omega arith)
extensions_loop-Returns (suc fuel) d o found f p = elim (Bool-cases (leb (o + 4) (length d))) [
  | inr done ↦ rw done tt
  | inl more ↦
      let fits : o + 4 ≤ length d = leb→le (o + 4) (length d) more in
      rw more (
        Returns->>= _ _ (u16_at d o) _ (u16_at-Returns d o (omega arith)) λ id _.
          Returns->>= _ _ (u16_at d (o + 2)) _ (u16_at-Returns d (o + 2) (omega arith)) λ n _.
            elim (Bool-cases (ltb (length d) (o + 4 + n))) [
              | inl cut ↦ rw cut tt
              | inr whole ↦ rw whole (
                  Returns->>= _ _ (slice d (o + 4) (o + 4 + n)) _
                    (slice-Returns d (o + 4) (o + 4 + n) (omega arith)
                      (ltb→le (length d) (o + 4 + n) whole))
                    λ body _.
                      extensions_loop-Returns fuel d (o + 4 + n)
                        (found ++ record { ext_type = from_u16 id; content = body } ∷ [])
                        (omega arith) (omega arith))
            ])
]

-- On every byte sequence the extensions are found: no index leaves it, and the loop ends.
pub parse_extensions-Returns : (d : Bytes) → Returns (λ _. Unit) (parse_extensions d)
unfolding parse_extensions
parse_extensions-Returns d =
    extensions_loop-Returns (suc (length d)) d 0 [] (omega arith) (omega arith)

-- Every byte sequence is whole extensions and a cut tail, and the parser finds exactly the whole
-- extensions: nothing in the bytes makes it fail.
pub parse_extensions-whole :
    (d : Bytes) → IsBytes d → (p : Framed d) × (parse_extensions d ≡ ok (map decode p.whole))
parse_extensions-whole d h =
    let p = framed d h in
    (
      p,
      ap parse_extensions p.splits ∙ parse_extensions-frames p.whole p.cut p.whole_raw p.cut_short,
    )
