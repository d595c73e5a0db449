-- ===== src/Text/Words/Parts.antt =====
-- The words and the lines of a text that is put together from them.
use mathlib.Core.List.{reverse-append}
use tls_probe.Prelude.{
  ℕ, zero, suc, ◌≡◌, refl, sym, ap, ◌∙◌, true, false, List, [], ◌∷◌, ◌++◌, append_assoc, none,
  arith, ◌==◌, All, All-append,
}
use tls_probe.Text.{split, strip_suffix}
use tls_probe.Text.Pieces.{IsFree, split-append}
use tls_probe.Text.Words.{
  is_white, is_word, spaced, split_whitespace, without_return, ended_lines, lines,
}
use tls_probe.Wire.{Bytes}

-- No character of a word is white, and there is one.
abbrev pub IsDark : Bytes → Type 0
IsDark w = All (λ (c : ℕ). is_white c ≡ false) w

pub record IsWord (w : Bytes) : Type 0 where
  pub dark : IsDark w
  pub some_of_it : is_word w ≡ true

spaced-append : (w r : Bytes) → spaced (w ++ r) ≡ spaced w ++ spaced r
spaced-append [] r = refl
spaced-append (c ∷ w) r = rw (spaced-append w r)

spaced-IsDark : (w : Bytes) → IsDark w → spaced w ≡ w
spaced-IsDark [] h = refl
spaced-IsDark (c ∷ w) h = rw (h.0, spaced-IsDark w h.1)

dark_free : (c : ℕ) → is_white c ≡ false → (c == 32) ≡ false
dark_free c h = ground arith

IsDark-IsFree : (w : Bytes) → IsDark w → IsFree 32 w
IsDark-IsFree [] h = tt
IsDark-IsFree (c ∷ w) h = (dark_free c h.0, IsDark-IsFree w h.1)

-- A word and a space.
pub split_whitespace-word :
    (w r : Bytes) → IsWord w → split_whitespace (w ++ (32 ∷ r)) ≡ w ∷ split_whitespace r
unfolding split_whitespace
split_whitespace-word w r h = rw (
  spaced-append w (32 ∷ r),
  spaced-IsDark w h.dark,
  split-append 32 w (spaced r) (IsDark-IsFree w h.dark),
  h.some_of_it,
)

-- Spaces before a text.
abbrev pub indent : ℕ → Bytes → Bytes
indent zero s = s
indent (suc n) s = 32 ∷ indent n s

split_space : (s : Bytes) → split_whitespace (32 ∷ s) ≡ split_whitespace s
unfolding split_whitespace
split_space s = refl

pub split_whitespace-indent :
    (n : ℕ) (s : Bytes) → split_whitespace (indent n s) ≡ split_whitespace s
split_whitespace-indent zero s = refl
split_whitespace-indent (suc n) s = split_space (indent n s) ∙ split_whitespace-indent n s

-- Lines that each end in a line feed, with a space before it.
abbrev pub table : List Bytes → Bytes
table [] = []
table (row ∷ rows) = row ++ (32 ∷ 10 ∷ table rows)

abbrev pub rows_of : List Bytes → List Bytes
rows_of [] = []
rows_of (row ∷ rows) = (row ++ (32 ∷ [])) ∷ rows_of rows

no_return : (s : Bytes) → without_return (s ++ (32 ∷ [])) ≡ s ++ (32 ∷ [])
no_return s =
    let e : strip_suffix (13 ∷ []) (s ++ (32 ∷ [])) ≡ none = rw (reverse-append s (32 ∷ [])) in
    rw (without_return, e)

row-IsFree : (row : Bytes) → IsFree 10 row → IsFree 10 (row ++ (32 ∷ []))
row-IsFree row h = All-append _ row (32 ∷ []) h (refl, tt)

split-row :
    (row r : Bytes)
    → IsFree 10 row
    → split 10 (row ++ (32 ∷ 10 ∷ r)) ≡ (row ++ (32 ∷ [])) ∷ split 10 r
split-row row r h =
    ap (split 10) (sym (append_assoc row (32 ∷ []) (10 ∷ r)))
    ∙ split-append 10 (row ++ (32 ∷ [])) r (row-IsFree row h)

ended_row :
    (row : Bytes) (s : Bytes) (ss : List Bytes)
    → ended_lines ((row ++ (32 ∷ [])) ∷ s ∷ ss) ≡ (row ++ (32 ∷ [])) ∷ ended_lines (s ∷ ss)
ended_row row s ss = rw (no_return row)

abbrev EndedSplit : (rows : List Bytes) → Type 0
EndedSplit rows =
    (p : Bytes) × (ps : List Bytes) × (split 10 (table rows) ≡ p ∷ ps)
    × (ended_lines (p ∷ ps) ≡ rows_of rows)

split-table : (rows : List Bytes) → All (IsFree 10) rows → EndedSplit rows
split-table [] h = ([], [], refl, refl)
split-table (row ∷ rows) h =
    let rest = split-table rows h.1 in
    (
      row ++ (32 ∷ []),
      rest.0 ∷ rest.1,
      split-row row (table rows) h.0 ∙ rw (rest.2),
      ended_row row (rest.0) (rest.1) ∙ rw (rest.3),
    )

pub lines-table : (rows : List Bytes) → All (IsFree 10) rows → lines (table rows) ≡ rows_of rows
unfolding lines
lines-table rows h = let found = split-table rows h in rw (found.2) (found.3)
