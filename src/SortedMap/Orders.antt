-- ===== src/SortedMap/Orders.antt =====
-- The orders of the keys: numbers, and the derived order of arrays and tuples.
use tls_probe.Prelude.{ℕ, ◌≡◌, refl, Bool, true, false, ◌&&◌, ◌||◌, not, List, [], ◌∷◌, arith, ltb}
use tls_probe.SortedMap.{KeyOrder}

pub ltb_irrefl : (a : ℕ) → ltb a a ≡ false
ltb_irrefl a = ground arith

pub ltb_trans : (a b c : ℕ) → ltb a b ≡ true → ltb b c ≡ true → ltb a c ≡ true
ltb_trans a b c h k = ground arith

pub ltb_total : (a b : ℕ) → ltb a b ≡ false → ltb b a ≡ false → a ≡ b
ltb_total a b h k = ground arith

abbrev pub number_order : KeyOrder ℕ
number_order = record {
  lt = ltb;
  lt_irrefl = ltb_irrefl;
  lt_trans = ltb_trans;
  lt_total = ltb_total;
}

module _ {A : Type 0} (o : KeyOrder A) where
  -- Lexicographic: the first difference decides.
  abbrev pub lex_lt : List A → List A → Bool
  lex_lt [] [] = false
  lex_lt [] (b ∷ bs) = true
  lex_lt (a ∷ as') [] = false
  lex_lt (a ∷ as') (b ∷ bs) = o.lt a b || (not (o.lt b a) && lex_lt as' bs)

  pub lex_irrefl : (a : List A) → lex_lt a a ≡ false
  lex_irrefl [] = refl
  lex_irrefl (a ∷ as') = rw (o.lt_irrefl a) (lex_irrefl as')

  pub lex_total : (a b : List A) → lex_lt a b ≡ false → lex_lt b a ≡ false → a ≡ b
  lex_total [] [] h k = refl
  lex_total [] (b ∷ bs) h k = cc
  lex_total (a ∷ as') [] h k = cc
  lex_total (a ∷ as') (b ∷ bs) h k = ground (arith, o.lt_total a b, lex_total as' bs)

  pub lex_trans : (a b c : List A) → lex_lt a b ≡ true → lex_lt b c ≡ true → lex_lt a c ≡ true
  lex_trans [] [] c h k = cc
  lex_trans [] (b ∷ bs) [] h k = cc
  lex_trans [] (b ∷ bs) (c ∷ cs) h k = refl
  lex_trans (a ∷ as') [] c h k = cc
  lex_trans (a ∷ as') (b ∷ bs) [] h k = cc
  lex_trans (a ∷ as') (b ∷ bs) (c ∷ cs) h k = ground (
    arith,
    o.lt_trans a b c,
    o.lt_trans c a b,
    o.lt_trans b c a,
    o.lt_trans c b a,
    o.lt_trans b a c,
    o.lt_total a b,
    o.lt_total b c,
    o.lt_irrefl a,
    o.lt_irrefl b,
    o.lt_irrefl c,
    lex_trans as' bs cs,
  )

  abbrev pub list_order : KeyOrder (List A)
  list_order = record {
    lt = lex_lt;
    lt_irrefl = lex_irrefl;
    lt_trans = lex_trans;
    lt_total = lex_total;
  }
