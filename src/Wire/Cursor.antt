-- ===== src/Wire/Cursor.antt =====
-- Reads at an offset, in terms of what stands there.
use tls_probe.Outcome.{ok, Returns, Returns-ok, Returns->>=}
use tls_probe.Prelude.{
  ℕ, ◌+◌, ◌-◌, ◌*◌, ◌/◌, ◌%◌, ◌≤◌, ◌<◌, ◌≡◌, refl, ap, ◌∙◌, [], ◌∷◌, ◌++◌, some, arith, le→leb,
  length, get_elem?, drop, length-append, length-take, length-drop, take-append, drop-append,
  get_elem?_of_lt, get_elem?-drop, drop-add,
}
use tls_probe.Wire.{Bytes, byte_at, u16_at, slice, u16_be}

-- At `offset` of `data'` stands `rest`, up to the end.
pub record Cursor (data' : Bytes) (offset : ℕ) (rest : Bytes) : Type 0 where
  pub here : drop offset data' ≡ rest
  pub size : offset + length rest ≡ length data'

pub Cursor-start : (data' : Bytes) → Cursor data' 0 data'
Cursor-start data' = record { here = refl; size = omega arith }

pub Cursor-any : (data' : Bytes) (o : ℕ) → o ≤ length data' → Cursor data' o (drop o data')
Cursor-any data' o h = record { here = refl; size = omega (arith, length-drop o data') }

pub Cursor-skip :
    (data' : Bytes) (o : ℕ) (xs rest : Bytes)
    → Cursor data' o (xs ++ rest)
    → Cursor data' (o + length xs) rest
Cursor-skip data' o xs rest c = record {
  here = drop-add o (length xs) data' ∙ ap (drop (length xs)) c.here ∙ drop-append xs rest;
  size = omega (arith, c.size, length-append xs rest);
}

-- The same, with the new offset in any form.
pub Cursor-to :
    (data' : Bytes) (o : ℕ) (xs rest : Bytes) (o' : ℕ)
    → Cursor data' o (xs ++ rest)
    → o' ≡ o + length xs
    → Cursor data' o' rest
Cursor-to data' o xs rest o' c e = rw e (Cursor-skip data' o xs rest c)

pub byte_at-Cursor :
    (data' : Bytes) (o b : ℕ) (rest : Bytes) → Cursor data' o (b ∷ rest) → byte_at data' o ≡ ok b
unfolding byte_at
byte_at-Cursor data' o b rest c = rw (get_elem?-drop o data' b c.here, byte_at)

pub u16_at-Cursor :
    (data' : Bytes) (o hi lo : ℕ) (rest : Bytes)
    → Cursor data' o (hi ∷ lo ∷ rest)
    → u16_at data' o ≡ ok (hi * 256 + lo)
unfolding u16_at
u16_at-Cursor data' o hi lo rest c = rw (
  byte_at-Cursor data' o hi (lo ∷ rest) c,
  byte_at-Cursor data' (o + 1) lo rest (Cursor-skip data' o (hi ∷ []) (lo ∷ rest) c),
)

pub u16_at-be :
    (data' : Bytes) (o v : ℕ) (rest : Bytes)
    → Cursor data' o (u16_be v ++ rest)
    → u16_at data' o ≡ ok v
u16_at-be data' o v rest c = u16_at-Cursor data' o (v / 256) (v % 256) rest c ∙ ap ok (omega arith)

pub slice-Cursor :
    (data' : Bytes) (o e : ℕ) (xs rest : Bytes)
    → Cursor data' o (xs ++ rest)
    → e ≡ o + length xs
    → slice data' o e ≡ ok xs
unfolding slice
slice-Cursor data' o e xs rest c q =
    let short : e ≤ length data' = omega (arith, c.size, length-append xs rest) in
    let n : e - o ≡ length xs = omega arith in
    rw (le→leb o e (omega arith), le→leb e (length data') short, n, c.here, take-append xs rest)

-- In range, a read returns.
pub byte_at-Returns :
    (data' : Bytes) (i : ℕ)
    → i < length data'
    → Returns (λ b. get_elem? data' i ≡ some b) (byte_at data' i)
unfolding byte_at
byte_at-Returns data' i h =
    let (b, e) = get_elem?_of_lt data' i h in Returns-ok _ (byte_at data' i) b (rw (e, byte_at)) e

pub u16_at-Returns :
    (data' : Bytes) (i : ℕ) → i + 1 < length data' → Returns (λ _. Unit) (u16_at data' i)
unfolding u16_at
u16_at-Returns data' i h =
    Returns->>= _ _ (byte_at data' i) _ (byte_at-Returns data' i (omega arith))
      λ b _. Returns->>= _ _ (byte_at data' (i + 1)) _ (byte_at-Returns data' (i + 1) h) λ c _. tt

pub slice-Returns :
    (data' : Bytes) (a b : ℕ)
    → a ≤ b
    → b ≤ length data'
    → Returns (λ xs. length xs ≡ b - a) (slice data' a b)
unfolding slice
slice-Returns data' a b h k =
    rw (le→leb a b h, le→leb b (length data') k)
      (omega (arith, length-take (b - a) (drop a data'), length-drop a data'))
