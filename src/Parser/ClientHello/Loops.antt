-- ===== src/Parser/ClientHello/Loops.antt =====
-- The two `while` loops of `parse_client_hello`: what they find on framed bytes, and that they end.
use tls_probe.Outcome.{ok, Returns, Returns->>=, Returns-map}
use tls_probe.Parser.ClientHello.{cipher_loop, extension_ids_loop}
use tls_probe.Parser.Extensions.Framing.{RawExtension, IsRaw, frame, frames, IsCut}
use tls_probe.Prelude.{
  ℕ, zero, suc, ◌+◌, ◌-◌, ◌*◌, ◌≤◌, ◌<◌, ◌≡◌, ap, ◌∙◌, inl, inr, List, [], ◌∷◌, ◌++◌, map,
  append_assoc, append-nil, arith, Bool-cases, leb, leb→le, le→leb, lt→leb, length, length-append,
  All,
}
use tls_probe.Wire.{Bytes, IsU16, u16_be, u16_at, u16_list}
use tls_probe.Wire.Cursor.{Cursor, Cursor-skip, Cursor-to, u16_at-be, u16_at-Cursor, u16_at-Returns}

pub cipher_loop-Returns :
    (fuel : ℕ) (d : Bytes) (o end : ℕ) (found : List ℕ)
    → end ≤ length d
    → end < fuel + o
    → 0 < fuel
    → Returns (λ cs. 2 * length cs ≤ 2 * length found + (end - o)) (cipher_loop fuel d o end found)
unfolding cipher_loop
cipher_loop-Returns zero d o end found e f p = absurd (omega arith)
cipher_loop-Returns (suc fuel) d o end found e f p = elim (Bool-cases (leb (o + 2) end)) [
  | inr done ↦ rw done (omega arith)
  | inl more ↦
      let fits : o + 2 ≤ end = leb→le (o + 2) end more in
      rw more (
        Returns->>= _ _ (u16_at d o) _ (u16_at-Returns d o (omega arith)) λ v _.
          Returns-map _ _ (cipher_loop fuel d (o + 2) end (found ++ v ∷ []))
            (cipher_loop-Returns fuel d (o + 2) end (found ++ v ∷ []) e (omega arith) (omega arith))
            λ cs h. omega (arith, h, length-append found (v ∷ [])))
]

-- On written numbers the loop finds them all.
pub cipher_loop-u16_list :
    (cs : List ℕ) (fuel : ℕ) (d : Bytes) (o end : ℕ) (found : List ℕ) (rest : Bytes)
    → All IsU16 cs
    → Cursor d o (u16_list cs ++ rest)
    → end ≡ o + 2 * length cs
    → length cs < fuel
    → cipher_loop fuel d o end found ≡ ok (found ++ cs)
unfolding cipher_loop
cipher_loop-u16_list cs zero d o end found rest h c q f = absurd (omega arith)
cipher_loop-u16_list [] (suc fuel) d o end found rest h c q f =
    rw (lt→leb (o + 2) end (omega arith), append-nil)
cipher_loop-u16_list (v ∷ cs) (suc fuel) d o end found rest h c q f =
    rw (le→leb (o + 2) end (omega arith), u16_at-be d o v (u16_list cs ++ rest) c)
      (cipher_loop-u16_list cs fuel d (o + 2) end (found ++ v ∷ []) rest h.1
          (Cursor-skip d o (u16_be v) (u16_list cs ++ rest) c) (omega arith) (omega arith)
        ∙ ap ok (append_assoc found (v ∷ []) cs))

pub extension_ids_loop-Returns :
    (fuel : ℕ) (d : Bytes) (o end : ℕ) (found : List ℕ)
    → end ≤ length d
    → end < fuel + o
    → 0 < fuel
    → Returns (λ _. Unit) (extension_ids_loop fuel d o end found)
unfolding extension_ids_loop
extension_ids_loop-Returns zero d o end found e f p = absurd (omega arith)
extension_ids_loop-Returns (suc fuel) d o end found e f p = elim (Bool-cases (leb (o + 4) end)) [
  | inr done ↦ rw done tt
  | inl more ↦
      let fits : o + 4 ≤ end = leb→le (o + 4) end more in
      rw more (
        Returns->>= _ _ (u16_at d o) _ (u16_at-Returns d o (omega arith)) λ id _.
          Returns->>= _ _ (u16_at d (o + 2)) _ (u16_at-Returns d (o + 2) (omega arith)) λ n _.
            extension_ids_loop-Returns fuel d (o + (4 + n)) end (found ++ id ∷ []) e (omega arith)
              (omega arith))
]

-- The number of an extension whose header is there and whose content is cut off.
abbrev pub cut_ids : Bytes → List ℕ
cut_ids (a ∷ b ∷ c ∷ e ∷ body) = (a * 256 + b) ∷ []
cut_ids _ = []

ids_stop :
    (fuel : ℕ) (d : Bytes) (o end : ℕ) (found : List ℕ)
    → end < o + 4
    → extension_ids_loop (suc fuel) d o end found ≡ ok found
unfolding extension_ids_loop
ids_stop fuel d o end found h = rw (lt→leb (o + 4) end h)

ids_cut :
    (cut : Bytes) (fuel : ℕ) (d : Bytes) (o end : ℕ) (found : List ℕ) (rest : Bytes)
    → IsCut cut
    → Cursor d o (cut ++ rest)
    → end ≡ o + length cut
    → extension_ids_loop (suc (suc fuel)) d o end found ≡ ok (found ++ cut_ids cut)
ids_cut [] fuel d o end found rest h c q =
    rw append-nil (ids_stop (suc fuel) d o end found (omega arith))
ids_cut (a ∷ []) fuel d o end found rest h c q =
    rw append-nil (ids_stop (suc fuel) d o end found (omega arith))
ids_cut (a ∷ b ∷ []) fuel d o end found rest h c q =
    rw append-nil (ids_stop (suc fuel) d o end found (omega arith))
ids_cut (a ∷ b ∷ e ∷ []) fuel d o end found rest h c q =
    rw append-nil (ids_stop (suc fuel) d o end found (omega arith))
ids_cut (a ∷ b ∷ e ∷ f ∷ body) fuel d o end found rest h c q =
    unfold extension_ids_loop in
    rw
      (
        le→leb (o + 4) end (omega arith),
        u16_at-Cursor d o a b (e ∷ f ∷ (body ++ rest)) c,
        u16_at-Cursor d (o + 2) e f (body ++ rest)
            (Cursor-skip d o (a ∷ b ∷ []) (e ∷ f ∷ (body ++ rest)) c),
      )
      (ids_stop fuel d (o + (4 + (e * 256 + f))) end (found ++ (a * 256 + b) ∷ []) (omega arith))

-- On framed extensions the loop finds the number of each, also of one that is cut off behind its
-- header.
pub extension_ids_loop-frames :
    (es : List RawExtension) (cut : Bytes) (fuel : ℕ) (d : Bytes) (o end : ℕ) (found : List ℕ)
    (rest : Bytes)
    → All IsRaw es
    → IsCut cut
    → Cursor d o (frames es ++ (cut ++ rest))
    → end ≡ o + (length (frames es) + length cut)
    → suc (length es) < fuel
    → extension_ids_loop fuel d o end found ≡ ok (found ++ (map (λ e. e.id) es ++ cut_ids cut))
unfolding extension_ids_loop
extension_ids_loop-frames es cut zero d o end found rest h k c q f = absurd (omega arith)
extension_ids_loop-frames es cut (suc zero) d o end found rest h k c q f = absurd (omega arith)
extension_ids_loop-frames [] cut (suc (suc fuel)) d o end found rest h k c q f =
    ids_cut cut fuel d o end found rest k c (omega arith)
extension_ids_loop-frames (x ∷ es) cut (suc (suc fuel)) d o end found rest h k c q f =
    let n = length x.body in
    let more : Bytes = frames es ++ (cut ++ rest) in
    let c₀ : Cursor d o (frame x ++ more) =
      rw (← append_assoc (frame x) (frames es) (cut ++ rest)) c in
    let c₂ = Cursor-skip d o (u16_be x.id) (u16_be n ++ (x.body ++ more)) c₀ in
    let size : 4 + n + length (frames es) ≡ length (frames (x ∷ es)) =
      omega (arith, length-append (frame x) (frames es)) in
    rw (le→leb (o + 4) end (omega arith), u16_at-be d o x.id _ c₀, u16_at-be d (o + 2) n _ c₂)
      (extension_ids_loop-frames es cut (suc fuel) d (o + (4 + n)) end (found ++ x.id ∷ []) rest h.1
          k (Cursor-to d o (frame x) more (o + (4 + n)) c₀ (omega arith)) (omega arith)
          (omega arith)
        ∙ ap ok (append_assoc found (x.id ∷ []) (map (λ e. e.id) es ++ cut_ids cut)))
