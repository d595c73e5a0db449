-- ===== src/Parser/Extensions/Numbers.antt =====
-- The extensions that hold a list of u16 numbers: versions, groups, signature algorithms, and the
-- groups of key shares.
use tls_probe.Outcome.{ok, ◌>>=◌}
use tls_probe.Parser.Extensions.{
  ExtensionType, Extension, u16_loop, extract_supported_versions, extract_supported_groups,
  extract_signature_algorithms, extract_signature_algorithms_cert,
}
use tls_probe.Prelude.{
  ℕ, zero, suc, ◌+◌, ◌-◌, ◌*◌, ◌/◌, ◌%◌, ◌<◌, ◌≡◌, refl, ap, ◌∙◌, ◌⊎◌, inl, inr, true, false, ◌&&◌,
  Bool, List, [], ◌∷◌, ◌++◌, append_assoc, append-nil, arith, Bool-cases, leb, ltb, le→leb, le→ltb,
  ltb→lt, ltb→le, ◌==◌, length, All, if◌then◌else◌,
}
use tls_probe.Wire.{Bytes, IsU16, u16_be, u16_at, u16_list}
use tls_probe.Wire.Cursor.{Cursor, Cursor-start, Cursor-skip, u16_at-Cursor, byte_at-Cursor}

-- The numbers at the front of the bytes, as long as the budget of bytes is not used up. One that
-- starts within the budget is read whole.
pub u16s : ℕ → Bytes → List ℕ
u16s zero d = []
u16s (suc n) [] = []
u16s (suc n) (a ∷ []) = []
u16s (suc zero) (a ∷ b ∷ d) = (a * 256 + b) ∷ []
u16s (suc (suc n)) (a ∷ b ∷ d) = (a * 256 + b) ∷ u16s n d

-- A list behind its length in two bytes, or in one.
unfoldable pub sized_u16s : Bytes → List ℕ
sized_u16s (a ∷ b ∷ d) = u16s (a * 256 + b) d
sized_u16s _ = []

unfoldable pub short_u16s : Bytes → List ℕ
short_u16s (a ∷ d) = u16s a d
short_u16s [] = []

u16s-step :
    (n : ℕ) (a b : ℕ) (d : Bytes) → 0 < n → u16s n (a ∷ b ∷ d) ≡ (a * 256 + b) ∷ u16s (n - 2) d
unfolding u16s
u16s-step zero a b d h = absurd (omega arith)
u16s-step (suc zero) a b d h = refl
u16s-step (suc (suc n)) a b d h = let e : suc (suc n) - 2 ≡ n = omega arith in rw e

u16s-short : (n : ℕ) (d : Bytes) → (n ≡ 0) ⊎ (length d < 2) → u16s n d ≡ []
unfolding u16s
u16s-short zero d h = refl
u16s-short (suc n) [] h = refl
u16s-short (suc n) (a ∷ []) h = refl
u16s-short (suc n) (a ∷ b ∷ d) h = absurd (omega arith)

loop_stop :
    (fuel : ℕ) (d : Bytes) (o limit : ℕ) (found : List ℕ) (rest : Bytes)
    → Cursor d o rest
    → (limit - o ≡ 0) ⊎ (length rest < 2)
    → u16_loop (suc fuel) d o limit found ≡ ok (found ++ u16s (limit - o) rest)
unfolding u16_loop
loop_stop fuel d o limit found rest c h =
    let stop : (leb (o + 2) (length d) && ltb o limit) ≡ false = ground (arith, c.size) in
    rw (stop, u16s-short (limit - o) rest h, append-nil)

-- The loop finds what stands at its offset, whatever the bytes are.
pub u16_loop-u16s :
    (fuel : ℕ) (d : Bytes) (o limit : ℕ) (found : List ℕ) (rest : Bytes)
    → Cursor d o rest
    → length rest < fuel
    → u16_loop fuel d o limit found ≡ ok (found ++ u16s (limit - o) rest)
unfolding u16_loop
u16_loop-u16s zero d o limit found rest c f = absurd (omega arith)
u16_loop-u16s (suc fuel) d o limit found [] c f =
    loop_stop fuel d o limit found [] c (inr (omega arith))
u16_loop-u16s (suc fuel) d o limit found (a ∷ []) c f =
    loop_stop fuel d o limit found (a ∷ []) c (inr (omega arith))
u16_loop-u16s (suc fuel) d o limit found (a ∷ b ∷ rest) c f = elim (Bool-cases (ltb o limit)) [
  | inl more ↦
      let n : limit - (o + 2) ≡ limit - o - 2 = omega arith in
      rw (le→leb (o + 2) (length d) (omega (arith, c.size)), more, u16_at-Cursor d o a b rest c)
        (u16_loop-u16s fuel d (o + 2) limit (found ++ (a * 256 + b) ∷ []) rest
            (Cursor-skip d o (a ∷ b ∷ []) rest c) (omega arith)
          ∙ rw (
            u16s-step (limit - o) a b rest (omega (arith, ltb→lt o limit more)),
            n,
            append_assoc,
          ))
  | inr done ↦
      loop_stop fuel d o limit found (a ∷ b ∷ rest) c (inl (omega (arith, ltb→le o limit done)))
]

-- The body that three of the extractors share, at every content.
sized-read :
    (d : Bytes)
    → (if ltb (length d) 2
        then ok []
        else (u16_at d 0 >>= λ list_len. u16_loop (suc (length d)) d 2 (2 + list_len) []))
      ≡ ok (sized_u16s d)
unfolding sized_u16s
sized-read [] = refl
sized-read (a ∷ []) = refl
sized-read (a ∷ b ∷ d) =
    let whole : Bytes = a ∷ b ∷ d in
    let c = Cursor-start whole in
    let n : 2 + (a * 256 + b) - 2 ≡ a * 256 + b = omega arith in
    rw (le→ltb (length whole) 2 (omega arith), u16_at-Cursor whole 0 a b d c)
      (u16_loop-u16s (suc (length whole)) whole 2 (2 + (a * 256 + b)) [] d
          (Cursor-skip whole 0 (a ∷ b ∷ []) d c) (omega arith)
        ∙ rw n)

pub extract_supported_groups_lem :
    (ext : Extension) → extract_supported_groups ext ≡ ok (sized_u16s ext.content)
unfolding extract_supported_groups
extract_supported_groups_lem ext = sized-read ext.content

pub extract_signature_algorithms_lem :
    (ext : Extension) → extract_signature_algorithms ext ≡ ok (sized_u16s ext.content)
unfolding extract_signature_algorithms
extract_signature_algorithms_lem ext = sized-read ext.content

pub extract_signature_algorithms_cert_lem :
    (ext : Extension) → extract_signature_algorithms_cert ext ≡ ok (sized_u16s ext.content)
unfolding extract_signature_algorithms_cert
extract_signature_algorithms_cert_lem ext = sized-read ext.content

-- A client's versions stand behind one length byte.
client_versions :
    (ty : ExtensionType) (d : Bytes)
    → extract_supported_versions (record { ext_type = ty; content = d }) true ≡ ok (short_u16s d)
unfolding extract_supported_versions short_u16s
client_versions ty [] = refl
client_versions ty (a ∷ d) =
    let whole : Bytes = a ∷ d in
    let c = Cursor-start whole in
    let n : 1 + a - 1 ≡ a = omega arith in
    let z : (suc (length d) == 0) ≡ false = ground arith in
    rw (z, byte_at-Cursor whole 0 a d c)
      (u16_loop-u16s (suc (length whole)) whole 1 (1 + a) [] d (Cursor-skip whole 0 (a ∷ []) d c)
          (omega arith)
        ∙ rw n)

-- A server's selected number is the first of its extension; what follows is not read.
unfoldable pub first_u16 : Bytes → List ℕ
first_u16 (a ∷ b ∷ d) = (a * 256 + b) ∷ []
first_u16 _ = []

first-read :
    (d : Bytes)
    → (if leb 2 (length d) then (u16_at d 0 >>= λ v. ok (v ∷ [])) else ok []) ≡ ok (first_u16 d)
unfolding first_u16
first-read [] = refl
first-read (a ∷ []) = refl
first-read (a ∷ b ∷ d) = rw (
  le→leb 2 (length (a ∷ b ∷ d)) (omega arith),
  u16_at-Cursor (a ∷ b ∷ d) 0 a b d (Cursor-start (a ∷ b ∷ d)),
)

pub extract_supported_versions_lem :
    (ext : Extension) (is_client : Bool)
    → extract_supported_versions ext is_client
      ≡ ok (if is_client then short_u16s ext.content else first_u16 ext.content)
unfolding extract_supported_versions
extract_supported_versions_lem ext true = client_versions ext.ext_type ext.content
extract_supported_versions_lem ext false = first-read ext.content

-- On bytes that a writer made, the numbers are the ones written.
pub u16s-u16_list :
    (vs : List ℕ) (rest : Bytes) → All IsU16 vs → u16s (2 * length vs) (u16_list vs ++ rest) ≡ vs
u16s-u16_list [] rest h = u16s-short 0 rest (inl refl)
u16s-u16_list (v ∷ vs) rest h =
    let n : 2 * length (v ∷ vs) - 2 ≡ 2 * length vs = omega arith in
    let e : v / 256 * 256 + v % 256 ≡ v = omega arith in
    u16s-step (2 * length (v ∷ vs)) (v / 256) (v % 256) (u16_list vs ++ rest) (omega arith)
    ∙ rw (n, e, u16s-u16_list vs rest h.1)

pub sized_u16s-u16_list :
    (vs : List ℕ) (rest : Bytes)
    → All IsU16 vs
    → IsU16 (2 * length vs)
    → sized_u16s (u16_be (2 * length vs) ++ (u16_list vs ++ rest)) ≡ vs
unfolding sized_u16s
sized_u16s-u16_list vs rest h k =
    let n : ℕ = 2 * length vs in
    let e : n / 256 * 256 + n % 256 ≡ n = omega arith in rw e (u16s-u16_list vs rest h)

-- The list of a client's versions behind one length byte.
short_u16s-u16_list :
    (vs : List ℕ) (rest : Bytes)
    → All IsU16 vs
    → short_u16s (2 * length vs ∷ (u16_list vs ++ rest)) ≡ vs
unfolding short_u16s
short_u16s-u16_list vs rest h = u16s-u16_list vs rest h

abbrev pub typed : ExtensionType → Bytes → Extension
typed ty content = record { ext_type = ty; content = content }

-- 16-bit numbers written behind their length in bytes, itself of 16 bits, are read back, all
-- of them and in order, whatever bytes follow: groups, both kinds of signature algorithms, and
-- a client's versions behind a single number for that length.
pub extract-u16_list :
    (ty : ExtensionType) (vs : List ℕ) (rest : Bytes)
    → All IsU16 vs
    → IsU16 (2 * length vs)
    → (extract_supported_groups (typed ty (u16_be (2 * length vs) ++ (u16_list vs ++ rest)))
        ≡ ok vs)
      × (extract_signature_algorithms (typed ty (u16_be (2 * length vs) ++ (u16_list vs ++ rest)))
          ≡ ok vs)
      × (extract_signature_algorithms_cert
            (typed ty (u16_be (2 * length vs) ++ (u16_list vs ++ rest)))
          ≡ ok vs)
      × (extract_supported_versions (typed ty (2 * length vs ∷ (u16_list vs ++ rest))) true ≡ ok vs)
extract-u16_list ty vs rest h k =
    let content = u16_be (2 * length vs) ++ (u16_list vs ++ rest) in
    let same = ap ok (sized_u16s-u16_list vs rest h k) in
    let e = typed ty content in
    let v = typed ty (2 * length vs ∷ (u16_list vs ++ rest)) in
    (
      extract_supported_groups_lem e ∙ same,
      extract_signature_algorithms_lem e ∙ same,
      extract_signature_algorithms_cert_lem e ∙ same,
      extract_supported_versions_lem v true ∙ ap ok (short_u16s-u16_list vs rest h),
    )
