-- ===== src/Parser/Extensions/Names.antt =====
-- The extensions that hold names, and the groups of key shares: what the loops do on framed bytes,
-- and that they end on all bytes.
use tls_probe.Outcome.{ok, Returns, Returns->>=}
use tls_probe.Parser.Extensions.{
  ExtensionType, Extension, key_share_loop, extract_key_share_groups, alpn_loop, extract_alpn,
}
use tls_probe.Parser.Extensions.Framing.{RawExtension, IsRaw, frame, frames}
use tls_probe.Prelude.{
  ℕ, zero, suc, ◌+◌, ◌≤◌, ◌<◌, ◌≡◌, refl, ap, ◌∙◌, inl, inr, true, false, ◌&&◌, Bool, List, [], ◌∷◌,
  ◌++◌, map, append_assoc, append-nil, arith, Bool-cases, leb, ltb, leb→le, le→leb, lt→leb, lt→ltb,
  le→ltb, ltb→le, length, length-append, All,
}
use tls_probe.Utf8.{from_utf8_lossy}
use tls_probe.Wire.{Bytes, IsU16, u16_be, u16_at, byte_at, slice}
use tls_probe.Wire.Cursor.{
  Cursor, Cursor-start, Cursor-skip, Cursor-to, u16_at-be, byte_at-Cursor, u16_at-Returns,
  byte_at-Returns, slice-Returns, slice-Cursor,
}

key_share_loop-Returns :
    (fuel : ℕ) (d : Bytes) (o limit : ℕ) (found : List ℕ)
    → length d < fuel + o
    → 0 < fuel
    → Returns (λ _. Unit) (key_share_loop fuel d o limit found)
unfolding key_share_loop
key_share_loop-Returns zero d o limit found f p = absurd (omega arith)
key_share_loop-Returns (suc fuel) d o limit found f p =
    elim (Bool-cases (leb (o + 4) (length d) && ltb o limit)) [
      | inr done ↦ rw done tt
      | inl more ↦
          let fits : o + 4 ≤ length d = ground arith in
          rw more (
            Returns->>= _ _ (u16_at d o) _ (u16_at-Returns d o (omega arith)) λ group _.
              Returns->>= _ _ (u16_at d (o + 2)) _ (u16_at-Returns d (o + 2) (omega arith))
                λ key_len _.
                  key_share_loop-Returns fuel d (o + (4 + key_len)) limit (found ++ group ∷ [])
                    (omega arith) (omega arith))
    ]

-- On every content the groups are found: no index leaves it, and the loop ends.
pub extract_key_share_groups-Returns :
    (ext : Extension) (is_client : Bool)
    → Returns (λ _. Unit) (extract_key_share_groups ext is_client)
unfolding extract_key_share_groups
extract_key_share_groups-Returns ext true = elim (Bool-cases (ltb (length ext.content) 2)) [
  | inl short ↦ rw short tt
  | inr long ↦ rw long (
      Returns->>= _ _ (u16_at ext.content 0) _
        (u16_at-Returns ext.content 0 (omega (arith, ltb→le (length ext.content) 2 long)))
        λ n _.
          key_share_loop-Returns (suc (length ext.content)) ext.content 2 (2 + n) [] (omega arith)
            (omega arith))
]
extract_key_share_groups-Returns ext false = elim (Bool-cases (leb 2 (length ext.content))) [
  | inr short ↦ rw short tt
  | inl long ↦ rw long (
      Returns->>= _ _ (u16_at ext.content 0) _
        (u16_at-Returns ext.content 0 (omega (arith, leb→le 2 (length ext.content) long)))
        λ v _. tt)
]

-- A key share is framed as an extension is: a group, a length and a key.
key_share_loop-frames :
    (ks : List RawExtension) (fuel : ℕ) (d : Bytes) (o limit : ℕ) (found : List ℕ) (rest : Bytes)
    → All IsRaw ks
    → Cursor d o (frames ks ++ rest)
    → o + length (frames ks) ≡ limit
    → length ks < fuel
    → key_share_loop fuel d o limit found ≡ ok (found ++ map (λ k. k.id) ks)
unfolding key_share_loop
key_share_loop-frames ks zero d o limit found rest h c q f = absurd (omega arith)
key_share_loop-frames [] (suc fuel) d o limit found rest h c q f =
    let stop : (leb (o + 4) (length d) && ltb o limit) ≡ false = ground arith in
    rw (stop, append-nil)
key_share_loop-frames (k ∷ ks) (suc fuel) d o limit found rest h c q f =
    let n = length k.body in
    let c₀ : Cursor d o (frame k ++ (frames ks ++ rest)) =
      rw (← append_assoc (frame k) (frames ks) rest) c in
    let c₂ = Cursor-skip d o (u16_be k.id) (u16_be n ++ (k.body ++ (frames ks ++ rest))) c₀ in
    let size : 4 + n + length (frames ks) ≡ length (frames (k ∷ ks)) =
      omega (arith, length-append (frame k) (frames ks)) in
    let fits : o + 4 ≤ length d = omega (arith, c₂.size) in
    rw
      (
        le→leb (o + 4) (length d) fits,
        lt→ltb o limit (omega arith),
        u16_at-be d o k.id _ c₀,
        u16_at-be d (o + 2) n _ c₂,
      )
      (key_share_loop-frames ks fuel d (o + (4 + n)) limit (found ++ k.id ∷ []) rest h.1
          (Cursor-to d o (frame k) (frames ks ++ rest) (o + (4 + n)) c₀ (omega arith)) (omega arith)
          (omega arith)
        ∙ ap ok (append_assoc found (k.id ∷ []) (map (λ s. s.id) ks)))

abbrev pub share_groups : List RawExtension → List ℕ
share_groups = map (λ k. k.id)

length-frames-le : (ks : List RawExtension) → length ks ≤ length (frames ks)
length-frames-le [] = omega arith
length-frames-le (k ∷ ks) = omega (arith, length-frames-le ks, length-append (frame k) (frames ks))

-- The groups of a client's key shares, written behind their length, are read in order, and
-- what stands behind that length is not read.
pub key_share_groups-frames :
    (ty : ExtensionType) (ks : List RawExtension) (rest : Bytes)
    → All IsRaw ks
    → IsU16 (length (frames ks))
    → extract_key_share_groups
        (record { ext_type = ty; content = u16_be (length (frames ks)) ++ (frames ks ++ rest) })
        true
      ≡ ok (share_groups ks)
unfolding extract_key_share_groups
key_share_groups-frames ty ks rest h k =
    let n = length (frames ks) in
    let d : Bytes = u16_be n ++ (frames ks ++ rest) in
    let c = Cursor-start d in
    rw (le→ltb (length d) 2 (omega arith), u16_at-be d 0 n _ c)
      (key_share_loop-frames ks (suc (length d)) d 2 (2 + n) [] rest h
        (Cursor-skip d 0 (u16_be n) (frames ks ++ rest) c) (omega arith)
        (omega (arith, length-frames-le ks, length-append (frames ks) rest)))

alpn_loop-Returns :
    (fuel : ℕ) (d : Bytes) (o limit : ℕ) (found : List Bytes)
    → length d < fuel + o
    → 0 < fuel
    → Returns (λ _. Unit) (alpn_loop fuel d o limit found)
unfolding alpn_loop
alpn_loop-Returns zero d o limit found f p = absurd (omega arith)
alpn_loop-Returns (suc fuel) d o limit found f p =
    elim (Bool-cases (ltb o (length d) && ltb o limit)) [
      | inr done ↦ rw done tt
      | inl more ↦
          let fits : o < length d = ground arith in
          rw (more, lt→leb (length d) o fits)
            (Returns->>= _ _ (byte_at d o) _ (byte_at-Returns d o fits) λ n _.
              elim (Bool-cases (ltb (length d) (o + 1 + n))) [
                | inl cut ↦ rw cut tt
                | inr whole ↦ rw whole (
                    Returns->>= _ _ (slice d (o + 1) (o + 1 + n)) _
                      (slice-Returns d (o + 1) (o + 1 + n) (omega arith)
                        (omega (arith, ltb→le (length d) (o + 1 + n) whole)))
                      λ proto _.
                        alpn_loop-Returns fuel d (o + 1 + n) limit
                          (found ++ from_utf8_lossy proto ∷ []) (omega arith) (omega arith))
              ])
    ]

-- On every content the protocols are found: no index leaves it, and the loop ends.
pub extract_alpn-Returns : (ext : Extension) → Returns (λ _. Unit) (extract_alpn ext)
unfolding extract_alpn
extract_alpn-Returns ext = elim (Bool-cases (ltb (length ext.content) 2)) [
  | inl short ↦ rw short tt
  | inr long ↦ rw long (
      Returns->>= _ _ (u16_at ext.content 0) _
        (u16_at-Returns ext.content 0 (omega (arith, ltb→le (length ext.content) 2 long)))
        λ n _.
          alpn_loop-Returns (suc (length ext.content)) ext.content 2 (2 + n) [] (omega arith)
            (omega arith))
]

abbrev pub name_frame : Bytes → Bytes
name_frame name = length name ∷ name

abbrev pub name_frames : List Bytes → Bytes
name_frames [] = []
name_frames (n ∷ ns) = name_frame n ++ name_frames ns

length-name_frames-le : (ns : List Bytes) → length ns ≤ length (name_frames ns)
length-name_frames-le [] = omega arith
length-name_frames-le (n ∷ ns) =
    omega (arith, length-name_frames-le ns, length-append n (name_frames ns))

alpn_loop-name_frames :
    (ns : List Bytes) (fuel : ℕ) (d : Bytes) (o limit : ℕ) (found : List Bytes) (rest : Bytes)
    → Cursor d o (name_frames ns ++ rest)
    → o + length (name_frames ns) ≡ limit
    → length ns < fuel
    → alpn_loop fuel d o limit found ≡ ok (found ++ map from_utf8_lossy ns)
unfolding alpn_loop
alpn_loop-name_frames ns zero d o limit found rest c q f = absurd (omega arith)
alpn_loop-name_frames [] (suc fuel) d o limit found rest c q f =
    let stop : (ltb o (length d) && ltb o limit) ≡ false = ground arith in rw (stop, append-nil)
alpn_loop-name_frames (n ∷ ns) (suc fuel) d o limit found rest c q f =
    let k = length n in
    let c₀ : Cursor d o (name_frame n ++ (name_frames ns ++ rest)) =
      rw (← append_assoc (name_frame n) (name_frames ns) rest) c in
    let c₁ = Cursor-skip d o (k ∷ []) (n ++ (name_frames ns ++ rest)) c₀ in
    let size : 1 + k + length (name_frames ns) ≡ length (name_frames (n ∷ ns)) =
      omega (arith, length-append n (name_frames ns)) in
    let fits : o + 1 + k ≤ length d =
      omega (arith, c₁.size, length-append n (name_frames ns ++ rest)) in
    rw
      (
        lt→ltb o (length d) (omega arith),
        lt→ltb o limit (omega arith),
        lt→leb (length d) o (omega arith),
        byte_at-Cursor d o k _ c₀,
        le→ltb (length d) (o + 1 + k) fits,
        slice-Cursor d (o + 1) (o + 1 + k) n (name_frames ns ++ rest) c₁ refl,
      )
      (alpn_loop-name_frames ns fuel d (o + 1 + k) limit (found ++ from_utf8_lossy n ∷ []) rest
          (Cursor-to d o (name_frame n) (name_frames ns ++ rest) (o + 1 + k) c₀ (omega arith))
          (omega arith) (omega arith)
        ∙ ap ok (append_assoc found (from_utf8_lossy n ∷ []) (map from_utf8_lossy ns)))

-- Protocol names, written behind their length, are read in order, each decoded to text, and
-- what stands behind that length is not read.
pub alpn-name_frames :
    (ty : ExtensionType) (ns : List Bytes) (rest : Bytes)
    → IsU16 (length (name_frames ns))
    → extract_alpn (record {
      ext_type = ty;
      content = u16_be (length (name_frames ns)) ++ (name_frames ns ++ rest);
    })
      ≡ ok (map from_utf8_lossy ns)
unfolding extract_alpn
alpn-name_frames ty ns rest h =
    let n = length (name_frames ns) in
    let d : Bytes = u16_be n ++ (name_frames ns ++ rest) in
    let c = Cursor-start d in
    rw (le→ltb (length d) 2 (omega arith), u16_at-be d 0 n _ c)
      (alpn_loop-name_frames ns (suc (length d)) d 2 (2 + n) [] rest
        (Cursor-skip d 0 (u16_be n) (name_frames ns ++ rest) c) (omega arith)
        (omega (arith, length-name_frames-le ns, length-append (name_frames ns) rest)))
