-- ===== src/RecordWalk/Total.antt =====
-- crates/tls-probe-cli/src/record_walk.rs on any bytes.
use tls_probe.Outcome.{Outcome, ok, Returns, Returns->>=}
use tls_probe.Prelude.{
  ℕ, zero, suc, ◌+◌, ◌≤◌, ◌<◌, ◌≡◌, Bool, true, false, not, ◌&&◌, List, [], ◌++◌, arith, Bool-cases,
  and_parts, inl, inr, ltb, leb, ltb→lt, leb→le, ltb→le, ◌==◌, length, All, All-append,
  if◌then◌else◌,
}
use tls_probe.RecordWalk.{
  max_records_to_walk, ExtractedRecord, is_certificate, keep, walk_loop, walk_records,
}
use tls_probe.Wire.{Bytes, byte_at, u16_at, slice}
use tls_probe.Wire.Cursor.{byte_at-Returns, u16_at-Returns, slice-Returns}

-- A record that is returned has a body of a certificate or of a request, within the packet.
pub record IsExtracted (size : ℕ) (r : ExtractedRecord) : Type 0 where
  pub kind : is_certificate r.body ≡ true
  pub inside : length r.body ≤ size

keep-IsExtracted :
    (size version : ℕ) (body : Bytes) (truncated : Bool)
    → length body ≤ size
    → All (IsExtracted size) (keep version body truncated)
unfolding keep
keep-IsExtracted size version body truncated h = elim (Bool-cases (is_certificate body)) [
  | inl cert ↦ rw cert (record { kind = cert; inside = h }, tt)
  | inr other ↦ rw other tt
]

abbrev end_of : Bytes → ℕ → ℕ
end_of d to = if ltb (length d) to then length d else to

end_bounds :
    (d : Bytes) (from to : ℕ)
    → from ≤ to
    → from ≤ length d
    → (from ≤ end_of d to) × (end_of d to ≤ length d)
end_bounds d from to h k = ground arith

chosen :
    (P : List ExtractedRecord → Type 0) (other cut : Bool) (found found' : List ExtractedRecord)
    (rest : Outcome (List ExtractedRecord))
    → P found
    → P found'
    → Returns P rest
    → Returns P (if other then ok found else if cut then ok found' else rest)
chosen P true cut found found' rest a b c = a
chosen P false true found found' rest a b c = b
chosen P false false found found' rest a b c = c

loop-Returns :
    (fuel : ℕ) (d : Bytes) (o n : ℕ) (found : List ExtractedRecord)
    → n ≤ 4
    → 4 < n + fuel
    → All (IsExtracted (length d)) found
    → Returns (λ rs. All (IsExtracted (length d)) rs) (walk_loop fuel d o n found)
unfolding walk_loop
loop-Returns zero d o n found e f a = absurd (omega arith)
loop-Returns (suc fuel) d o n found e f a =
    let P : List ExtractedRecord → Type 0 = λ rs. All (IsExtracted (length d)) rs in
    elim (Bool-cases (leb (o + 5) (length d) && ltb n max_records_to_walk)) [
      | inr done ↦ rw done a
      | inl more ↦
          let tests = and_parts (leb (o + 5) (length d)) (ltb n max_records_to_walk) more in
          let fits = leb→le (o + 5) (length d) tests.0 in
          let below = ltb→lt n max_records_to_walk tests.1 in
          rw more (
            Returns->>= _ P (byte_at d o) _ (byte_at-Returns d o (omega arith)) λ content_type _.
              Returns->>= _ P (u16_at d (o + 1)) _ (u16_at-Returns d (o + 1) (omega arith))
                λ version _.
                  Returns->>= _ P (u16_at d (o + 3)) _ (u16_at-Returns d (o + 3) (omega arith))
                    λ record_len _.
                      let cut = ltb (length d) (o + 5 + record_len) in
                      let ends = end_bounds d (o + 5) (o + 5 + record_len) (omega arith) fits in
                      Returns->>= _ P (slice d (o + 5) (end_of d (o + 5 + record_len))) _
                        (slice-Returns d (o + 5) (end_of d (o + 5 + record_len)) ends.0 ends.1)
                        λ body size.
                          let found' : P (found ++ keep version body cut) =
                            All-append (IsExtracted (length d)) found (keep version body cut) a (
                              keep-IsExtracted (length d) version body cut
                                (omega (arith, size, ends.1))) in
                          let ih =
                            loop-Returns fuel d (o + 5 + record_len) (n + 1)
                              (found ++ keep version body cut) (omega arith) (omega arith) found' in
                          chosen P (not (content_type == 0x16)) cut found
                            (found ++ keep version body cut)
                            (walk_loop fuel d (o + 5 + record_len) (n + 1)
                              (found ++ keep version body cut))
                            a found' ih)
    ]

-- On every packet the walk ends without reading out of bounds, and each record that it returns has
-- the body of a certificate or of a request for one, within the packet.
pub walk_records-Returns :
    (payload : Bytes) → Returns (λ rs. All (IsExtracted (length payload)) rs) (walk_records payload)
unfolding walk_records
walk_records-Returns payload = elim (Bool-cases (ltb (length payload) 6)) [
  | inl short ↦ rw short tt
  | inr long ↦
      let six = ltb→le (length payload) 6 long in
      rw long (
        Returns->>= _ (λ rs. All (IsExtracted (length payload)) rs) (u16_at payload 3) _
          (u16_at-Returns payload 3 (omega arith))
          λ n _. loop-Returns 5 payload (5 + n) 0 [] (omega arith) (omega arith) tt)
]
