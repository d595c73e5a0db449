-- ===== src/Pipeline/Cap.antt =====
-- crates/tls-probe-cli/src/pipeline.rs, enforce_cap: what the eviction leaves.
mod Sizes
mod Oldest
use mathlib.Core.Path.{subst}
use tls_probe.Pipeline.Cap.Oldest.{IsSorted, sort-IsSorted, All-right, sorted_split}
use tls_probe.Pipeline.Cap.Sizes.{
  IsHeld, IsApart, list-IsHeld, list-IsApart, sort-All, sort-IsApart, sort-total, remove-total,
  remove-IsHeld, remove-IsDirectory,
}
use tls_probe.Pipeline.Directory.{Directory, IsDirectory, remove_file}
use tls_probe.Pipeline.Spool.{
  RotatingSpoolWriter, Chunk, list_complete_chunks, sort_chunks, total_size, evict, enforce_cap,
}
use tls_probe.Prelude.{
  ℕ, ◌+◌, ◌-◌, ◌≤◌, ◌<◌, ◌≡◌, refl, sym, ap, ◌∙◌, ◌⊎◌, inl, inr, true, false, Bool, List, [], ◌∷◌,
  ◌++◌, append-nil, arith, Bool-cases, leb, leb→le, leb→lt, ◌==◌, ==_iff, length, All,
  if◌then◌else◌,
}
use tls_probe.Wire.{Bytes}

abbrev pub remove_all : List Chunk → Directory → Directory
remove_all [] d = d
remove_all (c ∷ cs) d = remove_all cs (remove_file c.path d)

abbrev pub stored : Directory → ℕ
stored d = total_size (list_complete_chunks d)

-- An eviction of a first part of a list, of which no smaller first part makes up for the excess.
pub record Evicted (excess : ℕ) (cs : List Chunk) (d : Directory) (result : Directory × ℕ)
    : Type 0 where
  pub removed : List Chunk
  pub kept : List Chunk
  pub splits : cs ≡ removed ++ kept
  pub files : result.0 ≡ remove_all removed d
  pub counted : result.1 ≡ length removed
  pub needed :
      (removed ≡ [])
      ⊎ ((first : List Chunk) × (last : Chunk) × (removed ≡ first ++ (last ∷ []))
          × (total_size first < excess))

zero_of_test : (n : ℕ) → (n == 0) ≡ false → 0 < n
zero_of_test n h = ground arith

last_needed :
    (excess : ℕ) (c : Chunk) (removed : List Chunk)
    → (excess == 0) ≡ false
    → (removed ≡ [])
      ⊎ ((first : List Chunk) × (last : Chunk) × (removed ≡ first ++ (last ∷ []))
          × (total_size first < excess - c.size))
    → (first : List Chunk) × (last : Chunk) × (c ∷ removed ≡ first ++ (last ∷ []))
      × (total_size first < excess)
unfolding total_size
last_needed excess c removed more (inl none_removed) =
    ([], c, ap (λ (l : List Chunk). c ∷ l) none_removed, zero_of_test excess more)
last_needed excess c removed more (inr (first, last, e, l)) =
    (c ∷ first, last, ap (λ (r : List Chunk). c ∷ r) e, omega (arith, l))

evict-Evicted :
    (excess : ℕ) (cs : List Chunk) (d : Directory) → Evicted excess cs d (evict excess cs d)
unfolding evict total_size
evict-Evicted excess [] d = record {
  removed = [];
  kept = [];
  splits = refl;
  files = refl;
  counted = refl;
  needed = inl refl;
}
evict-Evicted excess (c ∷ cs) d = elim (Bool-cases (excess == 0)) [
  | inl enough ↦ rw enough (record {
    removed = [];
    kept = c ∷ cs;
    splits = refl;
    files = refl;
    counted = refl;
    needed = inl refl;
  })
  | inr more ↦
      let rest = evict-Evicted (excess - c.size) cs (remove_file c.path d) in
      rw more (record {
        removed = c ∷ rest.removed;
        kept = rest.kept;
        splits = ap (λ (l : List Chunk). c ∷ l) rest.splits;
        files = rest.files;
        counted = omega (arith, rest.counted);
        needed = inr (last_needed excess c rest.removed more rest.needed);
      })
]

evict-stored :
    (excess : ℕ) (cs : List Chunk) (d : Directory)
    → IsDirectory d
    → All (IsHeld d) cs
    → IsApart cs
    → excess ≤ total_size cs
    → stored (evict excess cs d).0 + excess ≤ stored d
unfolding evict total_size
evict-stored excess [] d u h a l = omega arith
evict-stored excess (c ∷ cs) d u h a l = elim (Bool-cases (excess == 0)) [
  | inl enough ↦ let e : excess ≡ 0 = (==_iff excess 0).0 enough in rw enough (omega (arith, e))
  | inr more ↦
      let d' = remove_file c.path d in
      let ih =
        evict-stored (excess - c.size) cs d' (remove-IsDirectory c.path d u)
          (remove-IsHeld c cs d a.0 h.1) a.1 (omega arith) in
      let t = remove-total c d u h.0 in rw more (omega (arith, ih, t))
]

-- What a cap leaves: no more than it allows; and what it takes, first parts of the chunks by time.
pub record IsCapped (max_total : ℕ) (s s' : RotatingSpoolWriter) : Type 0 where
  pub within : stored s'.output_dir ≤ max_total
  pub removed : List Chunk
  pub kept : List Chunk
  pub splits : sort_chunks (list_complete_chunks s.output_dir) ≡ removed ++ kept
  pub oldest : All (λ (r : Chunk). All (λ (k : Chunk). r.ts ≤ k.ts) kept) removed
  pub files : s'.output_dir ≡ remove_all removed s.output_dir
  pub counted : s'.chunks_evicted ≡ s.chunks_evicted + length removed
  pub needed :
      (removed ≡ [])
      ⊎ ((first : List Chunk) × (last : Chunk) × (removed ≡ first ++ (last ∷ []))
          × (max_total + total_size first < stored s.output_dir))

IsCapped-before :
    (max_total : ℕ) (s : RotatingSpoolWriter)
    → stored s.output_dir ≤ max_total
    → IsCapped max_total s s
IsCapped-before max_total s h = record {
  within = h;
  removed = [];
  kept = sort_chunks (list_complete_chunks s.output_dir);
  splits = refl;
  oldest = tt;
  files = refl;
  counted = omega arith;
  needed = inl refl;
}

needed_in_all :
    (max_total total : ℕ) (removed : List Chunk)
    → max_total < total
    → (removed ≡ [])
      ⊎ ((first : List Chunk) × (last : Chunk) × (removed ≡ first ++ (last ∷ []))
          × (total_size first < total - max_total))
    → (removed ≡ [])
      ⊎ ((first : List Chunk) × (last : Chunk) × (removed ≡ first ++ (last ∷ []))
          × (max_total + total_size first < total))
needed_in_all max_total total removed h (inl e) = inl e
needed_in_all max_total total removed h (inr (first, last, e, l)) =
    inr (first, last, e, omega (arith, l))

IsCapped-after :
    (max_total : ℕ) (s s' : RotatingSpoolWriter) (evicted : Directory × ℕ)
    → IsDirectory s.output_dir
    → max_total < stored s.output_dir
    → evicted
      ≡ evict
          (stored s.output_dir - max_total)
          (sort_chunks (list_complete_chunks s.output_dir))
          s.output_dir
    → s'.output_dir ≡ evicted.0
    → s'.chunks_evicted ≡ s.chunks_evicted + evicted.1
    → IsCapped max_total s s'
IsCapped-after max_total s s' evicted u over e files counted =
    let d = s.output_dir in
    let listed = list_complete_chunks d in
    let chunks = sort_chunks listed in
    let excess = stored d - max_total in
    let out = evict-Evicted excess chunks d in
    let less =
      evict-stored excess chunks d u (sort-All (IsHeld d) listed (list-IsHeld d u))
        (sort-IsApart listed (list-IsApart d u)) (omega (arith, sort-total listed)) in
    let sorted : IsSorted (out.removed ++ out.kept) =
      subst IsSorted out.splits (sort-IsSorted listed) in
    let same : s'.output_dir ≡ (evict excess chunks d).0 =
      files ∙ ap (λ (r : Directory × ℕ). r.0) e in
    let count : evicted.1 ≡ (evict excess chunks d).1 = ap (λ (r : Directory × ℕ). r.1) e in
    record {
      within = omega (arith, less, ap stored same);
      removed = out.removed;
      kept = out.kept;
      splits = out.splits;
      oldest = sorted_split out.removed out.kept sorted;
      files = same ∙ out.files;
      counted = counted ∙ ap (λ (n : ℕ). s.chunks_evicted + n) (count ∙ out.counted);
      needed = needed_in_all max_total (stored d) out.removed over out.needed;
    }

-- In a directory where each name stands once, the cap leaves complete chunks of at most the
-- allowed size in all. What it removes, and counts, are the oldest of them, and no more than
-- needed: without the last one removed, the size would still be too large.
pub enforce_cap-IsCapped :
    (max_total : ℕ) (s : RotatingSpoolWriter)
    → IsDirectory s.output_dir
    → IsCapped max_total s (enforce_cap max_total s)
unfolding enforce_cap
enforce_cap-IsCapped max_total s u =
    let listed = list_complete_chunks s.output_dir in
    let t = sort-total listed in
    elim (Bool-cases (leb (total_size (sort_chunks listed)) max_total)) [
      | inl fits ↦ rw fits (
          IsCapped-before max_total s
            (omega (arith, t, leb→le (total_size (sort_chunks listed)) max_total fits)))
      | inr over ↦
          let lt = leb→lt (total_size (sort_chunks listed)) max_total over in
          rw over (
            IsCapped-after max_total s _
              (evict (total_size (sort_chunks listed) - max_total) (sort_chunks listed)
                s.output_dir)
              u (omega (arith, t, lt))
              (ap (λ (n : ℕ). evict (n - max_total) (sort_chunks listed) s.output_dir) t) refl refl)
    ]
