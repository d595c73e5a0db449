-- ===== src/Pipeline/Chunks.antt =====
-- crates/tls-probe-cli/src/pipeline.rs: the names of chunks. A path is its file's name, since all
-- stand in one directory.
use mathlib.Core.List.{reverse-append}
use tls_probe.Pipeline.Directory.{same_text-eq}
use tls_probe.Prelude.{
  ℕ, ◌<◌, ◌≡◌, ◌≢◌, sym, ap, ◌∙◌, Bool, true, false, [], ◌∷◌, ◌++◌, append_assoc, Option, none,
  some, Bool-cases, inl, inr, if◌then◌else◌,
}
use tls_probe.Text.{text, decimal, parse_u64, strip_prefix, strip_suffix, same_text}
use tls_probe.Text.Affixes.{strip_suffix-append}
use tls_probe.Text.Decimal.{parse_u64-decimal}
use tls_probe.Wire.{Bytes}

abbrev pub chunk_prefix : Bytes
chunk_prefix = text "capture-"

abbrev pub chunk_suffix : Bytes
chunk_suffix = text ".jsonl"

abbrev pub chunk_part_suffix : Bytes
chunk_part_suffix = text ".jsonl.part"

-- `chunk_paths`
unfoldable pub complete_path : ℕ → Bytes
complete_path ts = chunk_prefix ++ (decimal ts ++ chunk_suffix)

unfoldable pub part_path : ℕ → Bytes
part_path ts = chunk_prefix ++ (decimal ts ++ chunk_part_suffix)

abbrev pub parse_stem : Option Bytes → Option ℕ
parse_stem none = none
parse_stem (some stem) = elim (strip_prefix chunk_prefix stem) [
  | none ↦ none
  | some digits ↦ parse_u64 digits
]

unfoldable pub parse_complete_chunk_timestamp : Bytes → Option ℕ
parse_complete_chunk_timestamp name = parse_stem (strip_suffix chunk_suffix name)

-- `path.extension() == Some("jsonl")`: the suffix with something before it.
abbrev is_stem : Option Bytes → Bool
is_stem none = false
is_stem (some []) = false
is_stem (some (c ∷ stem)) = true

unfoldable pub has_chunk_extension : Bytes → Bool
has_chunk_extension name = is_stem (strip_suffix chunk_suffix name)

-- The time of a complete chunk, for a file that is one.
unfoldable pub chunk_time : Bytes → Option ℕ
unfolding has_chunk_extension parse_complete_chunk_timestamp
chunk_time name = if has_chunk_extension name then parse_complete_chunk_timestamp name else none

complete_stem :
    (ts : ℕ) → strip_suffix chunk_suffix (complete_path ts) ≡ some (chunk_prefix ++ decimal ts)
unfolding complete_path
complete_stem ts =
    ap (strip_suffix chunk_suffix) (sym (append_assoc chunk_prefix (decimal ts) chunk_suffix))
    ∙ strip_suffix-append chunk_suffix (chunk_prefix ++ decimal ts)

part_stem : (s : Bytes) → strip_suffix chunk_suffix (s ++ chunk_part_suffix) ≡ none
part_stem s = rw (reverse-append s chunk_part_suffix)

chunk_found :
    (name rest : Bytes)
    → strip_suffix chunk_suffix name ≡ some (chunk_prefix ++ rest)
    → chunk_time name ≡ parse_u64 rest
unfolding chunk_time
chunk_found name rest h = rw h

chunk_none : (name : Bytes) → strip_suffix chunk_suffix name ≡ none → chunk_time name ≡ none
unfolding chunk_time
chunk_none name h = rw h

-- The time of a chunk is read back from its name when it is complete, and none is read while it
-- is a part.
pub chunk_time-paths :
    (ts : ℕ)
    → ts < 18446744073709551616
    → (chunk_time (complete_path ts) ≡ some ts) × (chunk_time (part_path ts) ≡ none)
unfolding chunk_time part_path
chunk_time-paths ts h =
    let part : strip_suffix chunk_suffix (chunk_prefix ++ (decimal ts ++ chunk_part_suffix))
        ≡ none =
      ap (strip_suffix chunk_suffix)
        (sym (append_assoc chunk_prefix (decimal ts) chunk_part_suffix))
      ∙ part_stem (chunk_prefix ++ decimal ts) in
    (
      chunk_found (complete_path ts) (decimal ts) (complete_stem ts) ∙ parse_u64-decimal ts h,
      chunk_none (chunk_prefix ++ (decimal ts ++ chunk_part_suffix)) part,
    )

some_injective : {a b : ℕ} → ◌≡◌ {A = Option ℕ} (some a) (some b) → a ≡ b
some_injective h = cc

-- Chunks of different times have different names, and so have a part and a chunk.
pub complete_paths_differ :
    (a b : ℕ)
    → a < 18446744073709551616
    → b < 18446744073709551616
    → a ≢ b
    → same_text (complete_path a) (complete_path b) ≡ false
complete_paths_differ a b h k ne =
    elim (Bool-cases (same_text (complete_path a) (complete_path b))) [
      | inl same ↦ absurd (
          ne (
            some_injective (
              sym ((chunk_time-paths a h).0)
              ∙ ap chunk_time (same_text-eq _ _ same)
              ∙ (chunk_time-paths b k).0)))
      | inr other ↦ other
    ]

pub complete_part_differ :
    (a b : ℕ)
    → a < 18446744073709551616
    → b < 18446744073709551616
    → same_text (complete_path a) (part_path b) ≡ false
complete_part_differ a b h k = elim (Bool-cases (same_text (complete_path a) (part_path b))) [
  | inl same ↦ cc (
      sym ((chunk_time-paths a h).0)
      ∙ ap chunk_time (same_text-eq _ _ same)
      ∙ (chunk_time-paths b k).1)
  | inr other ↦ other
]
