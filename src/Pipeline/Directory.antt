-- ===== src/Pipeline/Directory.antt =====
-- A directory of files, as crates/tls-probe-cli/src/pipeline.rs uses it: the names and what the
-- files hold, in the order in which the directory is read.
use tls_probe.Prelude.{
  Bool, true, false, List, [], ◌∷◌, ◌++◌, Option, none, some, All, if◌then◌else◌, ◌≡◌, refl,
  Bool-cases, inl, inr, ◌==◌, ==_iff, ==_refl,
}
use tls_probe.Text.{same_text}
use tls_probe.Wire.{Bytes}

pub record Entry : Type 0 where
  pub name : Bytes
  pub contents : Bytes

abbrev pub Directory : Type 0
Directory = List Entry

abbrev pub is_named : Bytes → Entry → Bool
is_named name e = same_text e.name name

abbrev pub contents_at : Bytes → Directory → Option Bytes
contents_at name [] = none
contents_at name (e ∷ d) =
    let rest = contents_at name d in if is_named name e then some e.contents else rest

-- What is written to the open file of a name.
abbrev pub append_to : Bytes → Bytes → Directory → Directory
append_to name bytes [] = []
append_to name bytes (e ∷ d) =
    let rest = append_to name bytes d in
    if is_named name e then record e { contents = e.contents ++ bytes } ∷ d else e ∷ rest

abbrev pub remove_file : Bytes → Directory → Directory
remove_file name [] = []
remove_file name (e ∷ d) =
    let rest = remove_file name d in if is_named name e then rest else e ∷ rest

-- `File::create`, which empties a file that is there.
abbrev pub create : Bytes → Directory → Directory
create name [] = record { name = name; contents = [] } ∷ []
create name (e ∷ d) =
    let rest = create name d in if is_named name e then record e { contents = [] } ∷ d else e ∷ rest

-- A file takes the place of the one that has its new name.
abbrev pub rename_to : Bytes → Bytes → Bytes → Directory → Directory
rename_to from to contents d =
    remove_file to (remove_file from d) ++ (record { name = to; contents = contents } ∷ [])

-- No file has the name.
abbrev pub IsAbsent : Bytes → Directory → Type 0
IsAbsent name d = All (λ (e : Entry). is_named name e ≡ false) d

pub same_text_refl : (s : Bytes) → same_text s s ≡ true
same_text_refl [] = refl
same_text_refl (c ∷ s) = rw (==_refl c, same_text_refl s)

pub same_text-eq : (s t : Bytes) → same_text s t ≡ true → s ≡ t
same_text-eq [] [] h = refl
same_text-eq [] (d ∷ t) h = cc
same_text-eq (c ∷ s) [] h = cc
same_text-eq (c ∷ s) (d ∷ t) h = elim (Bool-cases (c == d)) [
  | inl same ↦
      let h' : same_text s t ≡ true = rw same at h in
      let e : c ≡ d = (==_iff c d).0 same in rw (e, same_text-eq s t h')
  | inr other ↦ cc (rw other at h)
]

-- Behind files of other names, an operation works on the last file alone.
module _ (name : Bytes) where
  pub contents_at-last :
      (d : Directory) (c : Bytes)
      → IsAbsent name d
      → contents_at name (d ++ (record { name = name; contents = c } ∷ [])) ≡ some c
  contents_at-last [] c h = rw (same_text_refl name)
  contents_at-last (e ∷ d) c h = rw (h.0, contents_at-last d c h.1)

  pub append_to-last :
      (d : Directory) (c bytes : Bytes)
      → IsAbsent name d
      → append_to name bytes (d ++ (record { name = name; contents = c } ∷ []))
        ≡ d ++ (record { name = name; contents = c ++ bytes } ∷ [])
  append_to-last [] c bytes h = rw (same_text_refl name)
  append_to-last (e ∷ d) c bytes h = rw (h.0, append_to-last d c bytes h.1)

  pub remove_file-absent : (d : Directory) → IsAbsent name d → remove_file name d ≡ d
  remove_file-absent [] h = refl
  remove_file-absent (e ∷ d) h = rw (h.0, remove_file-absent d h.1)

  pub remove_file-last :
      (d : Directory) (c : Bytes)
      → IsAbsent name d
      → remove_file name (d ++ (record { name = name; contents = c } ∷ [])) ≡ d
  remove_file-last [] c h = rw (same_text_refl name)
  remove_file-last (e ∷ d) c h = rw (h.0, remove_file-last d c h.1)

  pub create-absent :
      (d : Directory)
      → IsAbsent name d
      → create name d ≡ d ++ (record { name = name; contents = [] } ∷ [])
  create-absent [] h = refl
  create-absent (e ∷ d) h = rw (h.0, create-absent d h.1)

-- Every name stands once.
abbrev pub IsDirectory : Directory → Type 0
IsDirectory [] = Unit
IsDirectory (e ∷ d) = IsAbsent e.name d × IsDirectory d

pub is_named-eq : (name : Bytes) (e : Entry) → is_named name e ≡ true → e.name ≡ name
is_named-eq name e h = same_text-eq e.name name h

pub remove-IsAbsent :
    (name other : Bytes) (d : Directory) → IsAbsent name d → IsAbsent name (remove_file other d)
remove-IsAbsent name other [] h = tt
remove-IsAbsent name other (e ∷ d) h = elim (Bool-cases (is_named other e)) [
  | inl gone ↦ rw gone (remove-IsAbsent name other d h.1)
  | inr stays ↦ rw stays (h.0, remove-IsAbsent name other d h.1)
]
