-- ===== src/Containers/Pods.antt =====
-- crates/tls-probe-cli/src/containers.rs on the paths of CRI-O in a Kubernetes node: the pod's
-- slice of each quality of service.
use tls_probe.Containers.{ContainerIdentity, uid_of, pod_uid_in, first_pod, parse_crio}
use tls_probe.Containers.Scopes.{
  Runtime, scope, scope_path, scope_id-scope_path, marker-IsFree, scope-IsFree,
}
use tls_probe.Prelude.{
  ℕ, ◌≡◌, refl, ◌∙◌, true, false, ◌&&◌, List, [], ◌∷◌, ◌++◌, Option, none, some, ◌==◌, Bool-cases,
  inl, inr, All-append,
}
use tls_probe.Text.{text, strip_prefix, ends_with, contains, split, replace}
use tls_probe.Text.Affixes.{strip_suffix-append, ends_with-append, contains-append}
use tls_probe.Text.Pieces.{IsFree, is_free-IsFree, split-IsFree, split-append, split_last}
use tls_probe.Wire.{Bytes}

-- A slice of systemd.
abbrev pub slice_of : Bytes → Bytes
slice_of name = text "kubepods-" ++ (name ++ text ".slice")

slice_of-IsFree : (name : Bytes) → IsFree 47 name → IsFree 47 (slice_of name)
slice_of-IsFree name h =
    All-append _ (text "kubepods-") (name ++ text ".slice")
      (is_free-IsFree 47 (text "kubepods-") refl)
      (All-append _ name (text ".slice") h (is_free-IsFree 47 (text ".slice") refl))

no_pod :
    (segment : Bytes)
    → uid_of (strip_prefix (text "kubepods-") segment) ≡ none
    → pod_uid_in segment ≡ none
unfolding pod_uid_in
no_pod segment h =
    elim (Bool-cases (contains (text "pod") segment && ends_with (text ".slice") segment)) [
      | inl looked ↦ rw looked h
      | inr skipped ↦ rw skipped refl
    ]

pod_found :
    (segment : Bytes)
    → contains (text "pod") segment ≡ true
    → ends_with (text ".slice") segment ≡ true
    → pod_uid_in segment ≡ uid_of (strip_prefix (text "kubepods-") segment)
unfolding pod_uid_in
pod_found segment h k = rw (h, k)

first_pod_next :
    (s : Bytes) (ss : List Bytes) → pod_uid_in s ≡ none → first_pod (s ∷ ss) ≡ first_pod ss
unfolding first_pod
first_pod_next s ss h = rw (h, first_pod)

first_pod_here :
    (s uid : Bytes) (ss : List Bytes) → pod_uid_in s ≡ some uid → first_pod (s ∷ ss) ≡ some uid
unfolding first_pod
first_pod_here s uid ss h = rw (h, first_pod)

first_pod_nil : first_pod [] ≡ none
unfolding first_pod
first_pod_nil = refl

-- The slice of a name that does not start with "p" has no pod.
slice-none : (c : ℕ) (name : Bytes) → (112 == c) ≡ false → pod_uid_in (slice_of (c ∷ name)) ≡ none
slice-none c name h =
    let e : uid_of (strip_prefix (text "kubepods-") (slice_of (c ∷ name))) ≡ none =
      rw (uid_of, h) refl in
    no_pod (slice_of (c ∷ name)) e

slice-pod : (uid : Bytes) → pod_uid_in (slice_of (text "pod" ++ uid)) ≡ some (replace 95 45 uid)
slice-pod uid =
    let has : contains (text "pod") (slice_of (text "pod" ++ uid)) ≡ true =
      contains-append (text "kubepods-") (text "pod") (uid ++ text ".slice") in
    let ends : ends_with (text ".slice") (slice_of (text "pod" ++ uid)) ≡ true =
      ends_with-append (text ".slice") (text "kubepods-pod" ++ uid) in
    let found : uid_of (some (text "pod" ++ (uid ++ text ".slice"))) ≡ some (replace 95 45 uid) =
      rw (uid_of, strip_suffix-append (text ".slice") uid) in
    pod_found (slice_of (text "pod" ++ uid)) has ends ∙ found

-- The directory of a pod of the guaranteed class, and of one of another class.
abbrev pub guaranteed_dir : Bytes → Bytes
guaranteed_dir uid = text "kubepods.slice" ++ (47 ∷ slice_of (text "pod" ++ uid))

abbrev pub class_dir : Bytes → Bytes → Bytes
class_dir class uid =
    text "kubepods.slice"
    ++ (47 ∷ (slice_of class ++ (47 ∷ slice_of (class ++ (text "-pod" ++ uid)))))

crio_lem :
    (dir id : Bytes)
    → IsFree 47 id
    → parse_crio (scope_path dir (text "crio-") id)
      ≡ some (record {
        container_id = id;
        pod_uid = first_pod (split 47 dir ++ (scope (text "crio-") id ∷ []));
      })
unfolding parse_crio
crio_lem dir id h =
    let free = marker-IsFree Runtime.crio in
    rw (
      scope_id-scope_path dir (text "crio-") id free h,
      split_last 47 dir (scope (text "crio-") id) (scope-IsFree (text "crio-") id free h),
    )

found_pod :
    (id : Bytes) (pieces dirs : List Bytes) (pod : Option Bytes)
    → pieces ≡ dirs
    → first_pod (dirs ++ (scope (text "crio-") id ∷ [])) ≡ pod
    → ◌≡◌ {A = Option ContainerIdentity}
        (some (record {
          container_id = id;
          pod_uid = first_pod (pieces ++ (scope (text "crio-") id ∷ []));
        }))
        (some (record { container_id = id; pod_uid = pod }))
found_pod id pieces dirs pod e h = rw (e, h)

-- A container of CRI-O in a pod of the guaranteed class, "kubepods-pod<uid>.slice", is found with
-- its identifier and with its pod's, whose underscores are dashes.
pub parse_crio-guaranteed_dir :
    (uid id : Bytes)
    → IsFree 47 uid
    → IsFree 47 id
    → parse_crio (scope_path (guaranteed_dir uid) (text "crio-") id)
      ≡ some (record { container_id = id; pod_uid = some (replace 95 45 uid) })
parse_crio-guaranteed_dir uid id h k =
    let slice = slice_of (text "pod" ++ uid) in
    let free : IsFree 47 slice =
      slice_of-IsFree (text "pod" ++ uid)
        (All-append _ (text "pod") uid (is_free-IsFree 47 (text "pod") refl) h) in
    let pieces : split 47 (guaranteed_dir uid) ≡ text "kubepods.slice" ∷ slice ∷ [] =
      split-append 47 (text "kubepods.slice") slice (is_free-IsFree 47 (text "kubepods.slice") refl)
      ∙ rw (split-IsFree 47 slice free) in
    let pod : first_pod (text "kubepods.slice" ∷ slice ∷ scope (text "crio-") id ∷ [])
        ≡ some (replace 95 45 uid) =
      first_pod_next (text "kubepods.slice") (slice ∷ scope (text "crio-") id ∷ [])
        (no_pod (text "kubepods.slice") refl)
      ∙ first_pod_here slice (replace 95 45 uid) (scope (text "crio-") id ∷ []) (slice-pod uid) in
    crio_lem (guaranteed_dir uid) id k
    ∙ found_pod id (split 47 (guaranteed_dir uid)) (text "kubepods.slice" ∷ slice ∷ [])
        (some (replace 95 45 uid)) pieces pod

-- A container of CRI-O in a pod of another class, "kubepods-<class>-pod<uid>.slice" with a class
-- that does not start with "p", is found with its identifier and without its pod's.
pub parse_crio-class_dir :
    (c : ℕ) (class uid id : Bytes)
    → (112 == c) ≡ false
    → IsFree 47 (c ∷ class)
    → IsFree 47 uid
    → IsFree 47 id
    → parse_crio (scope_path (class_dir (c ∷ class) uid) (text "crio-") id)
      ≡ some (record { container_id = id; pod_uid = none })
parse_crio-class_dir c class uid id other h k l =
    let name = class ++ (text "-pod" ++ uid) in
    let outer = slice_of (c ∷ class) in
    let inner = slice_of (c ∷ name) in
    let named : IsFree 47 (c ∷ name) = (
      h.0,
      All-append _ class (text "-pod" ++ uid) h.1
          (All-append _ (text "-pod") uid (is_free-IsFree 47 (text "-pod") refl) k),
    ) in
    let pieces : split 47 (class_dir (c ∷ class) uid) ≡ text "kubepods.slice" ∷ outer ∷ inner ∷ [] =
      split-append 47 (text "kubepods.slice") (outer ++ (47 ∷ inner))
        (is_free-IsFree 47 (text "kubepods.slice") refl)
      ∙ rw (
        split-append 47 outer inner (slice_of-IsFree (c ∷ class) h),
        split-IsFree 47 inner (slice_of-IsFree (c ∷ name) named),
      ) in
    let last = scope (text "crio-") id in
    let pod : first_pod (text "kubepods.slice" ∷ outer ∷ inner ∷ last ∷ []) ≡ none =
      first_pod_next (text "kubepods.slice") (outer ∷ inner ∷ last ∷ [])
        (no_pod (text "kubepods.slice") refl)
      ∙ first_pod_next outer (inner ∷ last ∷ []) (slice-none c class other)
      ∙ first_pod_next inner (last ∷ []) (slice-none c name other)
      ∙ first_pod_next last [] (no_pod last refl)
      ∙ first_pod_nil in
    crio_lem (class_dir (c ∷ class) uid) id l
    ∙ found_pod id (split 47 (class_dir (c ∷ class) uid))
        (text "kubepods.slice" ∷ outer ∷ inner ∷ []) none pieces pod
