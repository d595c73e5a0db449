-- ===== src/Containers.antt =====
-- crates/tls-probe-cli/src/containers.rs: container identities read off cgroup paths. The walk of
-- the file system that finds a path is an argument.
pub mod Pods
pub mod Resolver
pub mod Scopes
mod Tests
use tls_probe.Prelude.{
  ℕ, Bool, true, false, not, ◌&&◌, ◌||◌, List, [], ◌∷◌, Option, none, some, ◌==◌, if◌then◌else◌,
}
use tls_probe.Text.{
  text, strip_prefix, strip_suffix, starts_with, ends_with, contains, split, replace,
}
use tls_probe.Wire.{Bytes}

pub record ContainerIdentity : Type 0 where
  pub container_id : Bytes
  pub pod_uid : Option Bytes

-- `rfind(|p| p.starts_with(marker) && p.ends_with(".scope"))`, the last such piece.
unfoldable pub last_scope : Bytes → List Bytes → Option Bytes
last_scope marker [] = none
last_scope marker (piece ∷ pieces) =
    let here =
      if starts_with marker piece && ends_with (text ".scope") piece then some piece else none in
    elim (last_scope marker pieces) [ some found ↦ some found | none ↦ here ]

-- The identifier between the marker and ".scope", of the last piece that has both.
abbrev pub strip_scope : Bytes → Option Bytes → Option Bytes
strip_scope marker none = none
strip_scope marker (some piece) = elim (strip_prefix marker piece) [
  | none ↦ none
  | some rest ↦ strip_suffix (text ".scope") rest
]

unfoldable pub scope_id : Bytes → Bytes → Option Bytes
unfolding last_scope
scope_id marker path =
    let found = strip_scope marker (last_scope marker (split 47 path)) in
    if not (contains marker path) || not (ends_with (text ".scope") path) then none else found

-- The pod's identifier in a piece "kubepods-pod<uid>.slice", its underscores as dashes.
abbrev pub uid_of : Option Bytes → Option Bytes
uid_of none = none
uid_of (some pod_part) = elim (strip_prefix (text "pod") pod_part) [
  | none ↦ none
  | some uid_part ↦ elim (strip_suffix (text ".slice") uid_part) [
    | none ↦ none
    | some uid ↦ some (replace 95 45 uid)
  ]
]

unfoldable pub pod_uid_in : Bytes → Option Bytes
pod_uid_in segment =
    let found = uid_of (strip_prefix (text "kubepods-") segment) in
    if contains (text "pod") segment && ends_with (text ".slice") segment then found else none

-- `find_map`
unfoldable pub first_pod : List Bytes → Option Bytes
unfolding pod_uid_in
first_pod [] = none
first_pod (segment ∷ segments) = elim (pod_uid_in segment) [
  | some uid ↦ some uid
  | none ↦ first_pod segments
]

abbrev pub identity : Option Bytes → Option Bytes → Option ContainerIdentity
identity none pod = none
identity (some id) pod = some (record { container_id = id; pod_uid = pod })

unfoldable pub parse_crio : Bytes → Option ContainerIdentity
unfolding scope_id first_pod
parse_crio path = identity (scope_id (text "crio-") path) (first_pod (split 47 path))

unfoldable pub parse_containerd : Bytes → Option ContainerIdentity
unfolding scope_id
parse_containerd path = identity (scope_id (text "cri-containerd-") path) none

unfoldable pub parse_docker : Bytes → Option ContainerIdentity
unfolding scope_id
parse_docker path = identity (scope_id (text "docker-") path) none

unfoldable pub parse_podman : Bytes → Option ContainerIdentity
unfolding scope_id
parse_podman path = identity (scope_id (text "libpod-") path) none

abbrev pub or_else {ℓ} : {A : Type ℓ} → Option A → Option A → Option A
or_else none b = b
or_else (some a) b = some a

unfoldable pub parse_container_path : Bytes → Option ContainerIdentity
unfolding parse_crio parse_containerd parse_docker parse_podman
parse_container_path path =
    or_else (parse_crio path)
      (or_else (parse_containerd path) (or_else (parse_docker path) (parse_podman path)))

abbrev pub parts : Option ContainerIdentity → Option Bytes × Option Bytes
parts none = (none, none)
parts (some identity') = (some identity'.container_id, identity'.pod_uid)

abbrev pub identify : Option Bytes → Option Bytes × Option Bytes
identify none = (none, none)
identify (some path) = parts (parse_container_path path)

-- The resolver, a trait object, is an argument.
unfoldable pub resolve_cgroup_id : (ℕ → Option Bytes) → ℕ → Option Bytes × Option Bytes
unfolding parse_container_path
resolve_cgroup_id resolve_inode cgroup_id =
    let found = identify (resolve_inode cgroup_id) in if cgroup_id == 0 then (none, none) else found
