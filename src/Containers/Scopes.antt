-- ===== src/Containers/Scopes.antt =====
-- crates/tls-probe-cli/src/containers.rs on the paths that the runtimes write.
use tls_probe.Containers.{last_scope, strip_scope, scope_id, first_pod, parse_container_path}
use tls_probe.Prelude.{
  ◌≡◌, refl, ap, ◌∙◌, Bool, true, false, not, ◌&&◌, ◌||◌, List, [], ◌∷◌, ◌++◌, append_assoc, Option,
  none, some, Bool-cases, inl, inr, All, All-append,
}
use tls_probe.Text.{text, starts_with, ends_with, contains, split}
use tls_probe.Text.Affixes.{
  strip_prefix-append, strip_suffix-append, starts_with-append, ends_with-append, contains-append,
}
use tls_probe.Text.Pieces.{IsFree, is_free-IsFree, split_last}
use tls_probe.Wire.{Bytes}

-- The runtimes, with what they put before a container's identifier.
pub data Runtime : Type 0 where
  crio : Runtime
  containerd : Runtime
  docker : Runtime
  podman : Runtime

abbrev pub marker : Runtime → Bytes
marker Runtime.crio = text "crio-"
marker Runtime.containerd = text "cri-containerd-"
marker Runtime.docker = text "docker-"
marker Runtime.podman = text "libpod-"

abbrev pub scope : Bytes → Bytes → Bytes
scope m id = m ++ (id ++ text ".scope")

abbrev pub scope_path : Bytes → Bytes → Bytes → Bytes
scope_path dir m id = dir ++ (47 ∷ scope m id)

scope_ends : (dir m id : Bytes) → ends_with (text ".scope") (scope_path dir m id) ≡ true
scope_ends dir m id =
    let e : dir ++ (47 ∷ (m ++ (id ++ text ".scope")))
        ≡ (dir ++ (47 ∷ (m ++ id))) ++ text ".scope" =
      simp append_assoc in
    ap (ends_with (text ".scope")) e ∙ ends_with-append (text ".scope") (dir ++ (47 ∷ (m ++ id)))

last_scope_here :
    (m : Bytes) (dirs : List Bytes) (s : Bytes)
    → starts_with m s ≡ true
    → ends_with (text ".scope") s ≡ true
    → last_scope m (dirs ++ (s ∷ [])) ≡ some s
unfolding last_scope
last_scope_here m [] s h k = rw (h, k)
last_scope_here m (d ∷ dirs) s h k = rw (last_scope_here m dirs s h k)

-- No scope stands in these pieces.
abbrev pub HasNoScope : List Bytes → Type 0
HasNoScope dirs = All (λ (d : Bytes). ends_with (text ".scope") d ≡ false) dirs

and_false : (b : Bool) → (b && false) ≡ false
and_false true = refl
and_false false = refl

last_scope_other :
    (m : Bytes) (dirs : List Bytes) (s : Bytes)
    → starts_with m s ≡ false
    → HasNoScope dirs
    → last_scope m (dirs ++ (s ∷ [])) ≡ none
unfolding last_scope
last_scope_other m [] s h k = rw h
last_scope_other m (d ∷ dirs) s h k =
    rw (last_scope_other m dirs s h k.1, k.0, and_false (starts_with m d))

pub scope-IsFree : (m id : Bytes) → IsFree 47 m → IsFree 47 id → IsFree 47 (scope m id)
scope-IsFree m id h k =
    All-append _ m (id ++ text ".scope") h
      (All-append _ id (text ".scope") k (is_free-IsFree 47 (text ".scope") refl))

-- The identifier behind the marker in the last piece.
pub scope_id-scope_path :
    (dir m id : Bytes) → IsFree 47 m → IsFree 47 id → scope_id m (scope_path dir m id) ≡ some id
unfolding scope_id
scope_id-scope_path dir m id h k =
    let piece = scope m id in
    let ends : ends_with (text ".scope") piece ≡ true =
      rw (← append_assoc m id (text ".scope")) (ends_with-append (text ".scope") (m ++ id)) in
    let here : contains m (scope_path dir m id) ≡ true =
      rw (← append_assoc dir (47 ∷ []) piece)
        (contains-append (dir ++ (47 ∷ [])) m (id ++ text ".scope")) in
    let found : strip_scope m (last_scope m (split 47 (scope_path dir m id))) ≡ some id = rw (
      split_last 47 dir piece (scope-IsFree m id h k),
      last_scope_here m (split 47 dir) piece (starts_with-append m (id ++ text ".scope")) ends,
      strip_scope,
      strip_prefix-append m (id ++ text ".scope"),
      strip_suffix-append (text ".scope") id,
    ) in
    rw (here, scope_ends dir m id) found

-- Another runtime's marker finds none.
scope_id_other :
    (dir m o id : Bytes)
    → IsFree 47 m
    → IsFree 47 id
    → starts_with o (scope m id) ≡ false
    → HasNoScope (split 47 dir)
    → scope_id o (scope_path dir m id) ≡ none
unfolding scope_id
scope_id_other dir m o id h k other none_there =
    let found : strip_scope o (last_scope o (split 47 (scope_path dir m id))) ≡ none = rw (
      split_last 47 dir (scope m id) (scope-IsFree m id h k),
      last_scope_other o (split 47 dir) (scope m id) other none_there,
    ) in
    elim (Bool-cases (
      not (contains o (scope_path dir m id))
      || not (ends_with (text ".scope") (scope_path dir m id)))) [
        | inl skipped ↦ rw skipped refl
        | inr looked ↦ rw looked found
      ]

pub marker-IsFree : (r : Runtime) → IsFree 47 (marker r)
marker-IsFree Runtime.crio = is_free-IsFree 47 (marker Runtime.crio) refl
marker-IsFree Runtime.containerd = is_free-IsFree 47 (marker Runtime.containerd) refl
marker-IsFree Runtime.docker = is_free-IsFree 47 (marker Runtime.docker) refl
marker-IsFree Runtime.podman = is_free-IsFree 47 (marker Runtime.podman) refl

abbrev pub pod_of : Runtime → Bytes → Option Bytes
pod_of Runtime.crio path = first_pod (split 47 path)
pod_of Runtime.containerd path = none
pod_of Runtime.docker path = none
pod_of Runtime.podman path = none

-- A path whose last piece is a runtime's marker, an identifier without a slash and ".scope",
-- behind a directory with no piece that ends in ".scope", is the container of that identifier,
-- whichever of the four runtimes wrote it; a pod is looked for with CRI-O only.
pub parse_container_path-scope_path :
    (r : Runtime) (dir id : Bytes)
    → IsFree 47 id
    → HasNoScope (split 47 dir)
    → parse_container_path (scope_path dir (marker r) id)
      ≡ some (record { container_id = id; pod_uid = pod_of r (scope_path dir (marker r) id) })
unfolding parse_container_path
parse_container_path-scope_path Runtime.crio dir id h k =
    rw (scope_id-scope_path dir (text "crio-") id (marker-IsFree Runtime.crio) h)
parse_container_path-scope_path Runtime.containerd dir id h k =
    let free = marker-IsFree Runtime.containerd in
    rw (
      scope_id_other dir (text "cri-containerd-") (text "crio-") id free h refl k,
      scope_id-scope_path dir (text "cri-containerd-") id free h,
    )
parse_container_path-scope_path Runtime.docker dir id h k =
    let free = marker-IsFree Runtime.docker in
    let other = λ (o : Bytes) (e : starts_with o (scope (text "docker-") id) ≡ false).
      scope_id_other dir (text "docker-") o id free h e k in
    rw (
      other (text "crio-") refl,
      other (text "cri-containerd-") refl,
      scope_id-scope_path dir (text "docker-") id free h,
    )
parse_container_path-scope_path Runtime.podman dir id h k =
    let free = marker-IsFree Runtime.podman in
    let other = λ (o : Bytes) (e : starts_with o (scope (text "libpod-") id) ≡ false).
      scope_id_other dir (text "libpod-") o id free h e k in
    rw (
      other (text "crio-") refl,
      other (text "cri-containerd-") refl,
      other (text "docker-") refl,
      scope_id-scope_path dir (text "libpod-") id free h,
    )
