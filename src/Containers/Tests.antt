-- ===== src/Containers/Tests.antt =====
-- crates/tls-probe-cli/src/containers.rs on the paths of a node.
use tls_probe.Containers.{parse_crio, parse_container_path, resolve_cgroup_id}
use tls_probe.Containers.Pods.{class_dir, parse_crio-class_dir}
use tls_probe.Containers.Resolver.{
  empty_cache, found_by, is_recent, resolve_inode, resolve_inode_twice,
}
use tls_probe.Containers.Scopes.{
  Runtime, marker, pod_of, scope_path, parse_container_path-scope_path,
}
use tls_probe.Prelude.{ℕ, ◌≡◌, refl, ◌∷◌, arith, Option, none, some, ◌==◌, if◌then◌else◌}
use tls_probe.Text.{text}
use tls_probe.Text.Pieces.{is_free-IsFree}
use tls_probe.Wire.{Bytes}

resolve_test :
    resolve_cgroup_id (λ i. some (text "system.slice/docker-ab.scope")) 7 ≡ (some (text "ab"), none)
unfolding resolve_cgroup_id
resolve_test = refl

parse_container_path-scope_path_example :
    parse_container_path (scope_path (text "system.slice") (marker Runtime.docker) (text "ab"))
    ≡ some (record {
      container_id = text "ab";
      pod_uid =
          pod_of Runtime.docker
            (scope_path (text "system.slice") (marker Runtime.docker) (text "ab"));
    })
parse_container_path-scope_path_example =
    parse_container_path-scope_path Runtime.docker (text "system.slice") (text "ab")
      (is_free-IsFree 47 (text "ab") refl) (refl, tt)

parse_crio-class_dir_example :
    parse_crio
      (scope_path (class_dir (98 ∷ text "urstable") (text "1_2")) (text "crio-") (text "ab"))
    ≡ some (record { container_id = text "ab"; pod_uid = none })
parse_crio-class_dir_example =
    parse_crio-class_dir 98 (text "urstable") (text "1_2") (text "ab") refl
      (is_free-IsFree 47 (98 ∷ text "urstable") refl) (is_free-IsFree 47 (text "1_2") refl)
      (is_free-IsFree 47 (text "ab") refl)

abbrev one_path : ℕ → Option Bytes
one_path i = if i == 9 then some (text "a") else none

resolve_inode_twice_example :
    (resolve_inode 12 (some one_path) (resolve_inode 10 none empty_cache 9).1 9).0 ≡ none
unfolding is_recent found_by
resolve_inode_twice_example =
    resolve_inode_twice 10 12 none (some one_path) empty_cache 9 refl (omega arith) refl refl refl
