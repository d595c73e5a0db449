-- ===== src/Attribution/Tests.antt =====
-- crates/tls-probe-ebpf/src/process.rs with maps that hold one entry.
use tls_probe.Attribution.{Memory, Task, ConnStash, Probes}
use tls_probe.Attribution.Lookup.{Tuple, Attributed, connected, padded, make_capture-connected}
use tls_probe.Classifier.{KernelMap, make_capture}
use tls_probe.Classifier.Packet.{Skb, Segment, conn_key}
use tls_probe.Common.Capture.{ConnKey, ConnInfo}
use tls_probe.Prelude.{ℕ, ◌≡◌, refl, true, false, [], ◌∷◌, Option, none, some, ◌==◌, if◌then◌else◌}

abbrev one_slot : (K V : Type 0) → KernelMap K V
one_slot K V = record {
  Map = Option V;
  get = λ k m. m;
  insert = λ k v m. some v;
  remove = λ k m. none;
}

abbrev memory : Memory
memory at size =
    if at == 104
    then some (10 ∷ 0 ∷ 0 ∷ 1 ∷ [])
    else if at == 100
    then some (10 ∷ 0 ∷ 0 ∷ 2 ∷ [])
    else if at == 114
    then some (80 ∷ 195 ∷ [])
    else some (1 ∷ 187 ∷ [])

abbrev tuple : Tuple
tuple = record {
  local_addr = 10 ∷ 0 ∷ 0 ∷ 1 ∷ [];
  local_port = 50000;
  remote_addr = 10 ∷ 0 ∷ 0 ∷ 2 ∷ [];
  remote_port = 443;
}

abbrev task : Task
task = record { pid_tgid = 30064771079; comm = none; cgroup_id = 3 }

abbrev skb : Skb
skb = record { len = 100; load_bytes = λ a n. none; direct = λ a n. none }

abbrev segment : Segment
segment = record {
  is_ipv6 = false;
  tcp_start = 34;
  tls_start = 54;
  src_addr = padded (10 ∷ 0 ∷ 0 ∷ 1 ∷ []);
  dst_addr = padded (10 ∷ 0 ∷ 0 ∷ 2 ∷ []);
  src_port = 50000;
  dst_port = 443;
  start = record { content_type = 22; record_version = 771; record_len = 40; hs_type = 1 };
}

abbrev idle : Probes (one_slot ConnKey ConnInfo) (one_slot ℕ ConnStash)
idle = record { conn_map = none; connect_stash = none }

make_capture-connected_example :
    Attributed task (
      make_capture 5 skb segment true false
        ((one_slot ConnKey ConnInfo).get
          (conn_key segment true)
          (connected
            (one_slot ConnKey ConnInfo)
            (one_slot ℕ ConnStash)
            (λ k v m. refl)
            (λ k v m. refl)
            (λ k m. refl)
            memory
            task
            100
            idle).conn_map)
        0)
    × ((one_slot ℕ ConnStash).get task.pid_tgid
          (connected
            (one_slot ConnKey ConnInfo)
            (one_slot ℕ ConnStash)
            (λ k v m. refl)
            (λ k v m. refl)
            (λ k m. refl)
            memory
            task
            100
            idle).connect_stash
        ≡ none)
make_capture-connected_example =
    make_capture-connected (one_slot ConnKey ConnInfo) (one_slot ℕ ConnStash) (λ k v m. refl)
      (λ k v m. refl) (λ k m. refl) memory task 100 tuple idle 5 skb segment true false 0
      (record {
        local_addr_read = refl;
        remote_addr_read = refl;
        local_port_read = refl;
        remote_port_read = refl;
      })
      (record { from_addr = refl; to_addr = refl; from_port = refl; to_port = refl })
