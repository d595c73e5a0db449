-- ===== src/Attribution.antt =====
-- crates/tls-probe-ebpf/src/process.rs: the kernel's probes that note which process a connection
-- belongs to. The kernel's memory, the running task and the maps are arguments; the host is
-- little-endian.
pub mod Lookup
mod Tests
use tls_probe.Classifier.{KernelMap}
use tls_probe.Common.Capture.{ConnKey, ConnInfo, zeros}
use tls_probe.Prelude.{
  ℕ, ◌+◌, ◌*◌, ◌/◌, ◌%◌, ◌^◌, Bool, not, List, [], ◌∷◌, ◌++◌, Option, none, some, ◌==◌,
  if◌then◌else◌,
}
use tls_probe.Wire.{Bytes}

abbrev pub skc_daddr_offset : ℕ
skc_daddr_offset = 0

abbrev pub skc_rcv_saddr_offset : ℕ
skc_rcv_saddr_offset = 4

abbrev pub skc_dport_offset : ℕ
skc_dport_offset = 12

abbrev pub skc_num_offset : ℕ
skc_num_offset = 14

abbrev pub skc_family_offset : ℕ
skc_family_offset = 16

abbrev pub skc_v6_daddr_offset : ℕ
skc_v6_daddr_offset = 32

abbrev pub skc_v6_rcv_saddr_offset : ℕ
skc_v6_rcv_saddr_offset = 48

-- `bpf_probe_read_kernel` of so many bytes at an address.
abbrev pub Memory : Type 0
Memory = ℕ → ℕ → Option Bytes

-- The task in which a probe runs.
pub record Task : Type 0 where
  pub pid_tgid : ℕ
  pub comm : Option Bytes
  pub cgroup_id : ℕ

pub record ConnStash : Type 0 where
  pub sock_ptr : ℕ
  pub info : ConnInfo

abbrev pub bytes_or : Bytes → Option Bytes → Bytes
bytes_or other none = other
bytes_or other (some bytes) = bytes

unfoldable pub current_conn_info : Task → ConnInfo
current_conn_info t = record {
  pid = t.pid_tgid / 2 ^ 32;
  tgid = t.pid_tgid % 2 ^ 32;
  comm = bytes_or (zeros 16) t.comm;
  cgroup_id = t.cgroup_id;
}

-- Four bytes at the start of an address.
abbrev pub v4_addr : Option Bytes → Bytes
v4_addr none = zeros 16
v4_addr (some addr) = addr ++ zeros 12

abbrev pub v6_addr : Option Bytes → Bytes
v6_addr none = zeros 16
v6_addr (some addr) = addr

-- A number in the host's order, and `u16::from_be` of one.
abbrev pub native_u16 : Option Bytes → ℕ
native_u16 (some (a ∷ b ∷ [])) = a + 256 * b
native_u16 _ = 0

abbrev pub be_u16 : Option Bytes → ℕ
be_u16 (some (a ∷ b ∷ [])) = a * 256 + b
be_u16 _ = 0

-- The local port and the other's.
unfoldable pub read_ports : Memory → ℕ → ℕ × ℕ
read_ports read sk =
    (native_u16 (read (sk + skc_num_offset) 2), be_u16 (read (sk + skc_dport_offset) 2))

unfoldable pub v4_key : Memory → ℕ → ConnKey
unfolding read_ports
v4_key read sk = record {
  src_addr = v4_addr (read (sk + skc_rcv_saddr_offset) 4);
  dst_addr = v4_addr (read (sk + skc_daddr_offset) 4);
  src_port = (read_ports read sk).0;
  dst_port = (read_ports read sk).1;
}

unfoldable pub v6_key : Memory → ℕ → ConnKey
unfolding read_ports
v6_key read sk = record {
  src_addr = v6_addr (read (sk + skc_v6_rcv_saddr_offset) 16);
  dst_addr = v6_addr (read (sk + skc_v6_daddr_offset) 16);
  src_port = (read_ports read sk).0;
  dst_port = (read_ports read sk).1;
}

-- The tuple of an accepted socket, of either family.
unfoldable pub accept_key : Memory → ℕ → Option ConnKey
unfolding v4_key v6_key
accept_key read sk = elim (read (sk + skc_family_offset) 2) [
  | none ↦ none
  | some family ↦
      (if native_u16 (some family) == 2
        then some (v4_key read sk)
        else if native_u16 (some family) == 10
        then some (v6_key read sk)
        else none)
]

module _ (conns : KernelMap ConnKey ConnInfo) (stashes : KernelMap ℕ ConnStash) where
  pub record Probes : Type 0 where
    pub conn_map : conns.Map
    pub connect_stash : stashes.Map

  -- The first argument of the call, a socket, where it can be read.
  unfoldable pub stash_connect_entry : Task → Option ℕ → Probes → Probes
  unfolding current_conn_info
  stash_connect_entry t none p = p
  stash_connect_entry t (some sk) p = record p {
    connect_stash =
        stashes.insert t.pid_tgid (record { sock_ptr = sk; info = current_conn_info t })
          p.connect_stash;
  }

  -- A stash is moved into the table of connections.
  abbrev pub move_stash : (ℕ → ConnKey) → Task → Option ConnStash → Probes → Probes
  move_stash key_of t none p = p
  move_stash key_of t (some stash) p = record {
    conn_map = conns.insert (key_of stash.sock_ptr) stash.info p.conn_map;
    connect_stash = stashes.remove t.pid_tgid p.connect_stash;
  }

  abbrev pub finish_connect : (ℕ → ConnKey) → Task → ℕ → Probes → Probes
  finish_connect key_of t ret p =
      let moved = move_stash key_of t (stashes.get t.pid_tgid p.connect_stash) p in
      if not (ret == 0)
      then record p { connect_stash = stashes.remove t.pid_tgid p.connect_stash }
      else moved

  unfoldable pub finish_connect_v4 : Memory → Task → ℕ → Probes → Probes
  unfolding v4_key
  finish_connect_v4 read t ret p = finish_connect (v4_key read) t ret p

  unfoldable pub finish_connect_v6 : Memory → Task → ℕ → Probes → Probes
  unfolding v6_key
  finish_connect_v6 read t ret p = finish_connect (v6_key read) t ret p

  abbrev pub accepted : Task → Option ConnKey → Probes → Probes
  accepted t none p = p
  accepted t (some key) p = record p {
    conn_map = conns.insert key (current_conn_info t) p.conn_map;
  }

  unfoldable pub try_record_accept : Memory → Task → ℕ → Probes → Probes
  unfolding accept_key current_conn_info
  try_record_accept read t sk p = if sk == 0 then p else accepted t (accept_key read sk) p
