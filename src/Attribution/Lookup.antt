-- ===== src/Attribution/Lookup.antt =====
-- crates/tls-probe-ebpf/src/process.rs with crates/tls-probe-ebpf/src/tls.rs: the probes and the
-- classifier name a connection by the same key.
use mathlib.Core.Path.{subst}
use tls_probe.Attribution.{
  Memory, Task, ConnStash, native_u16, be_u16, bytes_or, current_conn_info, read_ports, v4_key,
  Probes, stash_connect_entry, finish_connect_v4,
}
use tls_probe.Classifier.{KernelMap, make_capture}
use tls_probe.Classifier.Packet.{Skb, Segment, conn_key}
use tls_probe.Common.Capture.{ConnKey, ConnInfo, RawTlsCapture, zeros}
use tls_probe.Prelude.{
  ℕ, ◌+◌, ◌*◌, ◌/◌, ◌%◌, ◌^◌, ◌≡◌, refl, sym, ap, ◌∙◌, Bool, true, false, [], ◌∷◌, ◌++◌, Option,
  none, some, arith,
}
use tls_probe.Wire.{Bytes}

-- A connection from the local side.
pub record Tuple : Type 0 where
  pub local_addr : Bytes
  pub local_port : ℕ
  pub remote_addr : Bytes
  pub remote_port : ℕ

-- A connected IPv4 socket: the local port is in the host's order, the other in the network's.
pub record HoldsSocket (read : Memory) (sk : ℕ) (t : Tuple) : Type 0 where
  pub local_addr_read : read (sk + 4) 4 ≡ some t.local_addr
  pub remote_addr_read : read (sk + 0) 4 ≡ some t.remote_addr
  pub local_port_read : read (sk + 14) 2 ≡ some (t.local_port % 256 ∷ t.local_port / 256 ∷ [])
  pub remote_port_read : read (sk + 12) 2 ≡ some (t.remote_port / 256 ∷ t.remote_port % 256 ∷ [])

abbrev pub padded : Bytes → Bytes
padded addr = addr ++ zeros 12

-- A segment of the connection, going out or coming in.
pub record Outgoing (t : Tuple) (s : Segment) : Type 0 where
  pub from_addr : s.src_addr ≡ padded t.local_addr
  pub to_addr : s.dst_addr ≡ padded t.remote_addr
  pub from_port : s.src_port ≡ t.local_port
  pub to_port : s.dst_port ≡ t.remote_port

pub record Incoming (t : Tuple) (s : Segment) : Type 0 where
  pub from_addr : s.src_addr ≡ padded t.remote_addr
  pub to_addr : s.dst_addr ≡ padded t.local_addr
  pub from_port : s.src_port ≡ t.remote_port
  pub to_port : s.dst_port ≡ t.local_port

abbrev pub Travels : Tuple → Segment → Bool → Type 0
Travels t s true = Outgoing t s
Travels t s false = Incoming t s

abbrev tuple_key : Tuple → ConnKey
tuple_key t = record {
  src_addr = padded t.local_addr;
  dst_addr = padded t.remote_addr;
  src_port = t.local_port;
  dst_port = t.remote_port;
}

key_eq :
    (a b : ConnKey)
    → a.src_addr ≡ b.src_addr
    → a.dst_addr ≡ b.dst_addr
    → a.src_port ≡ b.src_port
    → a.dst_port ≡ b.dst_port
    → a ≡ b
key_eq a b h k l m = λ i. record { src_addr = h i; dst_addr = k i; src_port = l i; dst_port = m i }

segment_key :
    (t : Tuple) (s : Segment) (is_egress : Bool)
    → Travels t s is_egress
    → conn_key s is_egress ≡ tuple_key t
unfolding conn_key
segment_key t s true h =
    key_eq (conn_key s true) (tuple_key t) h.from_addr h.to_addr h.from_port h.to_port
segment_key t s false h =
    key_eq (conn_key s false) (tuple_key t) h.to_addr h.from_addr h.to_port h.from_port

socket_key :
    (read : Memory) (sk : ℕ) (t : Tuple) → HoldsSocket read sk t → v4_key read sk ≡ tuple_key t
unfolding v4_key read_ports
socket_key read sk t h =
    let local : t.local_port % 256 + 256 * (t.local_port / 256) ≡ t.local_port = omega arith in
    let remote : t.remote_port / 256 * 256 + t.remote_port % 256 ≡ t.remote_port = omega arith in
    rw (
      v4_key, read_ports, h.local_addr_read, h.remote_addr_read, h.local_port_read,
      h.remote_port_read, native_u16, be_u16, local, remote,
    )

-- The capture tells of the task.
pub record Attributed (t : Task) (c : RawTlsCapture) : Type 0 where
  pub pid : c.pid ≡ t.pid_tgid / 2 ^ 32
  pub comm : c.comm ≡ bytes_or (zeros 16) t.comm
  pub cgroup : c.cgroup_id ≡ t.cgroup_id

capture-Attributed :
    (t : Task) (now : ℕ) (skb : Skb) (s : Segment) (is_egress is_continuation : Bool) (flags : ℕ)
    → Attributed t
        (make_capture now skb s is_egress is_continuation (some (current_conn_info t)) flags)
unfolding make_capture current_conn_info
capture-Attributed t now skb s is_egress is_continuation flags = record {
  pid = refl;
  comm = refl;
  cgroup = refl;
}

module _ (conns : KernelMap ConnKey ConnInfo) (stashes : KernelMap ℕ ConnStash)
    (conn_kept : (k : ConnKey) (v : ConnInfo) (m : conns.Map)
      → conns.get k (conns.insert k v m) ≡ some v)
    (stash_kept : (k : ℕ) (v : ConnStash) (m : stashes.Map)
      → stashes.get k (stashes.insert k v m) ≡ some v)
    (stash_gone : (k : ℕ) (m : stashes.Map) → stashes.get k (stashes.remove k m) ≡ none) where
  abbrev pub connected : Memory → Task → ℕ → Probes conns stashes → Probes conns stashes
  connected read task sk p =
      finish_connect_v4 conns stashes read task 0
        (stash_connect_entry conns stashes task (some sk) p)

  connected_lem :
      (read : Memory) (task : Task) (sk : ℕ) (p : Probes conns stashes)
      → connected read task sk p ≡ record {
        conn_map = conns.insert (v4_key read sk) (current_conn_info task) p.conn_map;
        connect_stash = stashes.remove task.pid_tgid (
            stashes.insert task.pid_tgid
              (record { sock_ptr = sk; info = current_conn_info task })
              p.connect_stash);
      }
  unfolding finish_connect_v4 stash_connect_entry
  connected_lem read task sk p = rw (
      stash_kept task.pid_tgid (record { sock_ptr = sk; info = current_conn_info task })
        p.connect_stash)

  -- A process that connects an IPv4 socket, with maps that keep what is put in: the capture that the
  -- classifier makes of any segment of the connection, going out or coming in, carries the
  -- process's number, name and control group, and nothing is left in the stash of the task.
  pub make_capture-connected :
      (read : Memory) (task : Task) (sk : ℕ) (t : Tuple) (p : Probes conns stashes) (now : ℕ)
      (skb : Skb) (s : Segment) (is_egress is_continuation : Bool) (flags : ℕ)
      → HoldsSocket read sk t
      → Travels t s is_egress
      → Attributed task (
          make_capture now skb s is_egress is_continuation
            (conns.get (conn_key s is_egress) (connected read task sk p).conn_map)
            flags)
        × (stashes.get task.pid_tgid (connected read task sk p).connect_stash ≡ none)
  make_capture-connected read task sk t p now skb s is_egress is_continuation flags h k =
      let done = connected_lem read task sk p in
      let found =
        ap (λ (x : Probes conns stashes). conns.get (conn_key s is_egress) x.conn_map) done
        ∙ ap
            (λ (key : ConnKey).
              conns.get key (conns.insert (v4_key read sk) (current_conn_info task) p.conn_map))
            (segment_key t s is_egress k ∙ sym (socket_key read sk t h))
        ∙ conn_kept (v4_key read sk) (current_conn_info task) p.conn_map in
      let gone =
        ap (λ (x : Probes conns stashes). stashes.get task.pid_tgid x.connect_stash) done
        ∙ stash_gone task.pid_tgid (
            stashes.insert task.pid_tgid (record { sock_ptr = sk; info = current_conn_info task })
              p.connect_stash) in
      (
        subst
            (λ (info : Option ConnInfo).
              Attributed task (make_capture now skb s is_egress is_continuation info flags))
            (sym found) (capture-Attributed task now skb s is_egress is_continuation flags),
        gone,
      )
