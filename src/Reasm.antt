-- ===== src/Reasm.antt =====
-- crates/tls-probe-cli/src/reasm.rs: reassembly of records that span several packets. Times are
-- nanoseconds of one clock, and the time of a call is an argument. The `BTreeMap`s are sorted
-- lists, and the box around a head capture is left out.
pub mod Completion
pub mod Fourth
pub mod Reorder
pub mod Run
pub mod Safety
pub mod Stream
mod Tests
use tls_probe.Common.Capture.{
  RawTlsCapture, payload_slice, has_flag, flag_fragment, flag_continuation, flag_ingress,
}
use tls_probe.Prelude.{
  ℕ, ◌+◌, ◌-◌, ◌*◌, ◌%◌, ◌^◌, ◌≡◌, refl, Bool, true, false, not, ◌&&◌, ◌||◌, List, [], ◌∷◌, ◌++◌,
  Option, none, some, is_some, ltb, leb, ◌==◌, length, take, get_elem?, if◌then◌else◌,
}
use tls_probe.SortedMap.{KeyOrder, Entries}
use tls_probe.SortedMap
use tls_probe.SortedMap.Orders.{number_order, list_order}
use tls_probe.Wire.{Bytes}

pub record FlowKey : Type 0 where
  pub src_addr : Bytes
  pub dst_addr : Bytes
  pub src_port : ℕ
  pub dst_port : ℕ
  pub dir : Bool

-- `FlowKey::from_capture`
unfoldable pub from_capture : RawTlsCapture → FlowKey
from_capture cap = record {
  src_addr = cap.src_addr;
  dst_addr = cap.dst_addr;
  src_port = cap.src_port;
  dst_port = cap.dst_port;
  dir = has_flag cap.flags flag_ingress;
}

-- The fields in the order in which the derived `Ord` compares them; `false` is before `true`.
abbrev pub key_code : FlowKey → List (List ℕ)
key_code k =
    k.src_addr
    ∷ k.dst_addr
    ∷ (k.src_port ∷ [])
    ∷ (k.dst_port ∷ [])
    ∷ ((if k.dir then 1 else 0) ∷ [])
    ∷ []

pub record HeadInfo : Type 0 where
  pub seq : ℕ
  pub capture : RawTlsCapture

abbrev pub Fragments : Type 0
Fragments = Entries ℕ Bytes

pub record ReassemblyEntry : Type 0 where
  pub fragments : Fragments
  pub created : ℕ
  pub head : Option HeadInfo
  pub expected_total : Option ℕ

-- The flows are kept under the codes of their keys.
abbrev pub FlowCode : Type 0
FlowCode = List (List ℕ)

abbrev pub Flows : Type 0
Flows = Entries FlowCode ReassemblyEntry

abbrev pub flow_order : KeyOrder FlowCode
flow_order = list_order (list_order number_order)

pub record Reassembler : Type 0 where
  pub flows : Flows
  pub max_flows : ℕ
  pub timeout : ℕ

pub record AssembledRecord : Type 0 where
  pub head_capture : RawTlsCapture
  pub buffer : Bytes
  pub truncated : Bool

-- `Reassembler::new()`
unfoldable pub new : Reassembler
new = record { flows = []; max_flows = 1024; timeout = 3_000_000_000 }

-- `wrapping_add` of the length of a fragment
abbrev pub wrapping_add : ℕ → ℕ → ℕ
wrapping_add seq n = (seq + n % 2 ^ 32) % 2 ^ 32

-- The walk over the fragments: the contiguous bytes from `next_seq` on.
unfoldable pub walk : ℕ → Bytes → Fragments → Bytes
walk next_seq buffer [] = buffer
walk next_seq buffer ((frag_seq, frag_payload) ∷ fragments) =
    let joined =
      walk (wrapping_add next_seq (length frag_payload)) (buffer ++ frag_payload) fragments in
    let skipped = walk next_seq buffer fragments in
    if frag_seq == next_seq then joined else if ltb next_seq frag_seq then buffer else skipped

complete_record : ℕ → Bytes → Option HeadInfo → Option AssembledRecord
complete_record expected buffer none = none
complete_record expected buffer (some head) =
    some (record { head_capture = head.capture; buffer = take expected buffer; truncated = false })

-- The entry is removed, `entry.head?.capture` read, and the buffer cut to the expected length.
complete_entry :
    Reassembler
    → FlowCode
    → ℕ
    → Bytes
    → Option ReassemblyEntry
    → Reassembler × Option AssembledRecord
unfolding complete_record
complete_entry r key expected buffer none = (r, none)
complete_entry r key expected buffer (some entry) = (
  record r { flows = SortedMap.remove flow_order key r.flows },
  complete_record expected buffer entry.head,
)

-- The count of contiguous bytes is the length of the buffer.
pub check_entry :
    Reassembler
    → FlowCode
    → Option HeadInfo
    → Option ℕ
    → Fragments
    → Reassembler × Option AssembledRecord
unfolding walk complete_entry
check_entry r key none expected fragments = (r, none)
check_entry r key (some head) none fragments = (r, none)
check_entry r key (some head) (some expected) fragments =
    let buffer = walk head.seq [] fragments in
    if leb expected (length buffer)
    then complete_entry r key expected buffer (SortedMap.get flow_order key r.flows)
    else (r, none)

check_found : Reassembler → FlowCode → Option ReassemblyEntry → Reassembler × Option AssembledRecord
unfolding check_entry
check_found r key none = (r, none)
check_found r key (some entry) = check_entry r key entry.head entry.expected_total entry.fragments

unfoldable pub check_completion : Reassembler → FlowCode → Reassembler × Option AssembledRecord
unfolding check_found
check_completion r key = check_found r key (SortedMap.get flow_order key r.flows)

assemble : Option HeadInfo → Fragments → Bool → Option AssembledRecord
unfolding walk
assemble none fragments truncated = none
assemble (some head) fragments truncated = some (record {
  head_capture = head.capture;
  buffer = walk head.seq [] fragments;
  truncated = truncated;
})

finalize_found :
    Reassembler → FlowCode → Bool → Option ReassemblyEntry → Reassembler × Option AssembledRecord
unfolding assemble
finalize_found r key truncated none = (r, none)
finalize_found r key truncated (some entry) = (
  record r { flows = SortedMap.remove flow_order key r.flows },
  assemble entry.head entry.fragments truncated,
)

unfoldable pub finalize_entry : Reassembler → FlowCode → Bool → Reassembler × Option AssembledRecord
unfolding finalize_found
finalize_entry r key truncated =
    finalize_found r key truncated (SortedMap.get flow_order key r.flows)

-- The first key goes, the smallest one.
drop_first : Flows → Flows
drop_first [] = []
drop_first ((key, entry) ∷ flows) = SortedMap.remove flow_order key ((key, entry) ∷ flows)

unfoldable pub cleanup_if_over_limit : Reassembler → Reassembler
unfolding drop_first
cleanup_if_over_limit r =
    if leb r.max_flows (length r.flows) then record r { flows = drop_first r.flows } else r

-- The length that the record header announces, with the header's own five bytes.
unfoldable pub expected_total : Bytes → Option ℕ
expected_total (a ∷ b ∷ c ∷ hi ∷ lo ∷ rest) = some (hi * 256 + lo + 5)
expected_total _ = none

abbrev pub put_entry : Reassembler → FlowCode → ReassemblyEntry → Reassembler
put_entry r key entry = record r { flows = SortedMap.insert flow_order key entry r.flows }

-- The entry of a head packet: an orphan keeps its fragments and its age, else a new one.
abbrev head_entry : ℕ → RawTlsCapture → Option ReassemblyEntry → ReassemblyEntry
head_entry now cap old = record {
  fragments =
      SortedMap.insert number_order cap.tcp_seq (payload_slice cap)
        (elim old [ none ↦ [] | some entry ↦ entry.fragments ]);
  created = elim old [ none ↦ now | some entry ↦ entry.created ];
  head = some (record { seq = cap.tcp_seq; capture = cap });
  expected_total = expected_total (payload_slice cap);
}

-- The branch of `insert` for FLAG_FRAGMENT.
unfoldable pub insert_fragment :
    ℕ → Reassembler → RawTlsCapture → Reassembler × Option AssembledRecord
unfolding cleanup_if_over_limit check_completion from_capture expected_total
insert_fragment now r cap =
    let key = key_code (from_capture cap) in
    let r' = cleanup_if_over_limit r in
    let entry = head_entry now cap (SortedMap.get flow_order key r'.flows) in
    check_completion (put_entry r' key entry) key

-- The entry that a continuation finds or makes, with the continuation's bytes in it.
abbrev joined_entry : ℕ → RawTlsCapture → Option ReassemblyEntry → ReassemblyEntry
joined_entry now cap none = record {
  fragments = SortedMap.insert number_order cap.tcp_seq (payload_slice cap) [];
  created = now;
  head = none;
  expected_total = none;
}
joined_entry now cap (some entry) = record entry {
  fragments = SortedMap.insert number_order cap.tcp_seq (payload_slice cap) entry.fragments;
}

abbrev is_known : RawTlsCapture → Option ReassemblyEntry → Bool
is_known cap none = false
is_known cap (some entry) = is_some (SortedMap.get number_order cap.tcp_seq entry.fragments)

-- The branch of `insert` for FLAG_CONTINUATION.
unfoldable pub insert_continuation :
    ℕ → Reassembler → RawTlsCapture → Reassembler × Option AssembledRecord
unfolding finalize_entry check_completion from_capture
insert_continuation now r cap =
    let key = key_code (from_capture cap) in
    let old = SortedMap.get flow_order key r.flows in
    let entry = joined_entry now cap old in
    let r' = put_entry r key entry in
    if is_known cap old
    then (r, none)
    else if leb 4 (length entry.fragments)
    then finalize_entry r' key true
    else if leb r.timeout (now - entry.created)
    then finalize_entry r' key true
    else check_completion r' key

-- `Reassembler::insert`
unfoldable pub insert : ℕ → Reassembler → RawTlsCapture → Reassembler × Option AssembledRecord
unfolding insert_fragment insert_continuation
insert now r cap =
    let fragment = has_flag cap.flags flag_fragment in
    let continuation = has_flag cap.flags flag_continuation in
    if not (fragment || continuation)
    then (r, none)
    else if fragment
    then insert_fragment now r cap
    else if continuation
    then insert_continuation now r cap
    else (r, none)

-- `self.flows.iter()`, the keys of the entries that are too old.
unfoldable pub expired_keys : ℕ → ℕ → Flows → List FlowCode
expired_keys now timeout [] = []
expired_keys now timeout ((key, entry) ∷ flows) =
    let rest = expired_keys now timeout flows in
    if leb timeout (now - entry.created) then key ∷ rest else rest

-- The second loop of `sweep_expired`.
unfoldable pub finalize_all : Reassembler → List FlowCode → Reassembler × List AssembledRecord
unfolding finalize_entry
finalize_all r [] = (r, [])
finalize_all r (key ∷ keys) =
    let (r', done) = finalize_entry r key true in
    let (r'', rest) = finalize_all r' keys in
    (r'', elim done [ none ↦ rest | some record' ↦ record' ∷ rest ])

unfoldable pub sweep_expired : ℕ → Reassembler → Reassembler × List AssembledRecord
unfolding expired_keys finalize_all
sweep_expired now r = finalize_all r (expired_keys now r.timeout r.flows)
