-- ===== src/Reasm/Reorder.antt =====
-- crates/tls-probe-cli/src/reasm.rs: a record whose continuation comes before its head.
use tls_probe.Common.Capture.{RawTlsCapture, payload_slice}
use tls_probe.Reasm.{
  HeadInfo, Fragments, ReassemblyEntry, flow_order, Reassembler, wrapping_add, check_entry,
  check_completion, cleanup_if_over_limit, put_entry, head_entry, insert_fragment, joined_entry,
  insert_continuation, insert,
}
use tls_probe.Reasm.Completion.{
  IsPair, IsFresh, code_of, both, check_put, entry_of, check_enough, walk_two, singleton-insert,
}
use tls_probe.SortedMap
use tls_probe.SortedMap.{get-insert_self, length-insert-le}
use tls_probe.SortedMap.Orders.{number_order}
use tls_probe.Wire.{Bytes}
use tls_probe.Prelude.{
  ℕ, suc, ◌+◌, ◌-◌, ◌<◌, ◌≡◌, ap, ◌∙◌, false, [], ◌∷◌, ◌++◌, arith, lt→leb, lt→ltb, none, some,
  length, take, length-append,
}

-- The entry of a continuation that no head came before.
abbrev orphan : ℕ → RawTlsCapture → ReassemblyEntry
orphan now more = joined_entry now more none

-- The continuation waits.
insert_orphan :
    (now : ℕ) (r : Reassembler) (head more : RawTlsCapture) (total : ℕ)
    → IsPair head more total
    → IsFresh r more
    → 0 < r.timeout
    → insert now r more ≡ (put_entry r (code_of more) (orphan now more), none)
unfolding insert insert_continuation check_entry SortedMap.get SortedMap.insert
insert_orphan now r head more total p f time =
    let k = code_of more in
    let alone = singleton-insert more.tcp_seq (payload_slice more) in
    let young : now - now < r.timeout = omega arith in
    rw (
      p.more_head,
      p.more_flag,
      f.unknown,
      alone,
      lt→leb r.timeout (now - now) young,
      check_put r k (orphan now more),
      alone,
    )

insert_front :
    (s u : ℕ) (p q : Bytes)
    → s < u
    → SortedMap.insert number_order s p ((u, q) ∷ []) ≡ (s, p) ∷ (u, q) ∷ []
unfolding SortedMap.insert
insert_front s u p q h = rw (lt→ltb s u h)

-- The head is put in front of the bytes that wait for it.
insert_late :
    (now later : ℕ) (r : Reassembler) (head more : RawTlsCapture) (total : ℕ)
    → IsPair head more total
    → suc (length r.flows) < r.max_flows
    → insert later (put_entry r (code_of more) (orphan now more)) head
      ≡ check_completion
          (put_entry
            (put_entry r (code_of more) (orphan now more))
            (code_of head)
            (head_entry later head (some (orphan now more))))
          (code_of head)
unfolding insert insert_fragment cleanup_if_over_limit
insert_late now later r head more total p room =
    let k = code_of more in
    let few : length (SortedMap.insert flow_order k (orphan now more) r.flows) < r.max_flows =
      omega (arith, length-insert-le flow_order k (orphan now more) r.flows) in
    rw (
      p.head_flag,
      lt→leb r.max_flows _ few,
      ← p.same_flow,
      get-insert_self flow_order k (orphan now more) r.flows,
    )

-- A record in two packets of a flow that is not known yet, the continuation first: where there is
-- room for two flows, and the numbers are next to each other without wrapping, the continuation
-- waits however long, and the head completes the record with exactly the announced bytes, not
-- truncated.
pub insert-both_reversed :
    (now later : ℕ) (r : Reassembler) (head more : RawTlsCapture) (total : ℕ)
    → IsPair head more total
    → IsFresh r more
    → 0 < r.timeout
    → suc (length r.flows) < r.max_flows
    → more.tcp_seq ≡ head.tcp_seq + length (payload_slice head)
    → more.tcp_seq < 4294967296
    → ((insert now r more).1 ≡ none)
      × ((both now later r more head).1
          ≡ some (record {
            head_capture = head;
            buffer = take total (payload_slice head ++ payload_slice more);
            truncated = false;
          }))
insert-both_reversed now later r head more total p f time room next w =
    let k = code_of head in
    let r' = put_entry r (code_of more) (orphan now more) in
    let wraps : more.tcp_seq ≡ wrapping_add head.tcp_seq (length (payload_slice head)) =
      omega (arith, p.nonempty) in
    let size = length-append (payload_slice head) (payload_slice more) in
    let fragments =
      insert_front head.tcp_seq more.tcp_seq (payload_slice head) (payload_slice more)
        (omega (arith, p.nonempty)) in
    let bytes =
      walk_two head.tcp_seq more.tcp_seq (payload_slice head) (payload_slice more) wraps in
    let info : HeadInfo = record { seq = head.tcp_seq; capture = head } in
    let pieces : Fragments =
      (head.tcp_seq, payload_slice head) ∷ (more.tcp_seq, payload_slice more) ∷ [] in
    let start = insert_orphan now r head more total p f time in
    let joined : head_entry later head (some (orphan now more)) ≡ entry_of pieces now info total =
      rw (p.announced, singleton-insert more.tcp_seq (payload_slice more), fragments) in
    (
      ap (λ x. x.1) start,
      ap (λ x. (insert later x.0 head).1) start
          ∙ ap (λ x. x.1) (insert_late now later r head more total p room)
          ∙ ap (λ e. (check_completion (put_entry r' k e) k).1) joined
          ∙ check_enough r' k pieces now info total (rw bytes (omega (arith, p.enough, size)))
          ∙ rw bytes,
    )
