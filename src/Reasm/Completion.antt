-- ===== src/Reasm/Completion.antt =====
-- When a record comes out: two packets in order, and numbers that wrap.
use tls_probe.Common.Capture.{
  RawTlsCapture, payload_slice, has_flag, flag_fragment, flag_continuation,
}
use tls_probe.Reasm.{
  from_capture, key_code, HeadInfo, Fragments, ReassemblyEntry, FlowCode, flow_order, Reassembler,
  AssembledRecord, wrapping_add, walk, complete_record, complete_entry, check_entry, check_found,
  check_completion, cleanup_if_over_limit, expected_total, put_entry, head_entry, insert_fragment,
  joined_entry, insert_continuation, insert,
}
use tls_probe.Prelude.{
  ℕ, ◌+◌, ◌-◌, ◌≤◌, ◌<◌, ◌≡◌, ◌≢◌, refl, ap, ◌∙◌, true, false, [], ◌∷◌, ◌++◌, arith, le→leb, lt→leb,
  lt→ltb, le→ltb, ◌==◌, ==_refl, Option, none, some, length, take, length-append,
}
use tls_probe.SortedMap
use tls_probe.SortedMap.{get-insert_self, length-insert-le, length-insert_new}
use tls_probe.SortedMap.Orders.{number_order}
use tls_probe.Wire.{Bytes}

-- A head packet, and a continuation of the same flow that takes up where the head ends.
pub record IsPair (head more : RawTlsCapture) (total : ℕ) : Type 0 where
  pub head_flag : has_flag head.flags flag_fragment ≡ true
  pub more_head : has_flag more.flags flag_fragment ≡ false
  pub more_flag : has_flag more.flags flag_continuation ≡ true
  pub same_flow : key_code (from_capture more) ≡ key_code (from_capture head)
  pub announced : expected_total (payload_slice head) ≡ some total
  pub part : length (payload_slice head) < total
  pub nonempty : 0 < length (payload_slice head)
  pub enough : total ≤ length (payload_slice head) + length (payload_slice more)

abbrev pub code_of : RawTlsCapture → FlowCode
code_of cap = key_code (from_capture cap)

-- The flow is not known yet, and there is room for one more.
pub record IsFresh (r : Reassembler) (cap : RawTlsCapture) : Type 0 where
  pub unknown : SortedMap.get flow_order (code_of cap) r.flows ≡ none
  pub room : length r.flows < r.max_flows

-- The entry of a head packet of a new flow.
abbrev pub first_entry : ℕ → RawTlsCapture → ReassemblyEntry
first_entry now head = head_entry now head none

abbrev pub second_entry : ℕ → RawTlsCapture → RawTlsCapture → ReassemblyEntry
second_entry now head more = joined_entry now more (some (first_entry now head))

pub check_put :
    (r : Reassembler) (k : FlowCode) (e : ReassemblyEntry)
    → check_completion (put_entry r k e) k
      ≡ check_entry (put_entry r k e) k e.head e.expected_total e.fragments
unfolding check_completion check_found
check_put r k e = rw (get-insert_self flow_order k e r.flows)

abbrev pub entry_of : Fragments → ℕ → HeadInfo → ℕ → ReassemblyEntry
entry_of fragments created head total = record {
  fragments = fragments;
  created = created;
  head = some head;
  expected_total = some total;
}

-- With enough contiguous bytes the entry is completed, without them it waits.
pub check_enough :
    (r : Reassembler) (k : FlowCode) (fragments : Fragments) (created : ℕ) (head : HeadInfo)
    (total : ℕ)
    → total ≤ length (walk head.seq [] fragments)
    → (check_completion (put_entry r k (entry_of fragments created head total)) k).1
      ≡ some (record {
        head_capture = head.capture;
        buffer = take total (walk head.seq [] fragments);
        truncated = false;
      })
unfolding check_entry complete_entry complete_record
check_enough r k fragments created head total h =
    let e = entry_of fragments created head total in
    rw (
      check_put r k e,
      le→leb total (length (walk head.seq [] fragments)) h,
      get-insert_self flow_order k e r.flows,
    )

check_short :
    (r : Reassembler) (k : FlowCode) (fragments : Fragments) (created : ℕ) (head : HeadInfo)
    (total : ℕ)
    → length (walk head.seq [] fragments) < total
    → check_completion (put_entry r k (entry_of fragments created head total)) k
      ≡ (put_entry r k (entry_of fragments created head total), none)
unfolding check_entry
check_short r k fragments created head total h = rw (
  check_put r k (entry_of fragments created head total),
  lt→leb total (length (walk head.seq [] fragments)) h,
)

walk_one : (s : ℕ) (p : Bytes) → walk s [] ((s, p) ∷ []) ≡ p
unfolding walk
walk_one s p = rw (==_refl s)

pub walk_two :
    (s u : ℕ) (p q : Bytes)
    → u ≡ wrapping_add s (length p)
    → walk s [] ((s, p) ∷ (u, q) ∷ []) ≡ p ++ q
unfolding walk
walk_two s u p q e = rw (==_refl s, ← e, ==_refl u)

-- A fragment whose number has wrapped stands in front of the head, and is passed over.
walk_wrapped : (s u : ℕ) (p q : Bytes) → u < s → walk s [] ((u, q) ∷ (s, p) ∷ []) ≡ p
unfolding walk
walk_wrapped s u p q h =
    let differ : (u == s) ≡ false = ground arith in rw (differ, le→ltb s u (omega arith), ==_refl s)

pub singleton-insert : (s : ℕ) (p : Bytes) → SortedMap.insert number_order s p [] ≡ (s, p) ∷ []
unfolding SortedMap.insert
singleton-insert s p = refl

insert_after :
    (s u : ℕ) (p q : Bytes)
    → s < u
    → SortedMap.insert number_order u q ((s, p) ∷ []) ≡ (s, p) ∷ (u, q) ∷ []
unfolding SortedMap.insert
insert_after s u p q h = rw (le→ltb u s (omega arith), lt→ltb s u h)

insert_before :
    (s u : ℕ) (p q : Bytes)
    → u < s
    → SortedMap.insert number_order u q ((s, p) ∷ []) ≡ (u, q) ∷ (s, p) ∷ []
unfolding SortedMap.insert
insert_before s u p q h = rw (lt→ltb u s h)

get_other : (s u : ℕ) (p : Bytes) → s ≢ u → SortedMap.get number_order u ((s, p) ∷ []) ≡ none
unfolding SortedMap.get
get_other s u p h = ground arith

-- The head packet of a new flow waits.
pub insert_head :
    (now : ℕ) (r : Reassembler) (head : RawTlsCapture) (total : ℕ)
    → has_flag head.flags flag_fragment ≡ true
    → expected_total (payload_slice head) ≡ some total
    → length (payload_slice head) < total
    → IsFresh r head
    → insert now r head ≡ (put_entry r (code_of head) (first_entry now head), none)
unfolding insert insert_fragment cleanup_if_over_limit check_entry
insert_head now r head total flag announced part f =
    let k = code_of head in
    rw (
      flag,
      lt→leb r.max_flows (length r.flows) f.room,
      f.unknown,
      check_put r k (first_entry now head),
      announced,
      singleton-insert head.tcp_seq (payload_slice head),
      walk_one head.tcp_seq (payload_slice head),
      lt→leb total (length (payload_slice head)) part,
    )

-- The continuation comes to the head's entry in time, and completion is checked.
insert_more :
    (now later : ℕ) (r : Reassembler) (head more : RawTlsCapture) (total : ℕ)
    → IsPair head more total
    → head.tcp_seq ≢ more.tcp_seq
    → later - now < r.timeout
    → insert later (put_entry r (code_of head) (first_entry now head)) more
      ≡ check_completion
          (put_entry
            (put_entry r (code_of head) (first_entry now head))
            (code_of head)
            (second_entry now head more))
          (code_of head)
unfolding insert insert_continuation
insert_more now later r head more total p ne time =
    let k = code_of head in
    let e = first_entry now head in
    let alone = singleton-insert head.tcp_seq (payload_slice head) in
    let few : length (
          SortedMap.insert number_order more.tcp_seq (payload_slice more)
            ((head.tcp_seq, payload_slice head) ∷ []))
        < 4 =
      omega (
        arith,
        length-insert-le number_order more.tcp_seq (payload_slice more)
            ((head.tcp_seq, payload_slice head) ∷ []),
      ) in
    rw (
      p.more_head,
      p.more_flag,
      p.same_flow,
      get-insert_self flow_order k e r.flows,
      alone,
      get_other head.tcp_seq more.tcp_seq (payload_slice head) ne,
      lt→leb 4 _ few,
      lt→leb r.timeout (later - now) time,
    )

-- The two packets after one another.
abbrev pub both :
    ℕ → ℕ → Reassembler → RawTlsCapture → RawTlsCapture → Reassembler × Option AssembledRecord
both now later r first second = insert later (insert now r first).0 second

-- A record in two packets of a flow that is not known yet: where the second comes in time, its
-- number next to the head's without wrapping, and the two hold the announced bytes, which the
-- head alone does not, the head waits, and the second completes the record with exactly the
-- announced bytes, not truncated.
pub insert-both :
    (now later : ℕ) (r : Reassembler) (head more : RawTlsCapture) (total : ℕ)
    → IsPair head more total
    → IsFresh r head
    → later - now < r.timeout
    → more.tcp_seq ≡ head.tcp_seq + length (payload_slice head)
    → more.tcp_seq < 4294967296
    → ((insert now r head).1 ≡ none)
      × ((both now later r head more).1
          ≡ some (record {
            head_capture = head;
            buffer = take total (payload_slice head ++ payload_slice more);
            truncated = false;
          }))
unfolding check_entry complete_entry complete_record
insert-both now later r head more total p f time next w =
    let k = code_of head in
    let e = second_entry now head more in
    let r' = put_entry r k (first_entry now head) in
    let wraps : more.tcp_seq ≡ wrapping_add head.tcp_seq (length (payload_slice head)) =
      omega (arith, p.nonempty) in
    let size = length-append (payload_slice head) (payload_slice more) in
    let fragments =
      insert_after head.tcp_seq more.tcp_seq (payload_slice head) (payload_slice more)
        (omega (arith, p.nonempty)) in
    let bytes =
      walk_two head.tcp_seq more.tcp_seq (payload_slice head) (payload_slice more) wraps in
    let info : HeadInfo = record { seq = head.tcp_seq; capture = head } in
    let pieces : Fragments =
      (head.tcp_seq, payload_slice head) ∷ (more.tcp_seq, payload_slice more) ∷ [] in
    let start = insert_head now r head total p.head_flag p.announced p.part f in
    let joined : second_entry now head more ≡ entry_of pieces now info total =
      rw (p.announced, singleton-insert head.tcp_seq (payload_slice head), fragments) in
    (
      ap (λ x. x.1) start,
      ap (λ x. (insert later x.0 more).1) start
          ∙ ap (λ x. x.1)
              (insert_more now later r head more total p (omega (arith, p.nonempty)) time)
          ∙ ap (λ e. (check_completion (put_entry r' k e) k).1) joined
          ∙ check_enough r' k pieces now info total (rw bytes (omega (arith, p.enough, size)))
          ∙ rw bytes,
    )

-- Where the sequence number wraps between the head of a new flow and a continuation that takes
-- up where it ends and comes in time, neither packet returns a record: both wait, although all
-- announced bytes are there.
pub insert-both_wrapped :
    (now later : ℕ) (r : Reassembler) (head more : RawTlsCapture) (total : ℕ)
    → IsPair head more total
    → IsFresh r head
    → later - now < r.timeout
    → more.tcp_seq ≡ wrapping_add head.tcp_seq (length (payload_slice head))
    → more.tcp_seq < head.tcp_seq
    → ((insert now r head).1 ≡ none) × ((both now later r head more).1 ≡ none)
insert-both_wrapped now later r head more total p f time next wrapped =
    let k = code_of head in
    let r' = put_entry r k (first_entry now head) in
    let fragments =
      insert_before head.tcp_seq more.tcp_seq (payload_slice head) (payload_slice more) wrapped in
    let bytes =
      walk_wrapped head.tcp_seq more.tcp_seq (payload_slice head) (payload_slice more) wrapped in
    let info : HeadInfo = record { seq = head.tcp_seq; capture = head } in
    let pieces : Fragments =
      (more.tcp_seq, payload_slice more) ∷ (head.tcp_seq, payload_slice head) ∷ [] in
    let start = insert_head now r head total p.head_flag p.announced p.part f in
    let joined : second_entry now head more ≡ entry_of pieces now info total =
      rw (p.announced, singleton-insert head.tcp_seq (payload_slice head), fragments) in
    (
      ap (λ x. x.1) start,
      ap (λ x. (insert later x.0 more).1) start
          ∙ ap (λ x. x.1) (insert_more now later r head more total p (omega arith) time)
          ∙ ap (λ e. (check_completion (put_entry r' k e) k).1) joined
          ∙ ap (λ x. x.1) (check_short r' k pieces now info total (rw bytes p.part)),
    )
