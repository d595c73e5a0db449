-- ===== src/Reasm/Fourth.antt =====
-- crates/tls-probe-cli/src/reasm.rs: the fourth packet of a flow.
mod Steps
use tls_probe.Common.Capture.{
  RawTlsCapture, payload_slice, has_flag, flag_fragment, flag_continuation,
}
use tls_probe.Reasm.{
  HeadInfo, Fragments, ReassemblyEntry, FlowCode, flow_order, Reassembler, AssembledRecord,
  wrapping_add, walk, expected_total, put_entry, insert,
}
use tls_probe.Reasm.Completion.{
  insert_head, IsFresh, code_of, first_entry, entry_of, singleton-insert,
}
use tls_probe.Reasm.Fourth.Steps.{InOrder, bytes_of, walk-InOrder, insert-waits, insert-ends}
use tls_probe.Prelude.{
  ℕ, ◌+◌, ◌-◌, ◌<◌, ◌≡◌, ◌≢◌, refl, sym, ap, ◌∙◌, true, false, List, [], ◌∷◌, ◌++◌, arith, Option,
  none, some, length, length-append, append-nil,
}
use tls_probe.SortedMap
use tls_probe.SortedMap.{
  get-insert_self, get-insert_ne, get-remove_self, get-remove_ne, insert-IsSorted, IsSorted,
}
use tls_probe.Wire.{Bytes}

-- A continuation of the same flow that takes up where a packet with bytes ends.
pub record Follows (first more : RawTlsCapture) : Type 0 where
  pub no_head : has_flag more.flags flag_fragment ≡ false
  pub continuation : has_flag more.flags flag_continuation ≡ true
  pub same_flow : code_of more ≡ code_of first
  pub next : more.tcp_seq ≡ first.tcp_seq + length (payload_slice first)
  pub nonempty : 0 < length (payload_slice first)

-- A head packet and three continuations, one behind the other, of which the first three do not
-- hold the announced bytes.
pub record IsFour (head a b c : RawTlsCapture) (total : ℕ) : Type 0 where
  pub head_flag : has_flag head.flags flag_fragment ≡ true
  pub announced : expected_total (payload_slice head) ≡ some total
  pub second : Follows head a
  pub third : Follows a b
  pub fourth : Follows b c
  pub no_wrap : c.tcp_seq < 4294967296
  pub short :
      length (payload_slice head) + length (payload_slice a) + length (payload_slice b) < total

-- Packets that come in turn, each at its time.
abbrev pub in_turn :
    Reassembler → List (ℕ × RawTlsCapture) → Reassembler × List (Option AssembledRecord)
in_turn r [] = (r, [])
in_turn r ((now, cap) ∷ caps) =
    let (r', out) = insert now r cap in let (r'', outs) = in_turn r' caps in (r'', out ∷ outs)

module _ (r : Reassembler) (head a b c : RawTlsCapture) (total : ℕ)
    (four : IsFour head a b c total) where
  abbrev info : HeadInfo
  info = record { seq = head.tcp_seq; capture = head }

  abbrev piece : RawTlsCapture → ℕ × Bytes
  piece cap = (cap.tcp_seq, payload_slice cap)

  abbrev one_piece : Fragments
  one_piece = piece head ∷ []

  abbrev two_pieces : Fragments
  two_pieces = piece head ∷ piece a ∷ []

  abbrev three_pieces : Fragments
  three_pieces = piece head ∷ piece a ∷ piece b ∷ []

  abbrev four_pieces : Fragments
  four_pieces = piece head ∷ piece a ∷ piece b ∷ piece c ∷ []

  abbrev first_state : ℕ → Reassembler
  first_state now = put_entry r (code_of head) (entry_of one_piece now info total)

  abbrev second_state : ℕ → Reassembler
  second_state now = put_entry (first_state now) (code_of a) (entry_of two_pieces now info total)

  abbrev third_state : ℕ → Reassembler
  third_state now = put_entry (second_state now) (code_of b) (entry_of three_pieces now info total)

  abbrev full_state : ℕ → Reassembler
  full_state now = put_entry (third_state now) (code_of c) (entry_of four_pieces now info total)

  next_second : a.tcp_seq ≡ wrapping_add head.tcp_seq (length (payload_slice head))
  next_second = omega (
    arith, four.second.next, four.third.next, four.fourth.next, four.second.nonempty,
    four.third.nonempty, four.fourth.nonempty, four.no_wrap,
  )

  next_third : b.tcp_seq ≡ wrapping_add a.tcp_seq (length (payload_slice a))
  next_third = omega (arith, four.third.next, four.fourth.next, four.third.nonempty, four.no_wrap)

  next_fourth : c.tcp_seq ≡ wrapping_add b.tcp_seq (length (payload_slice b))
  next_fourth = omega (arith, four.fourth.next, four.no_wrap)

  two_pieces-InOrder : InOrder head.tcp_seq two_pieces
  two_pieces-InOrder = (refl, (next_second, tt))

  three_pieces-InOrder : InOrder head.tcp_seq three_pieces
  three_pieces-InOrder = (refl, (next_second, (rw (← next_second) next_third, tt)))

  four_pieces-InOrder : InOrder head.tcp_seq four_pieces
  four_pieces-InOrder = (
    refl,
    (
      next_second,
      (rw (← next_second) next_third, (rw (← next_second, ← next_third) next_fourth, tt)),
    ),
  )

  short_two : length (walk head.tcp_seq [] two_pieces) < total
  short_two = omega (
    arith,
    four.short,
    ap length (walk-InOrder head.tcp_seq [] two_pieces two_pieces-InOrder),
    length-append (payload_slice head) (bytes_of (piece a ∷ [])),
    length-append (payload_slice a) [],
  )

  short_three : length (walk head.tcp_seq [] three_pieces) < total
  short_three = omega (
    arith,
    four.short,
    ap length (walk-InOrder head.tcp_seq [] three_pieces three_pieces-InOrder),
    length-append (payload_slice head) (bytes_of (piece a ∷ piece b ∷ [])),
    length-append (payload_slice a) (bytes_of (piece b ∷ [])),
    length-append (payload_slice b) [],
  )

  insert-first : (now : ℕ) → IsFresh r head → insert now r head ≡ (first_state now, none)
  insert-first now f =
      let alone = singleton-insert head.tcp_seq (payload_slice head) in
      let e : first_entry now head ≡ entry_of one_piece now info total =
        rw (four.announced, alone) in
      insert_head now r head total four.head_flag four.announced (omega (arith, four.short)) f
      ∙ ap (λ (x : ReassemblyEntry). (put_entry r (code_of head) x, none)) e

  insert-second :
      (now later : ℕ)
      → later - now < r.timeout
      → insert later (first_state now) a ≡ (second_state now, none)
  insert-second now later time =
      let s = four.second in
      insert-waits (first_state now) a one_piece now info total
        (omega (arith, s.next, s.nonempty), tt) s.no_head s.continuation
        (rw s.same_flow (get-insert_self flow_order (code_of head) _ r.flows)) later (omega arith)
        time short_two

  insert-third :
      (now later : ℕ)
      → later - now < r.timeout
      → insert later (second_state now) b ≡ (third_state now, none)
  insert-third now later time =
      let s = four.second in
      let t = four.third in
      insert-waits (second_state now) b two_pieces now info total
        (
          omega (arith, s.next, s.nonempty, t.next, t.nonempty),
          (omega (arith, t.next, t.nonempty), tt),
        )
        t.no_head t.continuation
        (rw t.same_flow (get-insert_self flow_order (code_of a) _ (first_state now).flows)) later
        (omega arith) time short_three

  -- What the fourth packet leaves.
  abbrev last_state : ℕ → Reassembler
  last_state now = record (full_state now) {
    flows = SortedMap.remove flow_order (code_of c) (full_state now).flows;
  }

  abbrev all_bytes : Bytes
  all_bytes = payload_slice head ++ (payload_slice a ++ (payload_slice b ++ payload_slice c))

  insert-fourth :
      (now later : ℕ)
      → insert later (third_state now) c ≡ (
        last_state now,
        some (record { head_capture = head; buffer = all_bytes; truncated = true }),
      )
  insert-fourth now later =
      let s = four.second in
      let t = four.third in
      let u = four.fourth in
      let bytes : walk head.tcp_seq [] four_pieces ≡ all_bytes =
        walk-InOrder head.tcp_seq [] four_pieces four_pieces-InOrder
        ∙ rw (append-nil (payload_slice c)) in
      insert-ends (third_state now) c three_pieces now info total
        (
          omega (arith, s.next, s.nonempty, t.next, t.nonempty, u.next, u.nonempty),
          (
            omega (arith, t.next, t.nonempty, u.next, u.nonempty),
            (omega (arith, u.next, u.nonempty), tt),
          ),
        )
        u.no_head u.continuation
        (rw u.same_flow (get-insert_self flow_order (code_of b) _ (second_state now).flows)) later
        (omega arith)
      ∙ ap
          (λ (buffer : Bytes). (
            last_state now,
            some (record { head_capture = head; buffer = buffer; truncated = true }),
          ))
          bytes

  last_state-gone :
      (now : ℕ)
      → IsSorted flow_order r.flows
      → SortedMap.get flow_order (code_of head) (last_state now).flows ≡ none
  last_state-gone now s =
      let same : code_of head ≡ code_of c =
        sym (four.fourth.same_flow ∙ four.third.same_flow ∙ four.second.same_flow) in
      ap (λ (key : FlowCode). SortedMap.get flow_order key (last_state now).flows) same
      ∙ get-remove_self flow_order (code_of c) (full_state now).flows (
          insert-IsSorted flow_order (code_of c) _ _ (
            insert-IsSorted flow_order (code_of b) _ _ (
              insert-IsSorted flow_order (code_of a) _ _
                (insert-IsSorted flow_order (code_of head) _ r.flows s))))

  last_state-others :
      (now : ℕ) (key : FlowCode)
      → key ≢ code_of head
      → SortedMap.get flow_order key (last_state now).flows ≡ SortedMap.get flow_order key r.flows
  last_state-others now key other =
      let same_a = four.second.same_flow in
      let same_b = four.third.same_flow ∙ same_a in
      let same_c = four.fourth.same_flow ∙ same_b in
      get-remove_ne flow_order (code_of c) key (full_state now).flows (λ e. other (e ∙ same_c))
      ∙ get-insert_ne flow_order (code_of c) key _ _ (λ e. other (e ∙ same_c))
      ∙ get-insert_ne flow_order (code_of b) key _ _ (λ e. other (e ∙ same_b))
      ∙ get-insert_ne flow_order (code_of a) key _ _ (λ e. other (e ∙ same_a))
      ∙ get-insert_ne flow_order (code_of head) key _ r.flows other

  -- A flow that is not known yet, the head packet and three continuations that follow it in order
  -- without wrapping, where the first three do not hold the announced bytes and the middle two come
  -- in time: the first three return nothing, and the fourth, whenever it comes, returns all bytes of
  -- the four, marked truncated and not cut to the announced length, also where all of the record is
  -- there. The flow is forgotten, and every other flow is as it was.
  pub in_turn-fourth :
      (now second third fourth : ℕ) (key : FlowCode)
      → IsFresh r head
      → IsSorted flow_order r.flows
      → second - now < r.timeout
      → third - now < r.timeout
      → key ≢ code_of head
      → let caps : List (ℕ × RawTlsCapture) =
          (now, head) ∷ (second, a) ∷ (third, b) ∷ (fourth, c) ∷ [] in
        ((in_turn r caps).1
          ≡ none
            ∷ none
            ∷ none
            ∷ some (record { head_capture = head; buffer = all_bytes; truncated = true })
            ∷ [])
        × (SortedMap.get flow_order (code_of head) (in_turn r caps).0.flows ≡ none)
        × (SortedMap.get flow_order key (in_turn r caps).0.flows
            ≡ SortedMap.get flow_order key r.flows)
  in_turn-fourth now second third fourth key f s soon later other =
      rw
        (
          insert-first now f,
          insert-second now second soon,
          insert-third now third later,
          insert-fourth now fourth,
        )
        (refl, last_state-gone now s, last_state-others now key other)
