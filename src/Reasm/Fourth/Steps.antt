-- ===== src/Reasm/Fourth/Steps.antt =====
-- crates/tls-probe-cli/src/reasm.rs: one more packet of a flow with a head.
use tls_probe.Common.Capture.{
  RawTlsCapture, payload_slice, has_flag, flag_fragment, flag_continuation,
}
use tls_probe.Reasm.{
  HeadInfo, Fragments, flow_order, Reassembler, wrapping_add, walk, check_entry, assemble,
  finalize_found, finalize_entry, put_entry, insert_continuation, insert,
}
use tls_probe.Reasm.Completion.{code_of, check_put, entry_of}
use tls_probe.Prelude.{
  ℕ, ◌-◌, ◌≤◌, ◌<◌, ◌≡◌, refl, sym, ap, ◌∙◌, true, false, [], ◌∷◌, ◌++◌, arith, le→leb, lt→leb,
  lt→ltb, ltb, ==_refl, none, some, length, append-nil, append_assoc,
}
use tls_probe.SortedMap
use tls_probe.SortedMap.{
  get-insert_self, get-insert_ne, get-remove_self, get-remove_ne, insert-IsSorted, IsSorted,
}
use tls_probe.SortedMap.Orders.{number_order}
use tls_probe.Wire.{Bytes}

-- Every fragment stands before this number.
abbrev pub Before : ℕ → Fragments → Type 0
Before u [] = Unit
Before u ((s, p) ∷ pieces) = (s < u) × Before u pieces

insert-Before :
    (u : ℕ) (q : Bytes) (pieces : Fragments)
    → Before u pieces
    → SortedMap.insert number_order u q pieces ≡ pieces ++ (u, q) ∷ []
unfolding SortedMap.insert
insert-Before u q [] h = refl
insert-Before u q ((s, p) ∷ pieces) h =
    let later : ltb u s ≡ false = ground arith in
    rw (later, lt→ltb s u h.0) (ap (λ (l : Fragments). (s, p) ∷ l) (insert-Before u q pieces h.1))

get-Before :
    (u : ℕ) (pieces : Fragments) → Before u pieces → SortedMap.get number_order u pieces ≡ none
unfolding SortedMap.get
get-Before u [] h = refl
get-Before u ((s, p) ∷ pieces) h = ground (arith, get-Before u pieces h.1)

module _ (r : Reassembler) (cap : RawTlsCapture) (pieces : Fragments) (created : ℕ)
    (head : HeadInfo) (total : ℕ) (before : Before cap.tcp_seq pieces)
    (is_more : has_flag cap.flags flag_fragment ≡ false)
    (is_continuation : has_flag cap.flags flag_continuation ≡ true)
    (found : SortedMap.get flow_order (code_of cap) r.flows
      ≡ some (entry_of pieces created head total)) where
  abbrev pub longer : Fragments
  longer = pieces ++ (cap.tcp_seq, payload_slice cap) ∷ []

  abbrev pub with_piece : Reassembler
  with_piece = put_entry r (code_of cap) (entry_of longer created head total)

  -- Of at most three fragments without all announced bytes the flow waits.
  pub insert-waits :
      (now : ℕ)
      → length longer < 4
      → now - created < r.timeout
      → length (walk head.seq [] longer) < total
      → insert now r cap ≡ (with_piece, none)
  unfolding insert insert_continuation check_entry
  insert-waits now few time short = rw (
    is_more,
    is_continuation,
    found,
    get-Before cap.tcp_seq pieces before,
    insert-Before cap.tcp_seq (payload_slice cap) pieces before,
    lt→leb 4 (length longer) few,
    lt→leb r.timeout (now - created) time,
    check_put r (code_of cap) (entry_of longer created head total),
    lt→leb total (length (walk head.seq [] longer)) short,
  )

  -- Four fragments are returned as they are, and the flow is forgotten.
  pub insert-ends :
      (now : ℕ)
      → 4 ≤ length longer
      → insert now r cap ≡ (
        record with_piece { flows = SortedMap.remove flow_order (code_of cap) with_piece.flows },
        some (record {
          head_capture = head.capture;
          buffer = walk head.seq [] longer;
          truncated = true;
        }),
      )
  unfolding insert insert_continuation finalize_entry finalize_found assemble
  insert-ends now many = rw (
    is_more,
    is_continuation,
    found,
    get-Before cap.tcp_seq pieces before,
    insert-Before cap.tcp_seq (payload_slice cap) pieces before,
    le→leb 4 (length longer) many,
    get-insert_self flow_order (code_of cap) (entry_of longer created head total) r.flows,
  )

-- Fragments that follow one another from this number on, and their bytes.
abbrev pub InOrder : ℕ → Fragments → Type 0
InOrder s [] = Unit
InOrder s ((u, p) ∷ pieces) = (u ≡ s) × InOrder (wrapping_add s (length p)) pieces

abbrev pub bytes_of : Fragments → Bytes
bytes_of [] = []
bytes_of ((u, p) ∷ pieces) = p ++ bytes_of pieces

pub walk-InOrder :
    (s : ℕ) (buffer : Bytes) (pieces : Fragments)
    → InOrder s pieces
    → walk s buffer pieces ≡ buffer ++ bytes_of pieces
unfolding walk
walk-InOrder s buffer [] h = sym (append-nil buffer)
walk-InOrder s buffer ((u, p) ∷ pieces) h =
    rw (h.0, ==_refl s)
      (walk-InOrder (wrapping_add s (length p)) (buffer ++ p) pieces h.1
        ∙ append_assoc buffer p (bytes_of pieces))
