-- ===== src/Reasm/Safety.antt =====
-- Whatever order packets arrive in, whatever is lost or repeated, and whenever the sweeps run, the
-- reassembler returns only bytes of the streams.
use tls_probe.Common.Capture.{
  RawTlsCapture, payload_slice, has_flag, flag_fragment, flag_continuation,
}
use tls_probe.Reasm.{
  from_capture, key_code, HeadInfo, Fragments, ReassemblyEntry, FlowCode, Flows, flow_order,
  Reassembler, AssembledRecord, walk, complete_record, check_entry, check_found, check_completion,
  assemble, finalize_found, finalize_entry, drop_first, cleanup_if_over_limit, put_entry,
  head_entry, insert_fragment, joined_entry, is_known, insert_continuation, insert, expired_keys,
  finalize_all, sweep_expired,
}
use tls_probe.Reasm.Stream.{
  Streams, PieceOf, walk-PieceOf, HeadFrom, EntryFrom, FlowsFrom, CaptureFrom, RecordFrom,
}
use tls_probe.Prelude.{
  ℕ, zero, suc, ◌+◌, ◌-◌, ◌≤◌, ◌≡◌, refl, sym, ap, ◌∙◌, inl, inr, true, false, Bool, List, [], ◌∷◌,
  arith, Bool-cases, leb, Option, none, some, length, take, drop, length-take, take-take, All,
}
use tls_probe.SortedMap
use tls_probe.SortedMap.{Entries}
use tls_probe.SortedMap.Orders.{number_order}
use tls_probe.SortedMap.Every.{Every, Every-insert, Every-remove, Every-get}
use tls_probe.Wire.{Bytes}

take-min : (n : ℕ) (xs : Bytes) → take n xs ≡ take (length (take n xs)) xs
take-min zero xs = refl
take-min (suc n) [] = refl
take-min (suc n) (x ∷ xs) = ap (◌∷◌ x) (take-min n xs)

PieceOf-take :
    (stream : Bytes) (base seq n : ℕ) (piece : Bytes)
    → PieceOf stream base seq piece
    → PieceOf stream base seq (take n piece)
PieceOf-take stream base seq n piece p =
    let short : length (take n piece) ≤ length piece = omega (arith, length-take n piece) in
    (
      p.0,
      omega arith,
      sym (take-take (length (take n piece)) (length piece) (drop (seq - base) stream) short)
          ∙ ap (take (length (take n piece))) p.2
          ∙ sym (take-min n piece),
    )

module _ (t : Streams) where
  abbrev pub Good : Reassembler × Option AssembledRecord → Type 0
  Good res = FlowsFrom t res.0.flows × RecordFrom t res.1

  walk-head :
      (k : FlowCode) (head : HeadInfo) (fragments : Fragments)
      → HeadFrom t k (some head)
      → Every number_order (PieceOf (t.content k) (t.base k)) fragments
      → PieceOf (t.content k) (t.base k) head.seq (walk head.seq [] fragments)
  walk-head k head fragments h f =
      let z : head.seq + 0 ≡ head.seq = omega arith in
      rw z at (walk-PieceOf (t.content k) (t.base k) head.seq [] fragments (t.no_wrap k) h.2 f)

  record-from :
      (k : FlowCode) (head : HeadInfo) (buffer : Bytes) (truncated : Bool)
      → HeadFrom t k (some head)
      → PieceOf (t.content k) (t.base k) head.seq buffer
      → RecordFrom t
          (some (record { head_capture = head.capture; buffer = buffer; truncated = truncated }))
  record-from k head buffer truncated h p = rw (h.0, ← h.1) p

  assemble-RecordFrom :
      (k : FlowCode) (head : Option HeadInfo) (fragments : Fragments) (truncated : Bool)
      → HeadFrom t k head
      → Every number_order (PieceOf (t.content k) (t.base k)) fragments
      → RecordFrom t (assemble head fragments truncated)
  unfolding assemble
  assemble-RecordFrom k none fragments truncated h f = tt
  assemble-RecordFrom k (some head) fragments truncated h f =
      record-from k head (walk head.seq [] fragments) truncated h (walk-head k head fragments h f)

  finalize_found-Good :
      (r : Reassembler) (k : FlowCode) (truncated : Bool) (found : Option ReassemblyEntry)
      → SortedMap.get flow_order k r.flows ≡ found
      → FlowsFrom t r.flows
      → Good (finalize_found r k truncated found)
  unfolding finalize_found
  finalize_found-Good r k truncated none q h = (h, tt)
  finalize_found-Good r k truncated (some entry) q h =
      let e = Every-get flow_order (EntryFrom t) k r.flows entry h q in
      (
        Every-remove flow_order (EntryFrom t) k r.flows h,
        assemble-RecordFrom k entry.head entry.fragments truncated e.head_from e.pieces,
      )

  finalize_entry-Good :
      (r : Reassembler) (k : FlowCode) (truncated : Bool)
      → FlowsFrom t r.flows
      → Good (finalize_entry r k truncated)
  unfolding finalize_entry
  finalize_entry-Good r k truncated h =
      finalize_found-Good r k truncated (SortedMap.get flow_order k r.flows) refl h

  complete_record-RecordFrom :
      (k : FlowCode) (head : Option HeadInfo) (n seq : ℕ) (buffer : Bytes)
      → HeadFrom t k head
      → ((h : HeadInfo) → head ≡ some h → h.seq ≡ seq)
      → PieceOf (t.content k) (t.base k) seq buffer
      → RecordFrom t (complete_record n buffer head)
  unfolding complete_record
  complete_record-RecordFrom k none n seq buffer h same p = tt
  complete_record-RecordFrom k (some head) n seq buffer h same p =
      record-from k head (take n buffer) false h
        (PieceOf-take (t.content k) (t.base k) head.seq n buffer (rw (same head refl) p))

  check_entry-Good :
      (r : Reassembler) (k : FlowCode) (entry : ReassemblyEntry) (head : Option HeadInfo)
      (total : Option ℕ)
      → FlowsFrom t r.flows
      → SortedMap.get flow_order k r.flows ≡ some entry
      → entry.head ≡ head
      → EntryFrom t k entry
      → Good (check_entry r k head total entry.fragments)
  unfolding check_entry
  check_entry-Good r k entry none total h found is_head e = (h, tt)
  check_entry-Good r k entry (some head) none h found is_head e = (h, tt)
  check_entry-Good r k entry (some head) (some n) h found is_head e =
      let from : HeadFrom t k (some head) = rw is_head at e.head_from in
      let buffer = walk head.seq [] entry.fragments in
      elim (Bool-cases (leb n (length buffer))) [
        | inr short ↦ rw short (h, tt)
        | inl enough ↦
            rw (enough, found)
              (
                Every-remove flow_order (EntryFrom t) k r.flows h,
                complete_record-RecordFrom k entry.head n head.seq buffer e.head_from
                    (λ other q. ground (arith, is_head))
                    (walk-head k head entry.fragments from e.pieces),
              )
      ]

  check_found-Good :
      (r : Reassembler) (k : FlowCode) (found : Option ReassemblyEntry)
      → SortedMap.get flow_order k r.flows ≡ found
      → FlowsFrom t r.flows
      → Good (check_found r k found)
  unfolding check_found
  check_found-Good r k none q h = (h, tt)
  check_found-Good r k (some entry) q h =
      check_entry-Good r k entry entry.head entry.expected_total h q refl
        (Every-get flow_order (EntryFrom t) k r.flows entry h q)

  check_completion-Good :
      (r : Reassembler) (k : FlowCode) → FlowsFrom t r.flows → Good (check_completion r k)
  unfolding check_completion
  check_completion-Good r k h = check_found-Good r k (SortedMap.get flow_order k r.flows) refl h

  drop_first-FlowsFrom : (flows : Flows) → FlowsFrom t flows → FlowsFrom t (drop_first flows)
  unfolding drop_first
  drop_first-FlowsFrom [] h = h
  drop_first-FlowsFrom ((k, e) ∷ flows) h =
      Every-remove flow_order (EntryFrom t) k ((k, e) ∷ flows) h

  cleanup-FlowsFrom :
      (r : Reassembler) → FlowsFrom t r.flows → FlowsFrom t (cleanup_if_over_limit r).flows
  unfolding cleanup_if_over_limit
  cleanup-FlowsFrom r h = elim (Bool-cases (leb r.max_flows (length r.flows))) [
    | inr room ↦ rw room h
    | inl full ↦ rw full (drop_first-FlowsFrom r.flows h)
  ]

  -- The fragments that an entry had, or none.
  old-pieces :
      (k : FlowCode) (flows : Flows) (old : Option ReassemblyEntry)
      → SortedMap.get flow_order k flows ≡ old
      → FlowsFrom t flows
      → Every number_order
          (PieceOf (t.content k) (t.base k))
          (elim old [ none ↦ [] | some entry ↦ entry.fragments ])
  old-pieces k flows none q h = tt
  old-pieces k flows (some entry) q h =
      (Every-get flow_order (EntryFrom t) k flows entry h q).pieces

  insert_fragment-Good :
      (now : ℕ) (r : Reassembler) (cap : RawTlsCapture)
      → CaptureFrom t cap
      → FlowsFrom t r.flows
      → Good (insert_fragment now r cap)
  unfolding insert_fragment
  insert_fragment-Good now r cap c h =
      let k = key_code (from_capture cap) in
      let r' = cleanup_if_over_limit r in
      let h' = cleanup-FlowsFrom r h in
      let old = SortedMap.get flow_order k r'.flows in
      let entry = head_entry now cap old in
      let from : EntryFrom t k entry = record {
        pieces =
            Every-insert number_order (PieceOf (t.content k) (t.base k)) cap.tcp_seq
              (payload_slice cap) (elim old [ none ↦ [] | some e ↦ e.fragments ]) c
              (old-pieces k r'.flows old refl h');
        head_from =
            (refl, refl, PieceOf-take (t.content k) (t.base k) cap.tcp_seq 0 (payload_slice cap) c);
      } in
      check_completion-Good (put_entry r' k entry) k
        (Every-insert flow_order (EntryFrom t) k entry r'.flows from h')

  joined_entry-EntryFrom :
      (now : ℕ) (cap : RawTlsCapture) (flows : Flows) (old : Option ReassemblyEntry)
      → SortedMap.get flow_order (key_code (from_capture cap)) flows ≡ old
      → CaptureFrom t cap
      → FlowsFrom t flows
      → EntryFrom t (key_code (from_capture cap)) (joined_entry now cap old)
  unfolding SortedMap.insert
  joined_entry-EntryFrom now cap flows none q c h = record { pieces = (c, tt); head_from = tt }
  joined_entry-EntryFrom now cap flows (some e) q c h =
      let k = key_code (from_capture cap) in
      let from = Every-get flow_order (EntryFrom t) k flows e h q in
      record {
        pieces =
            Every-insert number_order (PieceOf (t.content k) (t.base k)) cap.tcp_seq
              (payload_slice cap) e.fragments c from.pieces;
        head_from = from.head_from;
      }

  insert_continuation-Good :
      (now : ℕ) (r : Reassembler) (cap : RawTlsCapture)
      → CaptureFrom t cap
      → FlowsFrom t r.flows
      → Good (insert_continuation now r cap)
  unfolding insert_continuation
  insert_continuation-Good now r cap c h =
      let k = key_code (from_capture cap) in
      let old = SortedMap.get flow_order k r.flows in
      let entry = joined_entry now cap old in
      let h' : FlowsFrom t (put_entry r k entry).flows =
        Every-insert flow_order (EntryFrom t) k entry r.flows
          (joined_entry-EntryFrom now cap r.flows old refl c h) h in
      elim (Bool-cases (is_known cap old)) [
        | inl known ↦ rw known (h, tt)
        | inr fresh ↦ rw fresh (elim (Bool-cases (leb 4 (length entry.fragments))) [
          | inl full ↦ rw full (finalize_entry-Good (put_entry r k entry) k true h')
          | inr room ↦ rw room (elim (Bool-cases (leb r.timeout (now - entry.created))) [
            | inl late ↦ rw late (finalize_entry-Good (put_entry r k entry) k true h')
            | inr soon ↦ rw soon (check_completion-Good (put_entry r k entry) k h')
          ])
        ])
      ]

  -- One packet: the flows stay pieces of the streams, and so is what is returned.
  pub insert-Good :
      (now : ℕ) (r : Reassembler) (cap : RawTlsCapture)
      → CaptureFrom t cap
      → FlowsFrom t r.flows
      → Good (insert now r cap)
  unfolding insert
  insert-Good now r cap c h = elim (Bool-cases (has_flag cap.flags flag_fragment)) [
    | inl head ↦ rw head (insert_fragment-Good now r cap c h)
    | inr other ↦ rw other (elim (Bool-cases (has_flag cap.flags flag_continuation)) [
      | inl more ↦ rw more (insert_continuation-Good now r cap c h)
      | inr none' ↦ rw none' (h, tt)
    ])
  ]

  abbrev pub RecordsFrom : List AssembledRecord → Type 0
  RecordsFrom = All (λ done. RecordFrom t (some done))

  RecordsFrom-cons :
      (found : Option AssembledRecord) (rest : List AssembledRecord)
      → RecordFrom t found
      → RecordsFrom rest
      → RecordsFrom (elim found [ none ↦ rest | some done ↦ done ∷ rest ])
  RecordsFrom-cons none rest h k = k
  RecordsFrom-cons (some done) rest h k = (h, k)

  finalize_all-Good :
      (keys : List FlowCode) (r : Reassembler)
      → FlowsFrom t r.flows
      → FlowsFrom t (finalize_all r keys).0.flows × RecordsFrom (finalize_all r keys).1
  unfolding finalize_all
  finalize_all-Good [] r h = (h, tt)
  finalize_all-Good (k ∷ keys) r h =
      let step = finalize_entry-Good r k true h in
      let rest = finalize_all-Good keys (finalize_entry r k true).0 step.0 in
      (
        rest.0,
        RecordsFrom-cons (finalize_entry r k true).1
            (finalize_all (finalize_entry r k true).0 keys).1 step.1 rest.1,
      )

  pub sweep_expired-Good :
      (now : ℕ) (r : Reassembler)
      → FlowsFrom t r.flows
      → FlowsFrom t (sweep_expired now r).0.flows × RecordsFrom (sweep_expired now r).1
  unfolding sweep_expired
  sweep_expired-Good now r h = finalize_all-Good (expired_keys now r.timeout r.flows) r h
