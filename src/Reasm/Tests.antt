-- ===== src/Reasm/Tests.antt =====
-- crates/tls-probe-cli/src/reasm.rs on a record of two packets.
use tls_probe.Common.Capture.{RawTlsCapture, default_capture, payload_slice}
use tls_probe.Reasm.{from_capture, flow_order, new, wrapping_add, expected_total, insert}
use tls_probe.Reasm.Completion.{IsPair, IsFresh, code_of, both, insert-both, insert-both_wrapped}
use tls_probe.Reasm.Fourth.{IsFour, in_turn, in_turn-fourth}
use tls_probe.Reasm.Reorder.{insert-both_reversed}
use tls_probe.Reasm.Run.{Event, packet, tick, run, EventFrom, run-RecordsFrom}
use tls_probe.Reasm.Safety.{RecordsFrom}
use tls_probe.Reasm.Stream.{Streams}
use tls_probe.Prelude.{
  ℕ, suc, ◌+◌, ◌-◌, ◌<◌, ◌≡◌, ◌≢◌, refl, true, false, List, [], ◌∷◌, ◌++◌, none, some, arith,
  length, take, All,
}
use tls_probe.SortedMap
use tls_probe.SortedMap.{IsSorted}
use tls_probe.Wire.{Bytes}

abbrev packet_at : ℕ → ℕ → Bytes → RawTlsCapture
packet_at flags seq bytes = record default_capture {
  flags = flags;
  tcp_seq = seq;
  payload_len = length bytes;
  payload = bytes;
}

abbrev head_bytes : Bytes
head_bytes = 22 ∷ 3 ∷ 1 ∷ 0 ∷ 3 ∷ 1 ∷ []

abbrev head : RawTlsCapture
head = packet_at 1 100 head_bytes

abbrev more : RawTlsCapture
more = packet_at 2 106 (2 ∷ 3 ∷ 4 ∷ [])

more_after : IsPair head more 8
unfolding expected_total payload_slice from_capture
more_after = record {
  head_flag = refl;
  more_head = refl;
  more_flag = refl;
  same_flow = refl;
  announced = refl;
  part = omega arith;
  nonempty = omega arith;
  enough = omega arith;
}

new-IsFresh : (cap : RawTlsCapture) → IsFresh new cap
unfolding new SortedMap.get
new-IsFresh cap = record { unknown = refl; room = omega arith }

soon : 9 - 5 < new.timeout
unfolding new
soon = omega arith

next : more.tcp_seq ≡ head.tcp_seq + length (payload_slice head)
unfolding payload_slice
next = refl

insert-both_example :
    ((insert 5 new head).1 ≡ none)
    × ((both 5 9 new head more).1
        ≡ some (record {
          head_capture = head;
          buffer = take 8 (payload_slice head ++ payload_slice more);
          truncated = false;
        }))
insert-both_example =
    insert-both 5 9 new head more 8 more_after (new-IsFresh head) soon next (omega arith)

positive : 0 < new.timeout
unfolding new
positive = omega arith

room : suc (length new.flows) < new.max_flows
unfolding new
room = omega arith

insert-both_reversed_example :
    ((insert 5 new more).1 ≡ none)
    × ((both 5 9 new more head).1
        ≡ some (record {
          head_capture = head;
          buffer = take 8 (payload_slice head ++ payload_slice more);
          truncated = false;
        }))
insert-both_reversed_example =
    insert-both_reversed 5 9 new head more 8 more_after (new-IsFresh more) positive room next
      (omega arith)

-- The head's bytes end at the last number there is.
abbrev last_head : RawTlsCapture
last_head = packet_at 1 4294967290 head_bytes

abbrev wrapped_more : RawTlsCapture
wrapped_more = packet_at 2 0 (2 ∷ 3 ∷ 4 ∷ [])

wrapped_after : IsPair last_head wrapped_more 8
unfolding expected_total payload_slice from_capture
wrapped_after = record {
  head_flag = refl;
  more_head = refl;
  more_flag = refl;
  same_flow = refl;
  announced = refl;
  part = omega arith;
  nonempty = omega arith;
  enough = omega arith;
}

wrapped_next :
    wrapped_more.tcp_seq ≡ wrapping_add last_head.tcp_seq (length (payload_slice last_head))
unfolding payload_slice
wrapped_next = refl

insert-both_wrapped_example :
    ((insert 5 new last_head).1 ≡ none) × ((both 5 9 new last_head wrapped_more).1 ≡ none)
insert-both_wrapped_example =
    insert-both_wrapped 5 9 new last_head wrapped_more 8 wrapped_after (new-IsFresh last_head) soon
      wrapped_next (omega arith)

-- The record of eight bytes in four packets, with one byte more.
abbrev part_head : RawTlsCapture
part_head = packet_at 1 100 (22 ∷ 3 ∷ 1 ∷ 0 ∷ 3 ∷ [])

abbrev part_two : RawTlsCapture
part_two = packet_at 2 105 (1 ∷ [])

abbrev part_three : RawTlsCapture
part_three = packet_at 2 106 (2 ∷ [])

abbrev part_four : RawTlsCapture
part_four = packet_at 2 107 (3 ∷ 4 ∷ [])

parts-IsFour : IsFour part_head part_two part_three part_four 8
unfolding expected_total payload_slice from_capture
parts-IsFour = record {
  head_flag = refl;
  announced = refl;
  second = record {
    no_head = refl;
    continuation = refl;
    same_flow = refl;
    next = refl;
    nonempty = omega arith;
  };
  third = record {
    no_head = refl;
    continuation = refl;
    same_flow = refl;
    next = refl;
    nonempty = omega arith;
  };
  fourth = record {
    no_head = refl;
    continuation = refl;
    same_flow = refl;
    next = refl;
    nonempty = omega arith;
  };
  no_wrap = omega arith;
  short = omega arith;
}

new-IsSorted : IsSorted flow_order new.flows
unfolding new
new-IsSorted = tt

other_flow : [] ≢ code_of part_head
other_flow h = cc

abbrev four_caps : List (ℕ × RawTlsCapture)
four_caps = (5, part_head) ∷ (9, part_two) ∷ (9, part_three) ∷ (12, part_four) ∷ []

in_turn-fourth_example :
    ((in_turn new four_caps).1
      ≡ none
        ∷ none
        ∷ none
        ∷ some (record {
          head_capture = part_head;
          buffer =
              payload_slice part_head
              ++ (payload_slice part_two ++ (payload_slice part_three ++ payload_slice part_four));
          truncated = true;
        })
        ∷ [])
    × (SortedMap.get flow_order (code_of part_head) (in_turn new four_caps).0.flows ≡ none)
    × (SortedMap.get flow_order [] (in_turn new four_caps).0.flows
        ≡ SortedMap.get flow_order [] new.flows)
in_turn-fourth_example =
    in_turn-fourth new part_head part_two part_three part_four 8 parts-IsFour 5 9 9 12 []
      (new-IsFresh part_head) new-IsSorted soon soon other_flow

-- Every flow carries the same eight bytes from number 100 on.
abbrev one_record : Streams
one_record = record {
  content = λ k. 22 ∷ 3 ∷ 1 ∷ 0 ∷ 3 ∷ 1 ∷ 2 ∷ 3 ∷ 4 ∷ [];
  base = λ k. 100;
  no_wrap = λ k. omega arith;
}

-- The second packet comes first, the head twice.
abbrev events : List Event
events = packet 5 more ∷ packet 6 head ∷ tick 7 ∷ packet 8 head ∷ []

events_from : All (EventFrom one_record) events
unfolding payload_slice from_capture
events_from =
    let second : EventFrom one_record (packet 5 more) = (omega arith, omega arith, refl) in
    let first : EventFrom one_record (packet 6 head) = (omega arith, omega arith, refl) in
    (second, (first, (tt, (first, tt))))

run-RecordsFrom_example : RecordsFrom one_record (run new events)
run-RecordsFrom_example = run-RecordsFrom one_record events events_from
