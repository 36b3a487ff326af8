-- ===== src/Congestion/PacketQueue/Tests.antt =====
-- Small queues. The packet numbers 0, 2 and 10 are 1, 3 and 11 here.
use outbound.Prelude.{ltb, if◌then◌else◌, ℕ, ◌≡◌, refl, true, false, none, some, [], ◌∷◌, arith}
use outbound.Congestion.PacketQueue.{EntryWrapper, PacketNumberIndexedQueue, is_empty}
use outbound.Congestion.PacketQueue.{last_packet, get_entry_wrapper, get_entry, blank, holding}
use outbound.Congestion.PacketQueue.{new_queue, drop_front, restart, push_blanks, append_entry}
use outbound.Congestion.PacketQueue.{anchor, emplace, remove_up_to, remove}
use outbound.Congestion.PacketQueue.Coherent.{slots, present_count, IsCoherent}
use outbound.Congestion.PacketQueue.Emplace.{emplace_lem, emplace_lost}
use outbound.Congestion.RingBuffer.Laws.Queue.{IsValid}
use outbound.Congestion.PacketQueue.RemoveUpTo.{remove_up_to_lem}
use outbound.Congestion.RingBuffer.{RingBuffer, capacity, push_back, pop_front, offset, set_offset}
use outbound.Congestion.RingBuffer.{push_at_tail, grow, init, len}
use outbound.Congestion.RingBuffer.{is_empty as ring_is_empty}

abbrev two_slots : EntryWrapper ℕ → EntryWrapper ℕ → RingBuffer (EntryWrapper ℕ)
two_slots a b = record { ring = a ∷ b ∷ []; head_pos = 0; tail_pos = 0; full = true }

two_slots-IsValid : (a b : EntryWrapper ℕ) → IsValid (two_slots a b)
two_slots-IsValid a b = record {
  head_in = omega arith;
  tail_in = omega arith;
  full_at = λ h. (refl, omega arith);
}

-- packets 0 and 1
abbrev filled : PacketNumberIndexedQueue ℕ
filled = record {
  entries = two_slots (holding 0 70) (holding 0 71);
  number_of_present_entries = 2;
  first_packet = 1;
  max_slots = 2;
  initial_slots = 1;
  truncated_slots = 0;
}

filled-IsCoherent : IsCoherent filled
unfolding present_count len
filled-IsCoherent = record {
  valid = two_slots-IsValid (holding 0 70) (holding 0 71);
  counted = refl;
  bounded = omega arith;
  room = omega arith;
}

last_packet-filled : last_packet filled ≡ 2
unfolding last_packet is_empty len
last_packet-filled = refl

emplace_lem_example :
    ((emplace 0 filled 4 (some 73)).1 ≡ true)
    × IsCoherent (emplace 0 filled 4 (some 73)).0
    × (get_entry (emplace 0 filled 4 (some 73)).0 4 ≡ some 73)
emplace_lem_example =
    emplace_lem 0 filled 4 73 filled-IsCoherent (λ e. absurd (omega (arith, e)))
      (omega (arith, last_packet-filled))

-- Packets 0 and 2 go into a budget of two slots, and 2 leaves again.
abbrev drained : PacketNumberIndexedQueue ℕ
drained = (remove 0 (emplace 0 (emplace 0 (new_queue 0 1 2) 1 (some 70)).0 3 (some 72)).0 3).0

drained_lem :
    (drained.number_of_present_entries ≡ 0)
    × (slots drained ≡ blank 0 ∷ record { present = false; entry = 72 } ∷ [])
unfolding remove emplace new_queue anchor append_entry restart is_empty last_packet
    get_entry_wrapper drop_front push_blanks capacity push_back pop_front offset set_offset
    push_at_tail grow init len ring_is_empty
drained_lem = (refl, refl)

drained-IsValid : IsValid drained.entries
unfolding remove emplace new_queue anchor append_entry restart is_empty last_packet
    get_entry_wrapper drop_front push_blanks capacity push_back pop_front offset set_offset
    push_at_tail grow init len ring_is_empty
drained-IsValid = record {
  head_in = omega arith;
  tail_in = omega arith;
  full_at = λ h. (refl, omega arith);
}

emplace_lost_example :
    ((emplace 0 drained 11 (some 80)).1 ≡ true)
    × (get_entry (emplace 0 drained 11 (some 80)).0 11 ≡ none)
emplace_lost_example =
    emplace_lost 0 drained 11 80 (blank 0) (record { present = false; entry = 72 } ∷ [])
      drained-IsValid drained_lem.0 drained_lem.1 refl (omega arith)

found_first : get_entry_wrapper filled 1 ≡ some (holding 0 70)
unfolding get_entry_wrapper is_empty len offset ring_is_empty
found_first = refl

-- the second of two packets stays
remove_up_to_lem_example :
    get_entry_wrapper (remove_up_to 0 filled 2) 2
    ≡ (if ltb 2 2 then none else get_entry_wrapper filled 2)
remove_up_to_lem_example = remove_up_to_lem 0 filled 2 2 filled-IsCoherent (omega arith)
