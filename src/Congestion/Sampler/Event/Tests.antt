-- ===== src/Congestion/Sampler/Event/Tests.antt =====
-- Two packets are in flight, the second one is acknowledged.
use outbound.Prelude.{ℕ, ◌≡◌, refl, true, false, some, [], ◌∷◌, arith}
use outbound.Congestion.PacketQueue.{EntryWrapper, is_empty, last_packet, get_entry_wrapper}
use outbound.Congestion.PacketQueue.{blank}
use outbound.Congestion.PacketQueue.Coherent.{slots, present_count, IsCoherent}
use outbound.Congestion.Sampler.Records.{ConnectionStateOnSentPacket, no_record, PacketMap}
use outbound.Congestion.Sampler.Records.{BandwidthSampler}
use outbound.Congestion.Sampler.State.{new_bandwidth_sampler, on_packet_sent}
use outbound.Congestion.Sampler.Event.{on_congestion_event}
use outbound.Congestion.Sampler.Event.Live.{event_accounts, live_survives}
use outbound.Congestion.Sampler.Event.Lifecycle.{sent_then_acked}
use outbound.Congestion.RingBuffer.{len, offset, is_empty as ring_is_empty}

-- the threshold 1.0
abbrev same_count : Unit {0} → ℕ → ℕ
same_count t x = x

abbrev sent : ℕ → ℕ → EntryWrapper ConnectionStateOnSentPacket
sent time size = record {
  present = true;
  entry = record no_record { sent_time = time; size = size };
}

abbrev in_flight : PacketMap
in_flight = record {
  entries = record {
    ring = sent 40 1000 ∷ sent 50 1200 ∷ [];
    head_pos = 0;
    tail_pos = 0;
    full = true;
  };
  number_of_present_entries = 2;
  first_packet = 1;
  max_slots = 2;
  initial_slots = 2;
  truncated_slots = 0;
}

in_flight-IsCoherent : IsCoherent in_flight
unfolding present_count len
in_flight-IsCoherent = record {
  valid = record {
    head_in = omega arith;
    tail_in = omega arith;
    full_at = λ h. (refl, omega arith);
  };
  counted = refl;
  bounded = omega arith;
  room = omega arith;
}

abbrev sampler : BandwidthSampler (Unit {0})
sampler = record (new_bandwidth_sampler tt 1 2 10) {
  total_bytes_sent = 2200;
  connection_state_map = in_flight;
}

found_first : get_entry_wrapper in_flight 1 ≡ some (sent 40 1000)
unfolding get_entry_wrapper is_empty offset len ring_is_empty
found_first = refl

event_accounts_example :
    let b = (on_congestion_event same_count sampler 90 (2 ∷ []) [] 0 0 1).0 in
    (b.total_bytes_acked ≡ 1200) × (b.total_bytes_lost ≡ 0) × IsCoherent b.connection_state_map
unfolding new_bandwidth_sampler get_entry_wrapper is_empty offset len ring_is_empty
event_accounts_example = event_accounts same_count sampler 90 [] 0 0 1 (2 ∷ []) in_flight-IsCoherent

live_survives_example :
    let b = (on_congestion_event same_count sampler 90 (2 ∷ []) [] 0 0 1).0 in
    get_entry_wrapper b.connection_state_map 1 ≡ some (sent 40 1000)
unfolding new_bandwidth_sampler
live_survives_example =
    live_survives same_count sampler 90 [] 0 0 1 (2 ∷ []) 1 (sent 40 1000) in_flight-IsCoherent
      found_first refl ((λ e. absurd (omega (arith, e))), tt) tt

abbrev idle : BandwidthSampler (Unit {0})
idle = record sampler {
  connection_state_map = record {
    entries = record { ring = blank no_record ∷ []; head_pos = 0; tail_pos = 0; full = false };
    number_of_present_entries = 0;
    first_packet = 0;
    max_slots = 2;
    initial_slots = 1;
    truncated_slots = 0;
  };
}

idle_clean : slots idle.connection_state_map ≡ []
unfolding len
idle_clean = refl

idle-IsCoherent : IsCoherent idle.connection_state_map
unfolding present_count len
idle-IsCoherent = record {
  valid = record {
    head_in = omega arith;
    tail_in = omega arith;
    full_at = λ h. absurd (ground (arith, h));
  };
  counted = refl;
  bounded = omega arith;
  room = omega arith;
}

idle_last : last_packet idle.connection_state_map ≡ 0
unfolding last_packet is_empty
idle_last = refl

-- packet 0 with 1300 bytes, into an idle connection
sent_then_acked_example :
    let b = on_packet_sent idle 40 1 1300 0 true in
    let c = (on_congestion_event same_count b 90 (1 ∷ []) [] 0 0 1).0 in
    (c.total_bytes_acked ≡ 1300) × (c.total_bytes_lost ≡ 0) × IsCoherent c.connection_state_map
unfolding new_bandwidth_sampler
sent_then_acked_example =
    sent_then_acked same_count idle 40 1 1300 0 90 0 0 1 true idle-IsCoherent (λ e. idle_clean)
      (omega (arith, idle_last))
