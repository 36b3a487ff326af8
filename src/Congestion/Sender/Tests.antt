-- ===== src/Congestion/Sender/Tests.antt =====
-- A sender that sends a packet and hears of it.
use outbound.Prelude.{ℕ, ◌*◌, ◌/◌, ◌≤◌, ◌≡◌, refl, ◌∙◌, true, false, some, [], ◌∷◌, arith}
use outbound.Congestion.Words.{signed, signed_max}
use outbound.Congestion.PacketQueue.{EntryWrapper, is_empty, get_entry_wrapper}
use outbound.Congestion.PacketQueue.Coherent.{present_count, IsCoherent}
use outbound.Congestion.Sampler.Records.{ConnectionStateOnSentPacket, no_record, PacketMap}
use outbound.Congestion.Sampler.Event.{last_number}
use outbound.Congestion.Sender.Records.{probe_rtt, Gain, high_gain, low_gain, gain_up, gain_down}
use outbound.Congestion.Sender.Records.{gain_one, gain_two, min_bps, Platform, BbrSender}
use outbound.Congestion.Sender.Records.{is_probe_rtt}
use outbound.Congestion.Sender.Windows.{bandwidth_estimate, in_recovery}
use outbound.Congestion.Sender.Windows.{probe_rtt_congestion_window, get_congestion_window}
use outbound.Congestion.Sender.Windows.{can_send, bandwidth_for_pacer}
use outbound.Congestion.Sender.Modes.{enter_startup_mode, set_high_cwnd_gain, ends_round}
use outbound.Congestion.Sender.Modes.{update_round_trip_counter, update_recovery_state}
use outbound.Congestion.Sender.Modes.{maybe_applimited}
use outbound.Congestion.Sender.Event.{CongestionEvent, is_none_left, subtract_all, new_sender}
use outbound.Congestion.Sender.Event.{new_bbr_sender, sender_on_packet_sent, begin_event}
use outbound.Congestion.Sender.Event.{least_unacked, handle_event, on_congestion_event_ex}
use outbound.Congestion.Sender.Successors.{leads_to}
use outbound.Congestion.Sender.Transitions.{mode_transitions}
use outbound.Congestion.Sender.Reach.{Reach, created, after_sent, after_event, IsSane, IsSound}
use outbound.Congestion.Sender.Reach.{Reach-IsSound, window_bounds, pacer_bandwidth}
use outbound.Congestion.Sender.Live.{record_survives}
use outbound.Congestion.Sender.ProbeRttEnd.{handle_event-round, here, probe_rtt_ends}
use outbound.Congestion.RingBuffer.{len, offset, is_empty as ring_is_empty}

-- the products in whole numbers
abbrev times : Gain → ℕ → ℕ
times high_gain x = 2885 * x / 1000
times low_gain x = 1000 * x / 2885
times gain_up x = 5 * x / 4
times gain_down x = 3 * x / 4
times gain_one x = x
times gain_two x = 2 * x

abbrev desk : Platform
desk = record {
  scaled = times;
  rate = times;
  pacer_share = λ bandwidth gain. times gain bandwidth / 8;
  loss_share = λ bytes. bytes / 50;
  min_pacing_delay = 1000000;
  initial_packet_size = 1280;
  min_initial_packet_size = 1200;
  max_packet_buffer_size = 1452;
  max_congestion_window_packets = 10000;
  initial_slots = 2;
  max_slots = 4;
}

abbrev fresh : BbrSender
fresh = new_bbr_sender desk 1280

abbrev busy : BbrSender
busy = sender_on_packet_sent desk fresh 40 0 1 1200 true

abbrev heard : CongestionEvent
heard = record {
  prior_in_flight = 1200;
  event_time = 90;
  acked = (1, 1200) ∷ [];
  lost = [];
  stats_rtt = 50;
  draw = 3;
}

heard_reached : Reach desk 1280 (handle_event desk busy heard)
unfolding on_congestion_event_ex is_none_left
heard_reached = after_event (after_sent created 40 0 1 1200 true) heard refl

desk-IsSane : IsSane desk 1280
desk-IsSane = (omega arith, omega arith, omega arith, omega arith)

mode_transitions_example :
    let c = handle_event desk busy heard in
    (leads_to busy.mode c.mode c.is_at_full_bandwidth ≡ true)
    × (busy.is_at_full_bandwidth ≡ true → c.is_at_full_bandwidth ≡ true)
mode_transitions_example = mode_transitions desk busy heard

Reach-IsSound_example : IsSound desk (handle_event desk busy heard)
Reach-IsSound_example =
    Reach-IsSound desk 1280 (handle_event desk busy heard) desk-IsSane heard_reached

window_bounds_example :
    let b = handle_event desk busy heard in
    (signed 5120 ≤ signed (get_congestion_window b))
    × (signed (get_congestion_window b) ≤ signed b.max_congestion_window)
    × (can_send b 0 ≡ true)
window_bounds_example =
    window_bounds desk 1280 (handle_event desk busy heard) desk-IsSane heard_reached

pacer_bandwidth_example :
    let b = handle_event desk busy heard in
    (bandwidth_for_pacer desk b
      ≡ signed_max (desk.pacer_share (bandwidth_estimate b) gain_two) min_bps)
pacer_bandwidth_example =
    pacer_bandwidth desk 1280 (handle_event desk busy heard) desk-IsSane heard_reached

abbrev probing : BbrSender
probing = record fresh { mode = probe_rtt; current_round_trip_end = 5 }

abbrev next_round : CongestionEvent
next_round = record heard { event_time = 200000090; acked = (9, 0) ∷ [] }

round_kept : (handle_event desk probing heard).current_round_trip_end ≡ 5
unfolding begin_event update_round_trip_counter ends_round maybe_applimited get_congestion_window
    in_recovery probe_rtt_congestion_window update_recovery_state is_none_left last_number
    new_bbr_sender new_sender set_high_cwnd_gain enter_startup_mode
round_kept = handle_event-round desk probing heard refl ∙ refl

probe_rtt_ends_example :
    is_probe_rtt (handle_event desk (handle_event desk probing heard) next_round).mode ≡ false
unfolding new_bbr_sender new_sender set_high_cwnd_gain enter_startup_mode subtract_all is_none_left
    last_number
probe_rtt_ends_example =
    probe_rtt_ends desk probing (handle_event desk probing heard) heard next_round refl refl refl
      here refl (omega (arith, round_kept)) (omega arith) (omega arith)

abbrev sent : ℕ → ℕ → EntryWrapper ConnectionStateOnSentPacket
sent time size = record {
  present = true;
  entry = record no_record { sent_time = time; size = size };
}

-- the records of two packets
abbrev in_flight : PacketMap
in_flight = record {
  entries = record {
    ring = sent 40 1000 ∷ sent 50 1200 ∷ [];
    head_pos = 0;
    tail_pos = 0;
    full = true;
  };
  number_of_present_entries = 2;
  first_packet = 1;
  max_slots = 2;
  initial_slots = 2;
  truncated_slots = 0;
}

in_flight-IsCoherent : IsCoherent in_flight
unfolding present_count len
in_flight-IsCoherent = record {
  valid = record {
    head_in = omega arith;
    tail_in = omega arith;
    full_at = λ h. (refl, omega arith);
  };
  counted = refl;
  bounded = omega arith;
  room = omega arith;
}

found_first : get_entry_wrapper in_flight 1 ≡ some (sent 40 1000)
unfolding get_entry_wrapper is_empty offset len ring_is_empty
found_first = refl

abbrev loaded : BbrSender
loaded = record fresh { sampler = record fresh.sampler { connection_state_map = in_flight } }

abbrev second_heard : CongestionEvent
second_heard = record heard { acked = (2, 1200) ∷ [] }

record_survives_example :
    let b = handle_event desk loaded second_heard in
    IsCoherent b.sampler.connection_state_map
    × (get_entry_wrapper b.sampler.connection_state_map 1 ≡ some (sent 40 1000))
unfolding least_unacked is_none_left last_number
record_survives_example =
    record_survives desk loaded second_heard 1 (sent 40 1000) in_flight-IsCoherent found_first refl
      ((λ e. absurd (omega (arith, e))), tt) tt (omega arith)
