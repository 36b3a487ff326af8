-- ===== src/Congestion/Sender/Event.antt =====
-- The calls of quic-go on the sender of bbr_sender.go, `OnCongestionEventEx` in five parts.
use outbound.Prelude.{ltb, ◌==◌, if◌then◌else◌, ℕ, ◌+◌, ◌-◌, Bool, true, false, ◌&&◌, ◌||◌, not}
use outbound.Prelude.{Option, none, some, List, [], ◌∷◌, map}
use outbound.Congestion.Words.{half, add64, sub64, mul64, less}
use outbound.Congestion.WindowedFilter.{max_filter, new_windowed_filter, update}
use outbound.Congestion.Pacer.{new_pacer, set_pacer_datagram_size, budget, sent_packet}
use outbound.Congestion.Pacer.{time_until_send}
use outbound.Congestion.Sampler.Records.{inf_bandwidth}
use outbound.Congestion.Sampler.State.{new_bandwidth_sampler, on_packet_sent}
use outbound.Congestion.Sampler.State.{remove_obsolete_packets}
use outbound.Congestion.Sampler.Event.{CongestionEventSample, last_number, on_congestion_event}
use outbound.Congestion.Sender.Records.{startup, not_in_recovery, high_gain, low_gain, gain_one}
use outbound.Congestion.Sender.Records.{gain_two, bandwidth_window_size, Platform, BbrSender}
use outbound.Congestion.Sender.Records.{is_probe_bw}
use outbound.Congestion.Sender.Windows.{bandwidth_estimate, bandwidth_for_pacer}
use outbound.Congestion.Sender.Windows.{calculate_pacing_rate, calculate_congestion_window}
use outbound.Congestion.Sender.Windows.{calculate_recovery_window}
use outbound.Congestion.Sender.Modes.{enter_startup_mode, set_high_cwnd_gain}
use outbound.Congestion.Sender.Modes.{update_round_trip_counter, update_recovery_state}
use outbound.Congestion.Sender.Modes.{maybe_update_min_rtt, maybe_applimited}
use outbound.Congestion.Sender.Modes.{update_gain_cycle_phase, check_if_full_bandwidth_reached}
use outbound.Congestion.Sender.Modes.{maybe_exit_startup_or_drain, maybe_enter_or_exit_probe_rtt}

-- One call of `OnCongestionEventEx`: a packet is its number and its bytes. `stats_rtt` is what
-- `rttStats.MinRTT()` returns meanwhile and `draw` what `rand.Int31n` does, which one event calls once
-- at most.
pub record CongestionEvent : Type 0 where
  pub prior_in_flight : ℕ
  pub event_time : ℕ
  pub acked : List (ℕ × ℕ)
  pub lost : List (ℕ × ℕ)
  pub stats_rtt : ℕ
  pub draw : ℕ

abbrev pub numbers : List (ℕ × ℕ) → List ℕ
numbers ps = map (λ p. p.0) ps

unfoldable pub is_none_left : List (ℕ × ℕ) → Bool
is_none_left [] = true
is_none_left (_ ∷ _) = false

abbrev pub has_losses : CongestionEvent → Bool
has_losses e = not (is_none_left e.lost)

unfoldable pub subtract_all : ℕ → List (ℕ × ℕ) → ℕ
subtract_all total [] = total
subtract_all total ((n, bytes) ∷ ps) = subtract_all (sub64 total bytes) ps

module _ (p : Platform) where
  -- `newBbrSender`
  unfoldable pub new_sender : ℕ → ℕ → ℕ → BbrSender
  new_sender datagram_size window max_window =
      let b : BbrSender = record {
        pacer = new_pacer p.initial_packet_size;
        mode = startup;
        sampler = new_bandwidth_sampler gain_one p.initial_slots p.max_slots bandwidth_window_size;
        round_trip_count = 0;
        last_sent_packet = 0;
        current_round_trip_end = 0;
        num_loss_events_in_round = 0;
        bytes_lost_in_round = 0;
        max_bandwidth = new_windowed_filter 0 bandwidth_window_size;
        min_rtt = 0;
        min_rtt_timestamp = 0;
        congestion_window = window;
        initial_congestion_window = window;
        max_congestion_window = max_window;
        min_congestion_window = mul64 4 p.initial_packet_size;
        startup_gain = high_gain;
        high_cwnd_gain = high_gain;
        drain_gain = low_gain;
        pacing_rate = 0;
        pacing_gain = gain_one;
        congestion_window_gain = gain_one;
        congestion_window_gain_constant = gain_two;
        num_startup_rtts = 3;
        cycle_current_offset = 0;
        last_cycle_start = 0;
        is_at_full_bandwidth = false;
        rounds_without_bandwidth_gain = 0;
        bandwidth_at_last_round = 0;
        exiting_quiescence = false;
        exit_probe_rtt_at = 0;
        probe_rtt_round_passed = false;
        last_sample_is_app_limited = false;
        has_no_app_limited_sample = false;
        recovery_state = not_in_recovery;
        end_recovery_at = 0;
        recovery_window = max_window;
        enable_ack_aggregation_during_startup = false;
        expire_ack_aggregation_in_startup = false;
        drain_to_target = false;
        detect_overshooting = false;
        bytes_lost_while_detecting_overshooting = 0;
        bytes_lost_multiplier_while_detecting_overshooting = 2;
        cwnd_to_calculate_min_pacing_rate = window;
        max_datagram_size = datagram_size;
        bytes_in_flight = 0;
      } in
      set_high_cwnd_gain (enter_startup_mode b) gain_two

  -- `NewBbrSender`
  unfoldable pub new_bbr_sender : ℕ → BbrSender
  new_bbr_sender datagram_size =
      new_sender datagram_size (mul64 32 datagram_size)
        (mul64 p.max_congestion_window_packets datagram_size)

  unfoldable pub has_pacing_budget : BbrSender → ℕ → Bool
  has_pacing_budget b now =
      not
        (less (budget p.min_pacing_delay b.pacer (bandwidth_for_pacer p b) now) b.max_datagram_size)

  unfoldable pub sender_time_until_send : (ℕ → ℕ → ℕ) → BbrSender → ℕ
  sender_time_until_send pause b =
      time_until_send p.min_pacing_delay pause b.pacer (bandwidth_for_pacer p b)

  unfoldable pub sender_on_packet_sent : BbrSender → ℕ → ℕ → ℕ → ℕ → Bool → BbrSender
  sender_on_packet_sent b sent_time in_flight n bytes is_retransmittable = record b {
    pacer = sent_packet p.min_pacing_delay b.pacer (bandwidth_for_pacer p b) sent_time bytes;
    last_sent_packet = n;
    bytes_in_flight = in_flight;
    exiting_quiescence = if in_flight == 0 then true else b.exiting_quiescence;
    sampler = on_packet_sent b.sampler sent_time n bytes in_flight is_retransmittable;
  }

  unfoldable pub get_initial_packet_size : Bool → ℕ
  get_initial_packet_size is_udp =
      if is_udp then p.initial_packet_size else p.min_initial_packet_size

-- `SetMaxDatagramSize`, which panics if the size decreases
unfoldable pub set_max_datagram_size : BbrSender → ℕ → Option BbrSender
set_max_datagram_size b s =
    if less s b.max_datagram_size
    then none
    else some (record b {
      max_datagram_size = s;
      congestion_window =
          if b.congestion_window == b.min_congestion_window
          then b.min_congestion_window
          else b.congestion_window;
      pacer = set_pacer_datagram_size b.pacer s;
    })

-- up to the call of the sampler; the flag says that a round trip begins
unfoldable pub begin_event : BbrSender → CongestionEvent → BbrSender × Bool
begin_event b e =
    let c : BbrSender = record (maybe_applimited b e.prior_in_flight) {
      bytes_in_flight = subtract_all (subtract_all e.prior_in_flight e.acked) e.lost;
    } in
    let last = last_number (numbers e.acked) in
    let (d, is_round_start) = update_round_trip_counter c last in
    if is_none_left e.acked
    then (c, false)
    else (update_recovery_state d last (has_losses e) is_round_start, is_round_start)

-- what the sample changes in the estimates; `acked_before` is the total of acknowledged bytes before
-- the sampler was called
unfoldable pub apply_sample : BbrSender → ℕ → CongestionEventSample → BbrSender
apply_sample b acked_before s =
    let limited =
      if s.last_packet_send_state.is_valid
      then s.last_packet_send_state.is_app_limited
      else b.last_sample_is_app_limited in
    let updates =
      not (acked_before == b.sampler.total_bytes_acked)
      && (not s.sample_is_app_limited || ltb (bandwidth_estimate b) s.sample_max_bandwidth) in
    record b {
      last_sample_is_app_limited = limited;
      has_no_app_limited_sample =
          b.has_no_app_limited_sample || (s.last_packet_send_state.is_valid && not limited);
      max_bandwidth =
          if updates
          then update 0 max_filter b.max_bandwidth
              (record { sample = s.sample_max_bandwidth; time = b.round_trip_count })
          else b.max_bandwidth;
    }

unfoldable pub count_losses : BbrSender → CongestionEvent → ℕ → BbrSender
count_losses b e lost =
    if has_losses e
    then record b {
      num_loss_events_in_round = add64 b.num_loss_events_in_round 1;
      bytes_lost_in_round = add64 b.bytes_lost_in_round lost;
    }
    else b

module _ (p : Platform) where
  -- the call of the sampler and the estimates; the flag says that the minimal round trip has expired
  unfoldable pub sample_event :
      BbrSender → CongestionEvent → BbrSender × CongestionEventSample × Bool
  sample_event b e =
      let (sampler, s) =
        on_congestion_event p.scaled b.sampler e.event_time (numbers e.acked) e.lost
          (bandwidth_estimate b) inf_bandwidth b.round_trip_count in
      let c = apply_sample (record b { sampler = sampler }) b.sampler.total_bytes_acked s in
      let (d, expired) = maybe_update_min_rtt c e.event_time s.sample_rtt in
      if s.sample_rtt == half - 1 then (c, s, false) else (d, s, expired)

  -- where the mode is PROBE_BW
  unfoldable pub cycle_gains : BbrSender → CongestionEvent → BbrSender
  cycle_gains b e =
      if is_probe_bw b.mode
      then update_gain_cycle_phase p b e.stats_rtt e.event_time e.prior_in_flight (has_losses e)
      else b

  -- where a round begins and the full bandwidth is not reached
  unfoldable pub seek_full_bandwidth : BbrSender → CongestionEventSample → Bool → BbrSender
  seek_full_bandwidth b s is_round_start =
      if is_round_start && not b.is_at_full_bandwidth
      then check_if_full_bandwidth_reached p b s.last_packet_send_state
      else b

  -- the modes, after the estimates; `lost` is the number of bytes that the event declares lost
  unfoldable pub update_modes :
      BbrSender → CongestionEvent → CongestionEventSample → ℕ → Bool → Bool → BbrSender
  update_modes b e s lost is_round_start min_rtt_expired =
      maybe_enter_or_exit_probe_rtt p
        (maybe_exit_startup_or_drain p
          (seek_full_bandwidth (cycle_gains (count_losses b e lost) e) s is_round_start) e.stats_rtt
          e.draw e.event_time)
        e.draw e.event_time is_round_start min_rtt_expired

  unfoldable pub update_windows :
      BbrSender → CongestionEvent → CongestionEventSample → ℕ → ℕ → BbrSender
  update_windows b e s acked lost =
      calculate_recovery_window
        (calculate_congestion_window p (calculate_pacing_rate p b e.stats_rtt lost) e.stats_rtt
          acked s.extra_acked)
        acked lost

-- The least packet number that the sampler keeps; the numbers are one more than the source's, so that
-- one below its 0 stays at 0, which keeps everything as well.
unfoldable pub least_unacked : CongestionEvent → ℕ
least_unacked e =
    if is_none_left e.acked
    then last_number (numbers e.lost) + 1
    else last_number (numbers e.acked) - 2

unfoldable pub clean_up : BbrSender → CongestionEvent → Bool → BbrSender
clean_up b e is_round_start = record b {
  sampler = remove_obsolete_packets b.sampler (least_unacked e);
  num_loss_events_in_round = if is_round_start then 0 else b.num_loss_events_in_round;
  bytes_lost_in_round = if is_round_start then 0 else b.bytes_lost_in_round;
}

module _ (p : Platform) where
  -- `OnCongestionEventEx` of an event that acknowledges a packet or declares one lost
  unfoldable pub handle_event : BbrSender → CongestionEvent → BbrSender
  handle_event b e =
      let (c, is_round_start) = begin_event b e in
      let (d, s, min_rtt_expired) = sample_event p c e in
      let lost = sub64 d.sampler.total_bytes_lost b.sampler.total_bytes_lost in
      let acked = sub64 d.sampler.total_bytes_acked b.sampler.total_bytes_acked in
      let f = update_modes p d e s lost is_round_start min_rtt_expired in
      clean_up (update_windows p f e s acked lost) e is_round_start

  -- `OnCongestionEventEx`, which panics on an event with no packet: it reads the last lost one.
  unfoldable pub on_congestion_event_ex : BbrSender → CongestionEvent → Option BbrSender
  on_congestion_event_ex b e =
      if is_none_left e.acked && is_none_left e.lost then none else some (handle_event b e)
