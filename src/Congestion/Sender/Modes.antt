-- ===== src/Congestion/Sender/Modes.antt =====
-- The state machine of bbr_sender.go: the modes, the gain cycle, the rounds and the recovery.
use outbound.Prelude.{ltb, leb, ◌==◌, if◌then◌else◌, ℕ, ◌+◌, ◌-◌, ◌%◌, Bool, true, false, ◌&&◌}
use outbound.Prelude.{◌||◌, not}
use outbound.Congestion.Words.{add64, sub64, mul64, less, signed_div, sub_time, add_time}
use outbound.Congestion.Sampler.Records.{SendTimeState}
use outbound.Congestion.Sampler.State.{reset_max_ack_height_tracker, on_app_limited}
use outbound.Congestion.Sender.Records.{startup, drain, probe_bw, probe_rtt, not_in_recovery}
use outbound.Congestion.Sender.Records.{conservation, growth, Gain, gain_up, gain_one, above_one}
use outbound.Congestion.Sender.Records.{below_one, equals_one, pacing_gain_at, gain_cycle_length}
use outbound.Congestion.Sender.Records.{min_rtt_expiry, probe_rtt_time, Platform, BbrSender}
use outbound.Congestion.Sender.Records.{is_startup, is_drain, is_probe_rtt}
use outbound.Congestion.Sender.Windows.{bandwidth_estimate, probe_rtt_congestion_window}
use outbound.Congestion.Sender.Windows.{get_congestion_window, get_min_rtt}
use outbound.Congestion.Sender.Windows.{get_target_congestion_window}

unfoldable pub enter_startup_mode : BbrSender → BbrSender
enter_startup_mode b = record b {
  mode = startup;
  pacing_gain = b.startup_gain;
  congestion_window_gain = b.high_cwnd_gain;
}

-- `setHighCwndGain`
unfoldable pub set_high_cwnd_gain : BbrSender → Gain → BbrSender
set_high_cwnd_gain b gain = record b {
  high_cwnd_gain = gain;
  congestion_window_gain = if is_startup b.mode then gain else b.congestion_window_gain;
}

-- the random offset out of 0, 2, ..., 7; `draw` is what `rand.Int31n` returns
unfoldable pub drawn_offset : ℕ → ℕ
drawn_offset draw = let r = draw % (gain_cycle_length - 1) in if leb 1 r then r + 1 else r

unfoldable pub enter_probe_bandwidth_mode : BbrSender → ℕ → ℕ → BbrSender
enter_probe_bandwidth_mode b draw now = record b {
  mode = probe_bw;
  congestion_window_gain = b.congestion_window_gain_constant;
  cycle_current_offset = drawn_offset draw;
  last_cycle_start = now;
  pacing_gain = pacing_gain_at (drawn_offset draw);
}

-- whether the round trip of the sender is over, by the acknowledgement of a packet
unfoldable pub ends_round : BbrSender → ℕ → Bool
ends_round b last_acked = b.current_round_trip_end == 0 || ltb b.current_round_trip_end last_acked

unfoldable pub update_round_trip_counter : BbrSender → ℕ → BbrSender × Bool
update_round_trip_counter b last_acked =
    if ends_round b last_acked
    then (
      record b {
        round_trip_count = add64 b.round_trip_count 1;
        current_round_trip_end = b.last_sent_packet;
      },
      true,
    )
    else (b, false)

-- the switch of `updateRecoveryState`
unfoldable pub advance_recovery : BbrSender → ℕ → Bool → Bool → BbrSender
advance_recovery b last_acked has_losses is_round_start = elim b.recovery_state [
  | not_in_recovery ↦
      if has_losses
      then record b {
        recovery_state = conservation;
        recovery_window = 0;
        current_round_trip_end = b.last_sent_packet;
      }
      else b
  | conservation ↦ record b {
    recovery_state =
        if not has_losses && ltb b.end_recovery_at last_acked
        then not_in_recovery
        else if is_round_start
        then growth
        else conservation;
  }
  | growth ↦ record b {
    recovery_state =
        if not has_losses && ltb b.end_recovery_at last_acked then not_in_recovery else growth;
  }
]

unfoldable pub update_recovery_state : BbrSender → ℕ → Bool → Bool → BbrSender
update_recovery_state b last_acked has_losses is_round_start =
    if not b.is_at_full_bandwidth
    then b
    else advance_recovery
        (record b {
          end_recovery_at = if has_losses then b.last_sent_packet else b.end_recovery_at;
        })
        last_acked has_losses is_round_start

-- `maybeUpdateMinRtt`; the flag says that the estimate has expired
unfoldable pub maybe_update_min_rtt : BbrSender → ℕ → ℕ → BbrSender × Bool
maybe_update_min_rtt b now sample_rtt =
    let expired = not (b.min_rtt == 0) && ltb (add_time b.min_rtt_timestamp min_rtt_expiry) now in
    (
      if expired || less sample_rtt b.min_rtt || b.min_rtt == 0
          then record b { min_rtt = sample_rtt; min_rtt_timestamp = now }
          else b,
      expired,
    )

unfoldable pub maybe_applimited : BbrSender → ℕ → BbrSender
maybe_applimited b in_flight =
    let window = get_congestion_window b in
    let drain_limited = is_drain b.mode && less (signed_div window 2) in_flight in
    if not (less in_flight window)
    then b
    else if not drain_limited || less (mul64 3 b.max_datagram_size) (sub64 window in_flight)
    then record b { sampler = on_app_limited b.sampler }
    else b

unfoldable pub start_drain : BbrSender → BbrSender
start_drain b =
    if is_startup b.mode && b.is_at_full_bandwidth
    then record b {
      mode = drain;
      pacing_gain = b.drain_gain;
      congestion_window_gain = b.high_cwnd_gain;
    }
    else b

-- the mode is left for PROBE_RTT
unfoldable pub maybe_enter_probe_rtt : BbrSender → Bool → BbrSender
maybe_enter_probe_rtt b min_rtt_expired =
    if min_rtt_expired && not b.exiting_quiescence && not (is_probe_rtt b.mode)
    then record b { mode = probe_rtt; pacing_gain = gain_one; exit_probe_rtt_at = 0 }
    else b

unfoldable pub leave_probe_rtt : BbrSender → ℕ → ℕ → BbrSender
leave_probe_rtt b draw now =
    let c : BbrSender = record b { min_rtt_timestamp = now } in
    if not b.is_at_full_bandwidth
    then enter_startup_mode c
    else enter_probe_bandwidth_mode c draw now

module _ (p : Platform) where
  -- whether `updateGainCyclePhase` goes on to the next gain
  unfoldable pub advances_gain : BbrSender → ℕ → ℕ → ℕ → Bool → Bool
  advances_gain b stats_rtt now prior_in_flight has_losses =
      let after_rtt = ltb (add_time b.last_cycle_start (get_min_rtt b stats_rtt)) now in
      let probing =
        above_one b.pacing_gain
        && not has_losses
        && less prior_in_flight (get_target_congestion_window p b stats_rtt b.pacing_gain) in
      let drained =
        below_one b.pacing_gain
        && not (less (get_target_congestion_window p b stats_rtt gain_one) b.bytes_in_flight) in
      drained || (after_rtt && not probing)

  -- whether the gain stays below 1.0 until the queue is drained
  unfoldable pub stays_low : BbrSender → ℕ → ℕ → Bool
  stays_low b stats_rtt offset =
      b.drain_to_target
      && below_one b.pacing_gain
      && equals_one (pacing_gain_at offset)
      && less (get_target_congestion_window p b stats_rtt gain_one) b.bytes_in_flight

  unfoldable pub update_gain_cycle_phase : BbrSender → ℕ → ℕ → ℕ → Bool → BbrSender
  update_gain_cycle_phase b stats_rtt now prior_in_flight has_losses =
      let offset = (b.cycle_current_offset + 1) % gain_cycle_length in
      if advances_gain b stats_rtt now prior_in_flight has_losses
      then record b {
        cycle_current_offset = offset;
        last_cycle_start = now;
        pacing_gain = if stays_low b stats_rtt offset then b.pacing_gain else pacing_gain_at offset;
      }
      else b

  unfoldable pub should_exit_startup_due_to_loss : BbrSender → SendTimeState → Bool
  should_exit_startup_due_to_loss b s =
      leb 8 b.num_loss_events_in_round
      && s.is_valid
      && less 0 s.bytes_in_flight
      && less (p.loss_share s.bytes_in_flight) b.bytes_lost_in_round

  -- the bandwidth has grown by the factor that keeps the sender in STARTUP
  unfoldable pub has_bandwidth_growth : BbrSender → Bool
  has_bandwidth_growth b = leb (p.rate gain_up b.bandwidth_at_last_round) (bandwidth_estimate b)

  unfoldable pub check_if_full_bandwidth_reached : BbrSender → SendTimeState → BbrSender
  check_if_full_bandwidth_reached b s =
      let rounds = add64 b.rounds_without_bandwidth_gain 1 in
      if b.last_sample_is_app_limited
      then b
      else if has_bandwidth_growth b
      then record b {
        bandwidth_at_last_round = bandwidth_estimate b;
        rounds_without_bandwidth_gain = 0;
        sampler =
            if b.expire_ack_aggregation_in_startup
            then reset_max_ack_height_tracker b.sampler 0 b.round_trip_count
            else b.sampler;
      }
      else record b {
        rounds_without_bandwidth_gain = rounds;
        is_at_full_bandwidth =
            if not (less rounds b.num_startup_rtts) || should_exit_startup_due_to_loss b s
            then true
            else b.is_at_full_bandwidth;
      }

  unfoldable pub finish_drain : BbrSender → ℕ → ℕ → ℕ → BbrSender
  finish_drain b stats_rtt draw now =
      if is_drain b.mode
        && not (less (get_target_congestion_window p b stats_rtt gain_one) b.bytes_in_flight)
      then enter_probe_bandwidth_mode b draw now
      else b

  unfoldable pub maybe_exit_startup_or_drain : BbrSender → ℕ → ℕ → ℕ → BbrSender
  maybe_exit_startup_or_drain b stats_rtt draw now = finish_drain (start_drain b) stats_rtt draw now

  -- one event in PROBE_RTT
  unfoldable pub stay_in_probe_rtt : BbrSender → ℕ → ℕ → Bool → BbrSender
  stay_in_probe_rtt b draw now is_round_start =
      let passed = if is_round_start then true else b.probe_rtt_round_passed in
      let c : BbrSender = record b { probe_rtt_round_passed = passed } in
      if b.exit_probe_rtt_at == 0
      then if less b.bytes_in_flight
          (add64 (probe_rtt_congestion_window b) p.max_packet_buffer_size)
        then record b {
          exit_probe_rtt_at = add_time now probe_rtt_time;
          probe_rtt_round_passed = false;
        }
        else b
      else if not (less (sub_time now b.exit_probe_rtt_at) 0) && passed
      then leave_probe_rtt c draw now
      else c

  unfoldable pub maybe_enter_or_exit_probe_rtt : BbrSender → ℕ → ℕ → Bool → Bool → BbrSender
  maybe_enter_or_exit_probe_rtt b draw now is_round_start min_rtt_expired =
      let c = maybe_enter_probe_rtt b min_rtt_expired in
      let d =
        if is_probe_rtt c.mode
        then stay_in_probe_rtt (record c { sampler = on_app_limited c.sampler }) draw now
            is_round_start
        else c in
      record d { exiting_quiescence = false }
