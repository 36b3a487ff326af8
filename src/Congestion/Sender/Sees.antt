-- ===== src/Congestion/Sender/Sees.antt =====
-- The parts of `OnCongestionEventEx` of bbr_sender.go that leave what PROBE_RTT is decided by.
use outbound.Prelude.{◌==◌, if_holds, ℕ, Bool, ◌&&◌, not}
use outbound.Congestion.Words.{less}
use outbound.Congestion.Sampler.Event.{CongestionEventSample}
use outbound.Congestion.Sender.Records.{BbrMode, Platform, BbrSender, is_probe_bw, is_probe_rtt}
use outbound.Congestion.Sender.Windows.{bandwidth_estimate, in_recovery, get_congestion_window}
use outbound.Congestion.Sender.Windows.{slow_overshoot, calculate_pacing_rate}
use outbound.Congestion.Sender.Windows.{calculate_congestion_window, calculate_recovery_window}
use outbound.Congestion.Sender.Modes.{advance_recovery, update_recovery_state}
use outbound.Congestion.Sender.Modes.{maybe_update_min_rtt, maybe_applimited}
use outbound.Congestion.Sender.Modes.{update_gain_cycle_phase, has_bandwidth_growth}
use outbound.Congestion.Sender.Modes.{check_if_full_bandwidth_reached}
use outbound.Congestion.Sender.Event.{CongestionEvent, has_losses, apply_sample, count_losses}
use outbound.Congestion.Sender.Event.{sample_event, cycle_gains, seek_full_bandwidth}
use outbound.Congestion.Sender.Event.{update_windows}
use outbound.Congestion.Sender.Control.{recovery_holds}

-- What holds of the mode, the time to leave PROBE_RTT, the bytes in flight, the least window and the
-- end of the round trip holds on after the parts that leave them.
module _ (Q : BbrMode → ℕ → ℕ → ℕ → ℕ → Type 0) where
  abbrev pub Sees : BbrSender → Type 0
  Sees b =
      Q b.mode b.exit_probe_rtt_at b.bytes_in_flight b.min_congestion_window
        b.current_round_trip_end

  pub maybe_applimited-Sees : (b : BbrSender) (n : ℕ) → Sees b → Sees (maybe_applimited b n)
  unfolding maybe_applimited
  maybe_applimited-Sees b n h =
      if_holds Sees (not (less n (get_congestion_window b))) h (if_holds Sees _ h h)

  advance_recovery-Sees :
      (b : BbrSender) (n : ℕ) (losses round : Bool)
      → Sees b
      → Q b.mode b.exit_probe_rtt_at b.bytes_in_flight b.min_congestion_window b.last_sent_packet
      → Sees (advance_recovery b n losses round)
  unfolding advance_recovery
  advance_recovery-Sees b n losses round h k =
      recovery_holds Sees b.recovery_state (if_holds Sees losses k h) h h

  pub update_recovery_state-Sees :
      (b : BbrSender) (n : ℕ) (losses round : Bool)
      → Sees b
      → Q b.mode b.exit_probe_rtt_at b.bytes_in_flight b.min_congestion_window b.last_sent_packet
      → Sees (update_recovery_state b n losses round)
  unfolding update_recovery_state
  update_recovery_state-Sees b n losses round h k =
      if_holds Sees (not b.is_at_full_bandwidth) h (advance_recovery-Sees _ n losses round h k)

  pub sample_event-Sees :
      (p : Platform) (b : BbrSender) (e : CongestionEvent) → Sees b → Sees (sample_event p b e).0
  unfolding sample_event apply_sample maybe_update_min_rtt
  sample_event-Sees p b e h =
      if_holds {A = BbrSender × CongestionEventSample × Bool} (λ x. Sees x.0) _ h
        (if_holds Sees _ h h)

  module _ (p : Platform) (b : BbrSender) (h : Sees b) where
    pub count_losses-Sees : (e : CongestionEvent) (lost : ℕ) → Sees (count_losses b e lost)
    unfolding count_losses
    count_losses-Sees e lost = if_holds Sees (has_losses e) h h

    pub cycle_gains-Sees : (e : CongestionEvent) → Sees (cycle_gains p b e)
    unfolding cycle_gains update_gain_cycle_phase
    cycle_gains-Sees e = if_holds Sees (is_probe_bw b.mode) (if_holds Sees _ h h) h

    pub seek_full_bandwidth-Sees :
        (s : CongestionEventSample) (round : Bool) → Sees (seek_full_bandwidth p b s round)
    unfolding seek_full_bandwidth check_if_full_bandwidth_reached
    seek_full_bandwidth-Sees s round =
        if_holds Sees (round && not b.is_at_full_bandwidth)
          (if_holds Sees b.last_sample_is_app_limited h
            (if_holds Sees (has_bandwidth_growth p b) h h))
          h

    calculate_pacing_rate-Sees :
        (stats_rtt lost : ℕ) → Sees (calculate_pacing_rate p b stats_rtt lost)
    unfolding calculate_pacing_rate slow_overshoot
    calculate_pacing_rate-Sees stats_rtt lost = if_holds Sees (bandwidth_estimate b == 0) h (
        if_holds Sees b.is_at_full_bandwidth h (
          if_holds Sees (b.pacing_rate == 0 && not (stats_rtt == 0)) h
            (if_holds Sees b.detect_overshooting (if_holds Sees _ h h) h)))

    calculate_congestion_window-Sees :
        (stats_rtt acked excess : ℕ) → Sees (calculate_congestion_window p b stats_rtt acked excess)
    unfolding calculate_congestion_window
    calculate_congestion_window-Sees stats_rtt acked excess =
        if_holds Sees (is_probe_rtt b.mode) h h

    calculate_recovery_window-Sees :
        (acked lost : ℕ) → Sees (calculate_recovery_window b acked lost)
    unfolding calculate_recovery_window
    calculate_recovery_window-Sees acked lost = if_holds Sees (not (in_recovery b)) h h

  pub update_windows-Sees :
      (p : Platform) (b : BbrSender) (e : CongestionEvent) (s : CongestionEventSample)
      (acked lost : ℕ)
      → Sees b
      → Sees (update_windows p b e s acked lost)
  unfolding update_windows
  update_windows-Sees p b e s acked lost h =
      let c = calculate_pacing_rate p b e.stats_rtt lost in
      let d = calculate_congestion_window p c e.stats_rtt acked s.extra_acked in
      calculate_recovery_window-Sees p d
        (calculate_congestion_window-Sees p c (calculate_pacing_rate-Sees p b h e.stats_rtt lost)
          e.stats_rtt acked s.extra_acked)
        acked lost
