-- ===== src/Congestion/Sender/Keeps.antt =====
-- The parts of `OnCongestionEventEx` that leave the mode and the full bandwidth of bbr_sender.go.
use outbound.Prelude.{◌==◌, if_holds, ℕ, ◌≡◌, Bool, ◌&&◌, not}
use outbound.Congestion.Words.{less}
use outbound.Congestion.Sampler.Event.{CongestionEventSample}
use outbound.Congestion.Sender.Records.{BbrMode, Platform, BbrSender, is_probe_bw, is_probe_rtt}
use outbound.Congestion.Sender.Control.{recovery_holds}
use outbound.Congestion.Sender.Windows.{bandwidth_estimate, in_recovery, get_congestion_window}
use outbound.Congestion.Sender.Windows.{slow_overshoot, calculate_pacing_rate}
use outbound.Congestion.Sender.Windows.{calculate_congestion_window, calculate_recovery_window}
use outbound.Congestion.Sender.Modes.{ends_round, update_round_trip_counter, advance_recovery}
use outbound.Congestion.Sender.Modes.{update_recovery_state, maybe_update_min_rtt}
use outbound.Congestion.Sender.Modes.{maybe_applimited, update_gain_cycle_phase}
use outbound.Congestion.Sender.Event.{CongestionEvent, is_none_left, has_losses, begin_event}
use outbound.Congestion.Sender.Event.{apply_sample, count_losses, sample_event, cycle_gains}
use outbound.Congestion.Sender.Event.{update_windows}

-- A part of the event that leaves the mode, and the full bandwidth.
abbrev pub Keeps : BbrMode → Bool → BbrSender → Type 0
Keeps m f b = (b.mode ≡ m) × (b.is_at_full_bandwidth ≡ f)

module _ (m : BbrMode) (f : Bool) where
  advance_recovery-Keeps :
      (b : BbrSender) (n : ℕ) (losses round : Bool)
      → Keeps m f b
      → Keeps m f (advance_recovery b n losses round)
  unfolding advance_recovery
  advance_recovery-Keeps b n losses round h =
      recovery_holds (Keeps m f) b.recovery_state (if_holds (Keeps m f) losses h h) h h

  pub begin_event-Keeps :
      (b : BbrSender) (e : CongestionEvent) → Keeps m f b → Keeps m f (begin_event b e).0
  unfolding begin_event update_round_trip_counter update_recovery_state maybe_applimited
  begin_event-Keeps b e h =
      let c =
        if_holds (Keeps m f) (not (less e.prior_in_flight (get_congestion_window b))) h
          (if_holds (Keeps m f) _ h h) in
      let d = if_holds {A = BbrSender × Bool} (λ x. Keeps m f x.0) (ends_round _ _) c c in
      if_holds {A = BbrSender × Bool} (λ x. Keeps m f x.0) (is_none_left e.acked) c
        (if_holds (Keeps m f) _ d (advance_recovery-Keeps _ _ (has_losses e) _ d))

  pub sample_event-Keeps :
      (p : Platform) (b : BbrSender) (e : CongestionEvent)
      → Keeps m f b
      → Keeps m f (sample_event p b e).0
  unfolding sample_event apply_sample maybe_update_min_rtt
  sample_event-Keeps p b e h =
      if_holds {A = BbrSender × CongestionEventSample × Bool} (λ x. Keeps m f x.0) _ h
        (if_holds (Keeps m f) _ h h)

  pub cycle_gains-Keeps :
      (p : Platform) (b : BbrSender) (e : CongestionEvent)
      → Keeps m f b
      → Keeps m f (cycle_gains p b e)
  unfolding cycle_gains update_gain_cycle_phase
  cycle_gains-Keeps p b e h =
      if_holds (Keeps m f) (is_probe_bw b.mode) (if_holds (Keeps m f) _ h h) h

  pub count_losses-Keeps :
      (b : BbrSender) (e : CongestionEvent) (lost : ℕ)
      → Keeps m f b
      → Keeps m f (count_losses b e lost)
  unfolding count_losses
  count_losses-Keeps b e lost h = if_holds (Keeps m f) (has_losses e) h h

  slow_overshoot-Keeps :
      (p : Platform) (b : BbrSender) (stats_rtt target lost : ℕ)
      → Keeps m f b
      → Keeps m f (slow_overshoot p b stats_rtt target lost)
  unfolding slow_overshoot
  slow_overshoot-Keeps p b stats_rtt target lost h = if_holds (Keeps m f) _ h h

  calculate_pacing_rate-Keeps :
      (p : Platform) (b : BbrSender) (stats_rtt lost : ℕ)
      → Keeps m f b
      → Keeps m f (calculate_pacing_rate p b stats_rtt lost)
  unfolding calculate_pacing_rate
  calculate_pacing_rate-Keeps p b stats_rtt lost h =
      if_holds (Keeps m f) (bandwidth_estimate b == 0) h (
        if_holds (Keeps m f) b.is_at_full_bandwidth h (
          if_holds (Keeps m f) (b.pacing_rate == 0 && not (stats_rtt == 0)) h (
            if_holds (Keeps m f) b.detect_overshooting (slow_overshoot-Keeps p b stats_rtt _ lost h)
              h)))

  calculate_congestion_window-Keeps :
      (p : Platform) (b : BbrSender) (stats_rtt acked excess : ℕ)
      → Keeps m f b
      → Keeps m f (calculate_congestion_window p b stats_rtt acked excess)
  unfolding calculate_congestion_window
  calculate_congestion_window-Keeps p b stats_rtt acked excess h =
      if_holds (Keeps m f) (is_probe_rtt b.mode) h h

  calculate_recovery_window-Keeps :
      (b : BbrSender) (acked lost : ℕ)
      → Keeps m f b
      → Keeps m f (calculate_recovery_window b acked lost)
  unfolding calculate_recovery_window
  calculate_recovery_window-Keeps b acked lost h = if_holds (Keeps m f) (not (in_recovery b)) h h

  pub update_windows-Keeps :
      (p : Platform) (b : BbrSender) (e : CongestionEvent) (s : CongestionEventSample)
      (acked lost : ℕ)
      → Keeps m f b
      → Keeps m f (update_windows p b e s acked lost)
  unfolding update_windows
  update_windows-Keeps p b e s acked lost h =
      let c = calculate_pacing_rate p b e.stats_rtt lost in
      calculate_recovery_window-Keeps
        (calculate_congestion_window p c e.stats_rtt acked s.extra_acked) acked lost
        (calculate_congestion_window-Keeps p c e.stats_rtt acked s.extra_acked
          (calculate_pacing_rate-Keeps p b e.stats_rtt lost h))
