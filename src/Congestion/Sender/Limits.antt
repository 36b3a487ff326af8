-- ===== src/Congestion/Sender/Limits.antt =====
-- The congestion window of bbr_sender.go with its limits, and the sampler's map of packet records,
-- through every part of `OnCongestionEventEx`.
use outbound.Prelude.{◌==◌, if_holds, if_cases, ℕ, ◌≤◌, ◌≡◌, Bool, true, ◌&&◌, not, arith}
use outbound.Congestion.Words.{sub64, signed, less, signed_min, signed_max}
use outbound.Congestion.Sampler.Records.{BandwidthSampler, inf_bandwidth}
use outbound.Congestion.Sampler.State.{reset_max_ack_height_tracker, on_app_limited}
use outbound.Congestion.Sampler.Event.{CongestionEventSample, on_congestion_event}
use outbound.Congestion.Sender.Records.{Gain, Platform, BbrSender, is_startup, is_probe_bw}
use outbound.Congestion.Sender.Records.{is_probe_rtt}
use outbound.Congestion.Sender.Windows.{bandwidth_estimate, in_recovery, get_congestion_window}
use outbound.Congestion.Sender.Windows.{slow_overshoot, calculate_pacing_rate, grown_window}
use outbound.Congestion.Sender.Windows.{calculate_congestion_window, next_recovery_window}
use outbound.Congestion.Sender.Windows.{calculate_recovery_window}
use outbound.Congestion.Sender.Modes.{enter_startup_mode, enter_probe_bandwidth_mode, ends_round}
use outbound.Congestion.Sender.Modes.{update_round_trip_counter, advance_recovery}
use outbound.Congestion.Sender.Modes.{update_recovery_state, maybe_update_min_rtt}
use outbound.Congestion.Sender.Modes.{maybe_applimited, start_drain, maybe_enter_probe_rtt}
use outbound.Congestion.Sender.Modes.{leave_probe_rtt, update_gain_cycle_phase}
use outbound.Congestion.Sender.Modes.{has_bandwidth_growth, check_if_full_bandwidth_reached}
use outbound.Congestion.Sender.Modes.{finish_drain, maybe_exit_startup_or_drain}
use outbound.Congestion.Sender.Modes.{stay_in_probe_rtt, maybe_enter_or_exit_probe_rtt}
use outbound.Congestion.Sender.Event.{CongestionEvent, numbers, is_none_left, has_losses}
use outbound.Congestion.Sender.Event.{begin_event, apply_sample, count_losses, sample_event}
use outbound.Congestion.Sender.Event.{cycle_gains, seek_full_bandwidth, update_modes}
use outbound.Congestion.Sender.Event.{update_windows, clean_up, handle_event}
use outbound.Congestion.Sender.Control.{recovery_holds}

-- The sampler after it has handled the event.
abbrev pub sampled : Platform → BbrSender → CongestionEvent → BandwidthSampler Gain
sampled p b e =
    (on_congestion_event p.scaled b.sampler e.event_time (numbers e.acked) e.lost
      (bandwidth_estimate b) inf_bandwidth b.round_trip_count).0

-- What the sampler's small operations keep.
pub record IsKept (Q : ℕ → ℕ → ℕ → BandwidthSampler Gain → Type 0) : Type 0 where
  pub limited : (w l h : ℕ) (s : BandwidthSampler Gain) → Q w l h s → Q w l h (on_app_limited s)
  pub reset :
      (w l h x y : ℕ) (s : BandwidthSampler Gain)
      → Q w l h s
      → Q w l h (reset_max_ack_height_tracker s x y)

abbrev pub On : (ℕ → ℕ → ℕ → BandwidthSampler Gain → Type 0) → BbrSender → Type 0
On Q b = Q b.congestion_window b.min_congestion_window b.max_congestion_window b.sampler

-- What holds of the congestion window, its limits and the sampler holds on after the parts that leave
-- them.
module _ (Q : ℕ → ℕ → ℕ → BandwidthSampler Gain → Type 0) (kept : IsKept Q) where
  pub begin_event-On : (b : BbrSender) (e : CongestionEvent) → On Q b → On Q (begin_event b e).0
  unfolding begin_event update_round_trip_counter update_recovery_state maybe_applimited
      advance_recovery
  begin_event-On b e h =
      let c =
        if_holds (On Q) (not (less e.prior_in_flight (get_congestion_window b))) h
          (if_holds (On Q) _ (kept.limited _ _ _ b.sampler h) h) in
      let d = if_holds {A = BbrSender × Bool} (λ x. On Q x.0) (ends_round _ _) c c in
      if_holds {A = BbrSender × Bool} (λ x. On Q x.0) (is_none_left e.acked) c
        (if_holds (On Q) _ d (recovery_holds (On Q) _ (if_holds (On Q) (has_losses e) d d) d d))

  pub sample_event-On :
      (p : Platform) (b : BbrSender) (e : CongestionEvent)
      → Q b.congestion_window b.min_congestion_window b.max_congestion_window (sampled p b e)
      → On Q (sample_event p b e).0
  unfolding sample_event apply_sample maybe_update_min_rtt
  sample_event-On p b e h =
      if_holds {A = BbrSender × CongestionEventSample × Bool} (λ x. On Q x.0) _ h
        (if_holds (On Q) _ h h)

  module _ (p : Platform) (b : BbrSender) (h : On Q b) where
    count_losses-On : (e : CongestionEvent) (lost : ℕ) → On Q (count_losses b e lost)
    unfolding count_losses
    count_losses-On e lost = if_holds (On Q) (has_losses e) h h

    cycle_gains-On : (e : CongestionEvent) → On Q (cycle_gains p b e)
    unfolding cycle_gains update_gain_cycle_phase
    cycle_gains-On e = if_holds (On Q) (is_probe_bw b.mode) (if_holds (On Q) _ h h) h

    seek_full_bandwidth-On :
        (s : CongestionEventSample) (round : Bool) → On Q (seek_full_bandwidth p b s round)
    unfolding seek_full_bandwidth check_if_full_bandwidth_reached
    seek_full_bandwidth-On s round =
        if_holds (On Q) (round && not b.is_at_full_bandwidth)
          (if_holds (On Q) b.last_sample_is_app_limited h (
            if_holds (On Q) (has_bandwidth_growth p b)
              (if_holds (Q b.congestion_window b.min_congestion_window b.max_congestion_window)
                b.expire_ack_aggregation_in_startup
                (kept.reset _ _ _ 0 b.round_trip_count b.sampler h) h)
              h))
          h

    maybe_exit_startup_or_drain-On :
        (stats_rtt draw now : ℕ) → On Q (maybe_exit_startup_or_drain p b stats_rtt draw now)
    unfolding maybe_exit_startup_or_drain start_drain finish_drain enter_probe_bandwidth_mode
    maybe_exit_startup_or_drain-On stats_rtt draw now =
        let k = if_holds (On Q) (is_startup b.mode && b.is_at_full_bandwidth) h h in
        if_holds (On Q) _ k k

    stay_in_probe_rtt-On :
        (draw now : ℕ) (round : Bool) → On Q (stay_in_probe_rtt p b draw now round)
    unfolding stay_in_probe_rtt leave_probe_rtt enter_startup_mode enter_probe_bandwidth_mode
    stay_in_probe_rtt-On draw now round =
        if_holds (On Q) (b.exit_probe_rtt_at == 0) (if_holds (On Q) _ h h)
          (if_holds (On Q) _ (if_holds (On Q) (not b.is_at_full_bandwidth) h h) h)

    pub calculate_pacing_rate-On :
        (stats_rtt lost : ℕ) → On Q (calculate_pacing_rate p b stats_rtt lost)
    unfolding calculate_pacing_rate slow_overshoot
    calculate_pacing_rate-On stats_rtt lost = if_holds (On Q) (bandwidth_estimate b == 0) h (
        if_holds (On Q) b.is_at_full_bandwidth h (
          if_holds (On Q) (b.pacing_rate == 0 && not (stats_rtt == 0)) h
            (if_holds (On Q) b.detect_overshooting (if_holds (On Q) _ h h) h)))

  module _ (p : Platform) (b : BbrSender) (h : On Q b) where
    maybe_enter_or_exit_probe_rtt-On :
        (draw now : ℕ) (round expired : Bool)
        → On Q (maybe_enter_or_exit_probe_rtt p b draw now round expired)
    unfolding maybe_enter_or_exit_probe_rtt maybe_enter_probe_rtt
    maybe_enter_or_exit_probe_rtt-On draw now round expired =
        let k =
          if_holds (On Q) (expired && not b.exiting_quiescence && not (is_probe_rtt b.mode)) h h in
        if_holds (On Q) _ (stay_in_probe_rtt-On p _ (kept.limited _ _ _ _ k) draw now round) k

  module _ (p : Platform) (b : BbrSender) (h : On Q b) where
    pub update_modes-On :
        (e : CongestionEvent) (s : CongestionEventSample) (lost : ℕ) (round expired : Bool)
        → On Q (update_modes p b e s lost round expired)
    unfolding update_modes
    update_modes-On e s lost round expired =
        let c = count_losses b e lost in
        let d = cycle_gains p c e in
        let f = seek_full_bandwidth p d s round in
        maybe_enter_or_exit_probe_rtt-On p
          (maybe_exit_startup_or_drain p f e.stats_rtt e.draw e.event_time)
          (maybe_exit_startup_or_drain-On p f
            (seek_full_bandwidth-On p d (cycle_gains-On p c (count_losses-On p b h e lost) e) s
              round)
            e.stats_rtt e.draw e.event_time)
          e.draw e.event_time round expired

-- Signed order of the window between its limits, the lower one the constant `least`.
abbrev pub Within : ℕ → ℕ → ℕ → ℕ → BandwidthSampler Gain → Type 0
Within least window low high s =
    (signed low ≤ signed window) × (signed window ≤ signed high) × (low ≡ least)

clamped :
    (x least low high : ℕ) (s : BandwidthSampler Gain)
    → signed low ≤ signed high
    → low ≡ least
    → Within least (signed_min (signed_max x low) high) low high s
clamped x least low high s h k = (ground (arith, h), ground (arith, h), k)

not_below : (x y : ℕ) → signed x ≤ signed (signed_max x y)
not_below x y = ground arith

-- A recovery keeps its window, where there is one, at the least window at least.
abbrev pub Recovery : BbrSender → Type 0
Recovery b = in_recovery b ≡ true → signed b.min_congestion_window ≤ signed b.recovery_window

pub Within-IsKept : (least : ℕ) → IsKept (Within least)
Within-IsKept least = record { limited = λ w l h s k. k; reset = λ w l h x y s k. k }

module _ (p : Platform) (least : ℕ) where
  calculate_congestion_window_lem :
      (b : BbrSender) (stats_rtt acked excess : ℕ)
      → On (Within least) b
      → On (Within least) (calculate_congestion_window p b stats_rtt acked excess)
  unfolding calculate_congestion_window
  calculate_congestion_window_lem b stats_rtt acked excess h =
      if_holds (On (Within least)) (is_probe_rtt b.mode) h (
        clamped (grown_window p b stats_rtt acked excess) least b.min_congestion_window
          b.max_congestion_window b.sampler (omega (arith, h.0, h.1)) h.2)

calculate_recovery_window_lem :
    (least : ℕ) (b : BbrSender) (acked lost : ℕ)
    → On (Within least) b
    → On (Within least) (calculate_recovery_window b acked lost)
      × Recovery (calculate_recovery_window b acked lost)
unfolding calculate_recovery_window next_recovery_window
calculate_recovery_window_lem least b acked lost h =
    if_cases (λ c. On (Within least) c × Recovery c) (not (in_recovery b))
      (λ t. (h, λ r. absurd (ground (arith, t, r))))
      (λ t. (
        h,
        λ r.
            if_holds (λ w. signed b.min_congestion_window ≤ signed w) (b.recovery_window == 0)
              (not_below b.min_congestion_window _) (not_below b.min_congestion_window _),
      ))

-- A call of `OnCongestionEventEx` keeps the window within its limits, and that of a recovery above
-- the lower one.
pub handle_event_lem :
    (p : Platform) (least : ℕ) (b : BbrSender) (e : CongestionEvent)
    → On (Within least) b
    → On (Within least) (handle_event p b e) × Recovery (handle_event p b e)
unfolding handle_event clean_up update_windows in_recovery
handle_event_lem p least b e h =
    let Q = Within least in
    let (c, round) = begin_event b e in
    let (d, s, expired) = sample_event p c e in
    let lost = sub64 d.sampler.total_bytes_lost b.sampler.total_bytes_lost in
    let acked = sub64 d.sampler.total_bytes_acked b.sampler.total_bytes_acked in
    let f = update_modes p d e s lost round expired in
    let g = calculate_pacing_rate p f e.stats_rtt lost in
    let k =
      sample_event-On Q (Within-IsKept least) p c e
        (begin_event-On Q (Within-IsKept least) b e h) in
    let l =
      calculate_pacing_rate-On Q (Within-IsKept least) p f
        (update_modes-On Q (Within-IsKept least) p d k e s lost round expired) e.stats_rtt lost in
    calculate_recovery_window_lem least
      (calculate_congestion_window p g e.stats_rtt acked s.extra_acked) acked lost
      (calculate_congestion_window_lem p least g e.stats_rtt acked s.extra_acked l)
