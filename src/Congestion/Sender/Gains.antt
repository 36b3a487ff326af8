-- ===== src/Congestion/Sender/Gains.antt =====
-- The gains of bbr_sender.go stay in step with the mode through a whole `OnCongestionEventEx`.
use outbound.Prelude.{◌==◌, if◌then◌else◌, if_holds, if_cases, both_true, negation_fails, ℕ, ◌+◌}
use outbound.Prelude.{◌%◌, ◌<◌, ◌≡◌, refl, sym, Bool, true, false, ◌&&◌, not, arith}
use outbound.Congestion.Sampler.Records.{SendTimeState}
use outbound.Congestion.Sampler.Event.{CongestionEventSample}
use outbound.Congestion.Sender.Records.{BbrMode, startup, drain, probe_bw, probe_rtt, Gain}
use outbound.Congestion.Sender.Records.{pacing_gain_at, Platform, BbrSender, is_startup, is_drain}
use outbound.Congestion.Sender.Records.{is_probe_bw, is_probe_rtt}
use outbound.Congestion.Sender.Windows.{bandwidth_estimate, in_recovery, calculate_pacing_rate}
use outbound.Congestion.Sender.Windows.{calculate_congestion_window, calculate_recovery_window}
use outbound.Congestion.Sender.Modes.{start_drain, maybe_enter_probe_rtt, leave_probe_rtt}
use outbound.Congestion.Sender.Modes.{advances_gain, stays_low, update_gain_cycle_phase}
use outbound.Congestion.Sender.Modes.{has_bandwidth_growth, check_if_full_bandwidth_reached}
use outbound.Congestion.Sender.Modes.{finish_drain, maybe_exit_startup_or_drain}
use outbound.Congestion.Sender.Modes.{stay_in_probe_rtt, maybe_enter_or_exit_probe_rtt}
use outbound.Congestion.Sender.Event.{CongestionEvent, has_losses, begin_event, count_losses}
use outbound.Congestion.Sender.Event.{sample_event, cycle_gains, seek_full_bandwidth}
use outbound.Congestion.Sender.Event.{update_modes, update_windows, clean_up, handle_event}
use outbound.Congestion.Sender.Control.{Matches, Recovers, Constants, IsControlled, Matches-full}
use outbound.Congestion.Sender.Control.{Recovers-full, enter_startup_mode-IsControlled}
use outbound.Congestion.Sender.Control.{enter_probe_bandwidth_mode-IsControlled}
use outbound.Congestion.Sender.Control.{begin_event-IsControlled, sample_event-IsControlled}
use mathlib.Core.Path.{subst}

probe_bw_full :
    (m : BbrMode) (g : Gain) (o : ℕ) (f : Bool)
    → is_probe_bw m ≡ true
    → Matches m g o f
    → (m ≡ probe_bw) × (f ≡ true)
probe_bw_full startup g o f h k = absurd (ground (arith, h))
probe_bw_full drain g o f h k = absurd (ground (arith, h))
probe_bw_full probe_bw g o f h k = (refl, k.1)
probe_bw_full probe_rtt g o f h k = absurd (ground (arith, h))

module _ (p : Platform) (b : BbrSender) (stats_rtt : ℕ) where
  stays_low-false :
      (offset : ℕ) → b.drain_to_target ≡ false → stays_low p b stats_rtt offset ≡ false
  unfolding stays_low
  stays_low-false offset h = ground (arith, h)

  update_gain_cycle_phase-IsControlled :
      (now in_flight : ℕ) (losses : Bool)
      → IsControlled b
      → is_probe_bw b.mode ≡ true
      → IsControlled (update_gain_cycle_phase p b stats_rtt now in_flight losses)
  unfolding update_gain_cycle_phase
  update_gain_cycle_phase-IsControlled now in_flight losses (c, o, m, r) t =
      let (at, full) = probe_bw_full b.mode _ _ _ t m in
      let offset = (b.cycle_current_offset + 1) % 8 in
      let gain = if stays_low p b stats_rtt offset then b.pacing_gain else pacing_gain_at offset in
      if_holds IsControlled (advances_gain p b stats_rtt now in_flight losses)
        (
          c,
          omega arith,
          subst (λ x. Matches x gain offset b.is_at_full_bandwidth) (sym at)
              (
                if_cases (λ g. g ≡ pacing_gain_at offset) (stays_low p b stats_rtt offset)
                    (λ low. absurd (ground (arith, low, stays_low-false offset c.5))) (λ s. refl),
                full,
              ),
          r,
        )
        (c, o, m, r)

  check_if_full_bandwidth_reached-IsControlled :
      (s : SendTimeState) → IsControlled b → IsControlled (check_if_full_bandwidth_reached p b s)
  unfolding check_if_full_bandwidth_reached
  check_if_full_bandwidth_reached-IsControlled s (c, o, m, r) =
      if_holds IsControlled b.last_sample_is_app_limited (c, o, m, r)
        (if_holds IsControlled (has_bandwidth_growth p b) (c, o, m, r)
          (if_holds
            (λ f.
              Constants b
              × (b.cycle_current_offset < 8)
              × Matches b.mode b.pacing_gain b.cycle_current_offset f
              × Recovers b.recovery_state f)
            _ (c, o, Matches-full b.mode _ _ _ m, Recovers-full b.recovery_state _ r) (c, o, m, r)))

start_drain-IsControlled : (b : BbrSender) → IsControlled b → IsControlled (start_drain b)
unfolding start_drain
start_drain-IsControlled b ((s, c, d, k, g, t, o), n, m, r) =
    if_cases IsControlled (is_startup b.mode && b.is_at_full_bandwidth)
      (λ f. (
        (s, c, d, k, c, t, o),
        n,
        (d, (both_true (is_startup b.mode) b.is_at_full_bandwidth f).1),
        r,
      ))
      (λ f. ((s, c, d, k, g, t, o), n, m, r))

drain_full :
    (m : BbrMode) (g : Gain) (o : ℕ) (f : Bool) → is_drain m ≡ true → Matches m g o f → f ≡ true
drain_full startup g o f h k = absurd (ground (arith, h))
drain_full drain g o f h k = k.1
drain_full probe_bw g o f h k = absurd (ground (arith, h))
drain_full probe_rtt g o f h k = absurd (ground (arith, h))

finish_drain-IsControlled :
    (p : Platform) (b : BbrSender) (stats_rtt draw now : ℕ)
    → IsControlled b
    → IsControlled (finish_drain p b stats_rtt draw now)
unfolding finish_drain
finish_drain-IsControlled p b stats_rtt draw now (c, o, m, r) =
    if_cases IsControlled _
      (λ d.
        enter_probe_bandwidth_mode-IsControlled b draw now
          (drain_full b.mode _ _ _ (both_true (is_drain b.mode) _ d).0 m) (c, o, m, r))
      (λ d. (c, o, m, r))

maybe_enter_probe_rtt-IsControlled :
    (b : BbrSender) (expired : Bool)
    → IsControlled b
    → IsControlled (maybe_enter_probe_rtt b expired)
unfolding maybe_enter_probe_rtt
maybe_enter_probe_rtt-IsControlled b expired (c, o, m, r) =
    if_holds IsControlled _ (c, o, refl, r) (c, o, m, r)

stay_in_probe_rtt-IsControlled :
    (p : Platform) (b : BbrSender) (draw now : ℕ) (round : Bool)
    → IsControlled b
    → IsControlled (stay_in_probe_rtt p b draw now round)
unfolding stay_in_probe_rtt leave_probe_rtt
stay_in_probe_rtt-IsControlled p b draw now round h =
    if_holds IsControlled (b.exit_probe_rtt_at == 0) (if_holds IsControlled _ h h) (
      if_holds IsControlled _
        (if_cases IsControlled (not b.is_at_full_bandwidth)
          (λ f. enter_startup_mode-IsControlled _ h)
          (λ f.
            enter_probe_bandwidth_mode-IsControlled _ draw now
              (negation_fails b.is_at_full_bandwidth f) h))
        h)

maybe_enter_or_exit_probe_rtt-IsControlled :
    (p : Platform) (b : BbrSender) (draw now : ℕ) (round expired : Bool)
    → IsControlled b
    → IsControlled (maybe_enter_or_exit_probe_rtt p b draw now round expired)
unfolding maybe_enter_or_exit_probe_rtt
maybe_enter_or_exit_probe_rtt-IsControlled p b draw now round expired h =
    let k = maybe_enter_probe_rtt-IsControlled b expired h in
    if_holds IsControlled _ (stay_in_probe_rtt-IsControlled p _ draw now round k) k

module _ (p : Platform) (b : BbrSender) (e : CongestionEvent) where
  count_losses-IsControlled : (lost : ℕ) → IsControlled b → IsControlled (count_losses b e lost)
  unfolding count_losses
  count_losses-IsControlled lost h = if_holds IsControlled (has_losses e) h h

  cycle_gains-IsControlled : IsControlled b → IsControlled (cycle_gains p b e)
  unfolding cycle_gains
  cycle_gains-IsControlled h =
      if_cases IsControlled (is_probe_bw b.mode)
        (update_gain_cycle_phase-IsControlled p b e.stats_rtt e.event_time e.prior_in_flight
          (has_losses e) h)
        (λ t. h)

  seek_full_bandwidth-IsControlled :
      (s : CongestionEventSample) (round : Bool)
      → IsControlled b
      → IsControlled (seek_full_bandwidth p b s round)
  unfolding seek_full_bandwidth
  seek_full_bandwidth-IsControlled s round h =
      if_holds IsControlled (round && not b.is_at_full_bandwidth)
        (check_if_full_bandwidth_reached-IsControlled p b 0 s.last_packet_send_state h) h

  maybe_exit_startup_or_drain-IsControlled :
      IsControlled b
      → IsControlled (maybe_exit_startup_or_drain p b e.stats_rtt e.draw e.event_time)
  unfolding maybe_exit_startup_or_drain
  maybe_exit_startup_or_drain-IsControlled h =
      finish_drain-IsControlled p (start_drain b) e.stats_rtt e.draw e.event_time
        (start_drain-IsControlled b h)

update_modes-IsControlled :
    (p : Platform) (b : BbrSender) (e : CongestionEvent) (s : CongestionEventSample) (lost : ℕ)
    (round expired : Bool)
    → IsControlled b
    → IsControlled (update_modes p b e s lost round expired)
unfolding update_modes
update_modes-IsControlled p b e s lost round expired h =
    let c = count_losses b e lost in
    let d = cycle_gains p c e in
    let f = seek_full_bandwidth p d s round in
    maybe_enter_or_exit_probe_rtt-IsControlled p
      (maybe_exit_startup_or_drain p f e.stats_rtt e.draw e.event_time) e.draw e.event_time round
      expired
      (maybe_exit_startup_or_drain-IsControlled p f e (
        seek_full_bandwidth-IsControlled p d e s round
          (cycle_gains-IsControlled p c e (count_losses-IsControlled p b e lost h))))

calculate_pacing_rate-IsControlled :
    (p : Platform) (b : BbrSender) (stats_rtt lost : ℕ)
    → IsControlled b
    → IsControlled (calculate_pacing_rate p b stats_rtt lost)
unfolding calculate_pacing_rate
calculate_pacing_rate-IsControlled p b stats_rtt lost h =
    if_holds IsControlled (bandwidth_estimate b == 0) h (
      if_holds IsControlled b.is_at_full_bandwidth h (
        if_holds IsControlled (b.pacing_rate == 0 && not (stats_rtt == 0)) h (
          if_cases IsControlled b.detect_overshooting (λ f. absurd (ground (arith, f, h.0.6)))
            (λ f. h))))

calculate_congestion_window-IsControlled :
    (p : Platform) (b : BbrSender) (stats_rtt acked excess : ℕ)
    → IsControlled b
    → IsControlled (calculate_congestion_window p b stats_rtt acked excess)
unfolding calculate_congestion_window
calculate_congestion_window-IsControlled p b stats_rtt acked excess h =
    if_holds IsControlled (is_probe_rtt b.mode) h h

calculate_recovery_window-IsControlled :
    (b : BbrSender) (acked lost : ℕ)
    → IsControlled b
    → IsControlled (calculate_recovery_window b acked lost)
unfolding calculate_recovery_window
calculate_recovery_window-IsControlled b acked lost h =
    if_holds IsControlled (not (in_recovery b)) h h

update_windows-IsControlled :
    (p : Platform) (b : BbrSender) (e : CongestionEvent) (s : CongestionEventSample)
    (acked lost : ℕ)
    → IsControlled b
    → IsControlled (update_windows p b e s acked lost)
unfolding update_windows
update_windows-IsControlled p b e s acked lost h =
    let c = calculate_pacing_rate p b e.stats_rtt lost in
    calculate_recovery_window-IsControlled
      (calculate_congestion_window p c e.stats_rtt acked s.extra_acked) acked lost
      (calculate_congestion_window-IsControlled p c e.stats_rtt acked s.extra_acked
        (calculate_pacing_rate-IsControlled p b e.stats_rtt lost h))

-- A call of `OnCongestionEventEx` keeps the gains in step with the mode.
pub handle_event-IsControlled :
    (p : Platform) (b : BbrSender) (e : CongestionEvent)
    → IsControlled b
    → IsControlled (handle_event p b e)
unfolding handle_event clean_up
handle_event-IsControlled p b e h =
    let c = begin_event-IsControlled b e h in
    let d = sample_event-IsControlled p (begin_event b e).0 e c in
    update_windows-IsControlled p _ e _ _ _
      (update_modes-IsControlled p (sample_event p (begin_event b e).0 e).0 e _ _ _ _ d)
