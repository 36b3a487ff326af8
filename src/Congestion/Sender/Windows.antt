-- ===== src/Congestion/Sender/Windows.antt =====
-- The estimates and windows of bbr_sender.go. `stats_rtt` is what `rttStats.MinRTT()` returns, and a
-- state stands for the sender as a call finds it.
use outbound.Prelude.{ltb, ◌==◌, if◌then◌else◌, ℕ, max, Bool, true, false, ◌&&◌, ◌||◌, not}
use outbound.Congestion.Words.{add64, sub64, mul64, less, signed_div, signed_min, signed_max}
use outbound.Congestion.Pacer.{second}
use outbound.Congestion.Sampler.Tracker.{get_height}
use outbound.Congestion.Sampler.Records.{bandwidth_from_delta}
use outbound.Congestion.Sender.Records.{not_in_recovery, growth, Gain, min_bps, Platform}
use outbound.Congestion.Sender.Records.{BbrSender, is_startup, is_probe_rtt}

unfoldable pub bandwidth_estimate : BbrSender → ℕ
bandwidth_estimate b = b.max_bandwidth.best.sample

-- `BytesPerSecond` is 8.
unfoldable pub bdp_from_rtt_and_bandwidth : ℕ → ℕ → ℕ
bdp_from_rtt_and_bandwidth rtt bandwidth = signed_div (signed_div (mul64 rtt bandwidth) 8) second

unfoldable pub in_recovery : BbrSender → Bool
in_recovery b = elim b.recovery_state [ not_in_recovery ↦ false | _ ↦ true ]

unfoldable pub in_slow_start : BbrSender → Bool
in_slow_start b = is_startup b.mode

unfoldable pub probe_rtt_congestion_window : BbrSender → ℕ
probe_rtt_congestion_window b = b.min_congestion_window

unfoldable pub get_congestion_window : BbrSender → ℕ
get_congestion_window b =
    if is_probe_rtt b.mode
    then probe_rtt_congestion_window b
    else if in_recovery b
    then signed_min b.congestion_window b.recovery_window
    else b.congestion_window

unfoldable pub can_send : BbrSender → ℕ → Bool
can_send b bytes_in_flight = less bytes_in_flight (get_congestion_window b)

unfoldable pub get_min_rtt : BbrSender → ℕ → ℕ
get_min_rtt b stats_rtt =
    if not (b.min_rtt == 0) then b.min_rtt else if stats_rtt == 0 then 100000000 else stats_rtt

module _ (p : Platform) where
  unfoldable pub get_target_congestion_window : BbrSender → ℕ → Gain → ℕ
  get_target_congestion_window b stats_rtt gain =
      let bdp = bdp_from_rtt_and_bandwidth (get_min_rtt b stats_rtt) (bandwidth_estimate b) in
      let window = p.scaled gain bdp in
      signed_max (if window == 0 then p.scaled gain b.initial_congestion_window else window)
        b.min_congestion_window

  -- the method `PacingRate`
  unfoldable pub reported_pacing_rate : BbrSender → ℕ → ℕ
  reported_pacing_rate b stats_rtt =
      if b.pacing_rate == 0
      then p.rate b.startup_gain
          (bandwidth_from_delta b.initial_congestion_window (get_min_rtt b stats_rtt))
      else b.pacing_rate

  unfoldable pub bandwidth_for_pacer : BbrSender → ℕ
  bandwidth_for_pacer b =
      let bps = p.pacer_share (bandwidth_estimate b) b.congestion_window_gain in
      if less bps min_bps then min_bps else bps

  -- the branch of `calculatePacingRate` under `detectOvershooting`
  unfoldable pub slow_overshoot : BbrSender → ℕ → ℕ → ℕ → BbrSender
  slow_overshoot b stats_rtt target lost =
      let total = add64 b.bytes_lost_while_detecting_overshooting lost in
      if ltb target b.pacing_rate
        && less 0 total
        && (b.has_no_app_limited_sample
            || less b.initial_congestion_window
                (mul64 total b.bytes_lost_multiplier_while_detecting_overshooting))
      then record b {
        pacing_rate =
            max target (bandwidth_from_delta b.cwnd_to_calculate_min_pacing_rate stats_rtt);
        bytes_lost_while_detecting_overshooting = 0;
        detect_overshooting = false;
      }
      else record b { bytes_lost_while_detecting_overshooting = total }

  unfoldable pub calculate_pacing_rate : BbrSender → ℕ → ℕ → BbrSender
  calculate_pacing_rate b stats_rtt lost =
      let target = p.rate b.pacing_gain (bandwidth_estimate b) in
      if bandwidth_estimate b == 0
      then b
      else if b.is_at_full_bandwidth
      then record b { pacing_rate = target }
      else if b.pacing_rate == 0 && not (stats_rtt == 0)
      then record b { pacing_rate = bandwidth_from_delta b.initial_congestion_window stats_rtt }
      else let c = if b.detect_overshooting then slow_overshoot b stats_rtt target lost else b in
        record c { pacing_rate = max c.pacing_rate target }

  -- `calculateCongestionWindow` before the limits are enforced
  unfoldable pub grown_window : BbrSender → ℕ → ℕ → ℕ → ℕ
  grown_window b stats_rtt acked excess =
      let base = get_target_congestion_window b stats_rtt b.congestion_window_gain in
      let target =
        if b.is_at_full_bandwidth
        then add64 base (get_height b.sampler.max_ack_height_tracker)
        else if b.enable_ack_aggregation_during_startup
        then add64 base excess
        else base in
      if b.is_at_full_bandwidth
      then signed_min target (add64 b.congestion_window acked)
      else if less b.congestion_window target
          || less b.sampler.total_bytes_acked b.initial_congestion_window
      then add64 b.congestion_window acked
      else b.congestion_window

  unfoldable pub calculate_congestion_window : BbrSender → ℕ → ℕ → ℕ → BbrSender
  calculate_congestion_window b stats_rtt acked excess =
      if is_probe_rtt b.mode then b else record b {
        congestion_window =
            signed_min (signed_max (grown_window b stats_rtt acked excess) b.min_congestion_window)
              b.max_congestion_window;
      }

-- `calculateRecoveryWindow` where a window is already there
unfoldable pub next_recovery_window : BbrSender → ℕ → ℕ → ℕ
next_recovery_window b acked lost =
    let left =
      if less b.recovery_window lost then b.max_datagram_size else sub64 b.recovery_window lost in
    let grown : ℕ = elim b.recovery_state [ growth ↦ add64 left acked | _ ↦ left ] in
    signed_max b.min_congestion_window (signed_max grown (add64 b.bytes_in_flight acked))

unfoldable pub calculate_recovery_window : BbrSender → ℕ → ℕ → BbrSender
calculate_recovery_window b acked lost = if not (in_recovery b) then b else record b {
  recovery_window =
      if b.recovery_window == 0
      then signed_max b.min_congestion_window (add64 b.bytes_in_flight acked)
      else next_recovery_window b acked lost;
}
