-- ===== src/Congestion/Sender/ProbeRtt.antt =====
-- What `maybeEnterOrExitProbeRtt` of bbr_sender.go does in PROBE_RTT.
use outbound.Prelude.{◌==◌, if◌then◌else◌, if_holds, if_cases, ℕ, ◌≡◌, refl, sym, ap, ◌∙◌, Bool}
use outbound.Prelude.{true, false, ◌&&◌, not, arith}
use outbound.Congestion.Words.{add64, less, sub_time, add_time}
use outbound.Congestion.Sampler.State.{on_app_limited}
use outbound.Congestion.Sampler.Event.{last_number}
use outbound.Congestion.Sender.Records.{BbrMode, gain_one, probe_rtt_time, Platform, BbrSender}
use outbound.Congestion.Sender.Records.{is_startup, is_drain, is_probe_rtt}
use outbound.Congestion.Sender.Windows.{probe_rtt_congestion_window, get_target_congestion_window}
use outbound.Congestion.Sender.Modes.{enter_startup_mode, enter_probe_bandwidth_mode, ends_round}
use outbound.Congestion.Sender.Modes.{update_round_trip_counter, maybe_applimited, start_drain}
use outbound.Congestion.Sender.Modes.{maybe_enter_probe_rtt, leave_probe_rtt, finish_drain}
use outbound.Congestion.Sender.Modes.{maybe_exit_startup_or_drain, stay_in_probe_rtt}
use outbound.Congestion.Sender.Modes.{maybe_enter_or_exit_probe_rtt}
use outbound.Congestion.Sender.Event.{CongestionEvent, numbers, is_none_left, has_losses}
use outbound.Congestion.Sender.Event.{subtract_all, begin_event}
use outbound.Congestion.Sender.Sees.{Sees, maybe_applimited-Sees, update_recovery_state-Sees}
use mathlib.Core.Path.{subst}

-- the bytes in flight after the event
abbrev pub left_in_flight : CongestionEvent → ℕ
left_in_flight e = subtract_all (subtract_all e.prior_in_flight e.acked) e.lost

-- The sender is in PROBE_RTT, with these values.
abbrev pub Probes : ℕ → ℕ → ℕ → BbrMode → ℕ → ℕ → ℕ → ℕ → Type 0
Probes exit in_flight least m x i l r =
    (is_probe_rtt m ≡ true) × (x ≡ exit) × (i ≡ in_flight) × (l ≡ least)

pub begin_event-Probes :
    (b : BbrSender) (e : CongestionEvent)
    → is_probe_rtt b.mode ≡ true
    → Sees
        (Probes b.exit_probe_rtt_at (left_in_flight e) b.min_congestion_window)
        (begin_event b e).0
unfolding begin_event update_round_trip_counter
begin_event-Probes b e m =
    let Q = Probes b.exit_probe_rtt_at (left_in_flight e) b.min_congestion_window in
    let c : BbrSender = record (maybe_applimited b e.prior_in_flight) {
      bytes_in_flight = left_in_flight e;
    } in
    let h : Sees Q c =
      maybe_applimited-Sees (λ m x i l r. Q m x (left_in_flight e) l r) b e.prior_in_flight
        (m, refl, refl, refl) in
    let d : BbrSender × Bool = update_round_trip_counter c (last_number (numbers e.acked)) in
    let k : Sees Q d.0 =
      if_holds {A = BbrSender × Bool} (λ x. Sees Q x.0)
        (ends_round c (last_number (numbers e.acked))) h h in
    if_holds {A = BbrSender × Bool} (λ x. Sees Q x.0) (is_none_left e.acked) h
      (update_recovery_state-Sees Q d.0 (last_number (numbers e.acked)) (has_losses e) d.1 k k)

not_startup : (m : BbrMode) (f : Bool) → is_probe_rtt m ≡ true → (is_startup m && f) ≡ false
not_startup m f h = ground (arith, h)

not_drain : (m : BbrMode) (t : Bool) → is_probe_rtt m ≡ true → (is_drain m && t) ≡ false
not_drain m t h = ground (arith, h)

-- PROBE_RTT is no part of what leads out of STARTUP and DRAIN.
pub exit_drain-Probes :
    (p : Platform) (b : BbrSender) (stats_rtt draw now : ℕ)
    → is_probe_rtt b.mode ≡ true
    → maybe_exit_startup_or_drain p b stats_rtt draw now ≡ b
unfolding maybe_exit_startup_or_drain start_drain finish_drain
exit_drain-Probes p b stats_rtt draw now m =
    let started : start_drain b ≡ b =
      if_cases (λ c. c ≡ b) (is_startup b.mode && b.is_at_full_bandwidth)
        (λ t. absurd (ground (arith, t, not_startup b.mode b.is_at_full_bandwidth m)))
        (λ t. refl) in
    let late = not (less (get_target_congestion_window p b stats_rtt gain_one) b.bytes_in_flight) in
    let finished : finish_drain p b stats_rtt draw now ≡ b =
      if_cases (λ c. c ≡ b) (is_drain b.mode && late)
        (λ t. absurd (ground (arith, t, not_drain b.mode late m))) (λ t. refl) in
    ap (λ c. finish_drain p c stats_rtt draw now) started ∙ finished

enters_not :
    (e q : Bool) (m : BbrMode)
    → is_probe_rtt m ≡ true
    → (e && not q && not (is_probe_rtt m)) ≡ false
enters_not e q m h = ground (arith, h)

enter-Probes :
    (b : BbrSender) (expired : Bool)
    → is_probe_rtt b.mode ≡ true
    → maybe_enter_probe_rtt b expired ≡ b
unfolding maybe_enter_probe_rtt
enter-Probes b expired m =
    if_cases (λ c. c ≡ b) (expired && not b.exiting_quiescence && not (is_probe_rtt b.mode))
      (λ t. absurd (ground (arith, t, enters_not expired b.exiting_quiescence b.mode m)))
      (λ t. refl)

-- the state in which `maybeEnterOrExitProbeRtt` looks at the time
abbrev limited_probe : BbrSender → BbrSender
limited_probe b = record b { sampler = on_app_limited b.sampler }

module _ (p : Platform) (b : BbrSender) (draw now : ℕ) (round expired : Bool) where
  abbrev pub probed : BbrSender
  probed = maybe_enter_or_exit_probe_rtt p b draw now round expired

  probed_lem :
      (Q : BbrSender → Type 0)
      → is_probe_rtt b.mode ≡ true
      → Q (record (stay_in_probe_rtt p (limited_probe b) draw now round) {
        exiting_quiescence = false;
      })
      → Q probed
  unfolding maybe_enter_or_exit_probe_rtt
  probed_lem Q m h =
      let f : BbrSender → Type 0 = λ c.
        Q
          (record (if is_probe_rtt c.mode
            then stay_in_probe_rtt p (limited_probe c) draw now round
            else c) { exiting_quiescence = false }) in
      subst f (sym (enter-Probes b expired m)) (
        if_cases (λ d. Q (record d { exiting_quiescence = false })) (is_probe_rtt b.mode) (λ t. h)
          (λ t. absurd (ground (arith, m, t))))

  pub schedules_lem :
      is_probe_rtt b.mode ≡ true
      → b.exit_probe_rtt_at ≡ 0
      → less b.bytes_in_flight (add64 b.min_congestion_window p.max_packet_buffer_size) ≡ true
      → (is_probe_rtt probed.mode ≡ true) × (probed.exit_probe_rtt_at ≡ add_time now probe_rtt_time)
  unfolding stay_in_probe_rtt probe_rtt_congestion_window
  schedules_lem m z small =
      let Q : BbrSender → Type 0 =
        λ c. (is_probe_rtt c.mode ≡ true) × (c.exit_probe_rtt_at ≡ add_time now probe_rtt_time) in
      probed_lem Q m (
        if_cases (λ c. Q (record c { exiting_quiescence = false })) (b.exit_probe_rtt_at == 0)
          (λ t.
            if_cases (λ c. Q (record c { exiting_quiescence = false }))
              (less b.bytes_in_flight (add64 b.min_congestion_window p.max_packet_buffer_size))
              (λ u. (m, refl)) (λ u. absurd (ground (arith, small, u))))
          (λ t. absurd (ground (arith, z, t))))

  pub leaves_lem :
      is_probe_rtt b.mode ≡ true
      → (b.exit_probe_rtt_at == 0) ≡ false
      → less (sub_time now b.exit_probe_rtt_at) 0 ≡ false
      → round ≡ true
      → is_probe_rtt probed.mode ≡ false
  unfolding stay_in_probe_rtt leave_probe_rtt enter_startup_mode enter_probe_bandwidth_mode
  leaves_lem m known due begun =
      let Q : BbrSender → Type 0 = λ c. is_probe_rtt c.mode ≡ false in
      let passed = if round then true else b.probe_rtt_round_passed in
      probed_lem Q m (
        if_cases Q (b.exit_probe_rtt_at == 0) (λ t. absurd (ground (arith, t, known)))
          (λ t.
            if_cases Q (not (less (sub_time now b.exit_probe_rtt_at) 0) && passed)
              (λ u. if_holds Q (not b.is_at_full_bandwidth) refl refl)
              (λ u. absurd (ground (arith, u, due, begun)))))

  -- The time to leave stays as long as the mode does.
  pub waits_lem :
      is_probe_rtt b.mode ≡ true
      → (b.exit_probe_rtt_at == 0) ≡ false
      → is_probe_rtt probed.mode ≡ true
      → probed.exit_probe_rtt_at ≡ b.exit_probe_rtt_at
  unfolding stay_in_probe_rtt leave_probe_rtt enter_startup_mode enter_probe_bandwidth_mode
  waits_lem m known =
      let Q : BbrSender → Type 0 =
        λ c. is_probe_rtt c.mode ≡ true → c.exit_probe_rtt_at ≡ b.exit_probe_rtt_at in
      let Q' : BbrSender → Type 0 = λ c. Q (record c { exiting_quiescence = false }) in
      let passed = if round then true else b.probe_rtt_round_passed in
      probed_lem Q m (
        if_cases Q' (b.exit_probe_rtt_at == 0) (λ t. absurd (ground (arith, t, known)))
          (λ t.
            if_holds Q' (not (less (sub_time now b.exit_probe_rtt_at) 0) && passed)
              (if_holds Q' (not b.is_at_full_bandwidth) (λ w. absurd (ground (arith, w)))
                (λ w. absurd (ground (arith, w))))
              (λ w. refl)))

-- PROBE_RTT leaves the end of the round trip.
module _ (Q : ℕ → Type 0) (p : Platform) (draw now : ℕ) (round : Bool) where
  abbrev pub Rounds : BbrSender → Type 0
  Rounds b = Q b.current_round_trip_end

  stay_in_probe_rtt-Rounds :
      (b : BbrSender) → Rounds b → Rounds (stay_in_probe_rtt p b draw now round)
  unfolding stay_in_probe_rtt leave_probe_rtt enter_startup_mode enter_probe_bandwidth_mode
  stay_in_probe_rtt-Rounds b h =
      if_holds Rounds (b.exit_probe_rtt_at == 0) (if_holds Rounds _ h h)
        (if_holds Rounds _ (if_holds Rounds (not b.is_at_full_bandwidth) h h) h)

  pub maybe_enter_or_exit_probe_rtt-Rounds :
      (b : BbrSender) (expired : Bool)
      → Rounds b
      → Rounds (maybe_enter_or_exit_probe_rtt p b draw now round expired)
  unfolding maybe_enter_or_exit_probe_rtt maybe_enter_probe_rtt
  maybe_enter_or_exit_probe_rtt-Rounds b expired h =
      let k =
        if_holds Rounds (expired && not b.exiting_quiescence && not (is_probe_rtt b.mode)) h h in
      if_holds Rounds _ (stay_in_probe_rtt-Rounds _ k) k
