-- ===== src/Congestion/Sender/Transitions.antt =====
-- The mode of bbr_sender.go from one call of `OnCongestionEventEx` to the next.
use outbound.Prelude.{◌==◌, if◌then◌else◌, if_holds, if_cases, negation_fails, negation_holds, ℕ}
use outbound.Prelude.{◌≡◌, refl, sym, ◌∙◌, Bool, true, false, ◌&&◌, not, arith}
use outbound.Congestion.Words.{sub64}
use outbound.Congestion.Sampler.State.{on_app_limited}
use outbound.Congestion.Sampler.Event.{CongestionEventSample}
use outbound.Congestion.Sender.Records.{BbrMode, startup, probe_bw, probe_rtt, gain_one, Platform}
use outbound.Congestion.Sender.Records.{BbrSender, is_probe_rtt}
use outbound.Congestion.Sender.Modes.{enter_startup_mode, enter_probe_bandwidth_mode}
use outbound.Congestion.Sender.Modes.{maybe_enter_probe_rtt, leave_probe_rtt}
use outbound.Congestion.Sender.Modes.{maybe_exit_startup_or_drain, stay_in_probe_rtt}
use outbound.Congestion.Sender.Modes.{maybe_enter_or_exit_probe_rtt}
use outbound.Congestion.Sender.Event.{CongestionEvent, begin_event, count_losses, sample_event}
use outbound.Congestion.Sender.Event.{cycle_gains, seek_full_bandwidth, update_modes, clean_up}
use outbound.Congestion.Sender.Event.{handle_event}
use outbound.Congestion.Sender.Keeps.{begin_event-Keeps, sample_event-Keeps, cycle_gains-Keeps}
use outbound.Congestion.Sender.Keeps.{count_losses-Keeps, update_windows-Keeps}
use outbound.Congestion.Sender.Successors.{leads_to, early, late, early-late}
use outbound.Congestion.Sender.Successors.{seek_full_bandwidth_lem, Moves, exit_drain_lem}
use mathlib.Core.Path.{subst}

late_probe_rtt : (m : BbrMode) (f : Bool) → late m probe_rtt f ≡ true
unfolding late
late_probe_rtt m f = ground arith

late_same : (m : BbrMode) (f : Bool) → late m m f ≡ true
unfolding late
late_same m f = ground arith

late_startup :
    (m : BbrMode) (f : Bool) → is_probe_rtt m ≡ true → f ≡ false → late m startup f ≡ true
unfolding late
late_startup m f h k = ground (arith, h, k)

late_probe_bw :
    (m : BbrMode) (f : Bool) → is_probe_rtt m ≡ true → f ≡ true → late m probe_bw f ≡ true
unfolding late
late_probe_bw m f h k = ground (arith, h, k)

stay_in_probe_rtt_lem :
    (p : Platform) (b : BbrSender) (draw now : ℕ) (round : Bool)
    → is_probe_rtt b.mode ≡ true
    → Moves late b (stay_in_probe_rtt p b draw now round)
unfolding stay_in_probe_rtt leave_probe_rtt enter_startup_mode enter_probe_bandwidth_mode
stay_in_probe_rtt_lem p b draw now round h =
    let same : Moves late b b = (late_same b.mode b.is_at_full_bandwidth, refl) in
    if_holds (Moves late b) (b.exit_probe_rtt_at == 0) (if_holds (Moves late b) _ same same) (
      if_holds (Moves late b) _
        (if_cases (Moves late b) (not b.is_at_full_bandwidth)
          (λ f. (
            late_startup b.mode b.is_at_full_bandwidth h (negation_holds b.is_at_full_bandwidth f),
            refl,
          ))
          (λ f. (
            late_probe_bw b.mode b.is_at_full_bandwidth h (negation_fails b.is_at_full_bandwidth f),
            refl,
          )))
        same)

-- PROBE_RTT is not left in the event that enters it: the time to leave is not known yet.
enter_probe_rtt_lem :
    (p : Platform) (b : BbrSender) (draw now : ℕ) (round : Bool)
    → b.exit_probe_rtt_at ≡ 0
    → ((stay_in_probe_rtt p b draw now round).mode ≡ b.mode)
      × ((stay_in_probe_rtt p b draw now round).is_at_full_bandwidth ≡ b.is_at_full_bandwidth)
unfolding stay_in_probe_rtt
enter_probe_rtt_lem p b draw now round h =
    let Q : BbrSender → Type 0 =
      λ c. (c.mode ≡ b.mode) × (c.is_at_full_bandwidth ≡ b.is_at_full_bandwidth) in
    if_cases Q (b.exit_probe_rtt_at == 0) (λ t. if_holds Q _ (refl, refl) (refl, refl))
      (λ t. absurd (ground (arith, h, t)))

-- `maybeEnterOrExitProbeRtt` behind the choice to enter
module _ (p : Platform) (b : BbrSender) (draw now : ℕ) (round : Bool) where
  in_probe_rtt : BbrSender → BbrSender
  in_probe_rtt c =
      if is_probe_rtt c.mode
      then stay_in_probe_rtt p (record c { sampler = on_app_limited c.sampler }) draw now round
      else c

  entered :
      (c : BbrSender)
      → c.mode ≡ probe_rtt
      → c.exit_probe_rtt_at ≡ 0
      → c.is_at_full_bandwidth ≡ b.is_at_full_bandwidth
      → Moves late b (in_probe_rtt c)
  unfolding in_probe_rtt
  entered c m z f =
      let kept =
        enter_probe_rtt_lem p (record c { sampler = on_app_limited c.sampler }) draw now round z in
      let d =
        stay_in_probe_rtt p (record c { sampler = on_app_limited c.sampler }) draw now round in
      let found : (d : BbrSender)
          → d.mode ≡ probe_rtt
          → d.is_at_full_bandwidth ≡ b.is_at_full_bandwidth
          → Moves late b d =
        λ d n g. (
          subst (λ x. late b.mode x b.is_at_full_bandwidth ≡ true) (sym n)
              (late_probe_rtt b.mode b.is_at_full_bandwidth),
          g,
        ) in
      if_holds (Moves late b) (is_probe_rtt c.mode) (found d (kept.0 ∙ m) (kept.1 ∙ f))
        (found c m f)

  maybe_enter_or_exit_probe_rtt_lem :
      (expired : Bool) → Moves late b (maybe_enter_or_exit_probe_rtt p b draw now round expired)
  unfolding maybe_enter_or_exit_probe_rtt maybe_enter_probe_rtt in_probe_rtt
  maybe_enter_or_exit_probe_rtt_lem expired =
      if_holds (λ c. Moves late b (in_probe_rtt c))
        (expired && not b.exiting_quiescence && not (is_probe_rtt b.mode))
        {x = record b { mode = probe_rtt; pacing_gain = gain_one; exit_probe_rtt_at = 0 }} {y = b}
        (entered _ refl refl refl)
        (if_cases (Moves late b) (is_probe_rtt b.mode)
          (λ h.
            stay_in_probe_rtt_lem p (record b { sampler = on_app_limited b.sampler }) draw now round
              h)
          (λ h. (late_same b.mode b.is_at_full_bandwidth, refl)))

composed :
    (m m1 m2 m3 m4 : BbrMode) (f f1 f2 f3 f4 : Bool)
    → (m1 ≡ m) × (f1 ≡ f)
    → (m2 ≡ m1) × (f1 ≡ true → f2 ≡ true)
    → (early m2 m3 f2 ≡ true) × (f3 ≡ f2)
    → (late m3 m4 f3 ≡ true) × (f4 ≡ f3)
    → (leads_to m m4 f4 ≡ true) × (f ≡ true → f4 ≡ true)
composed m m1 m2 m3 m4 f f1 f2 f3 f4 (a, a') (b, b') (c, c') (d, d') =
    let early' : early m m3 f4 ≡ true = cc in
    let late' : late m3 m4 f4 ≡ true = cc in
    (early-late m m3 m4 f4 early' late', λ h. d' ∙ c' ∙ b' (a' ∙ h))

framed :
    (m m1 m2 m3 : BbrMode) (f f1 f2 f3 : Bool)
    → (m1 ≡ m) × (f1 ≡ f)
    → (leads_to m1 m2 f2 ≡ true) × (f1 ≡ true → f2 ≡ true)
    → (m3 ≡ m2) × (f3 ≡ f2)
    → (leads_to m m3 f3 ≡ true) × (f ≡ true → f3 ≡ true)
framed m m1 m2 m3 f f1 f2 f3 (a, a') (b, b') (c, c') = (cc, λ h. c' ∙ b' (a' ∙ h))

-- the modes of a whole event
module _ (p : Platform) (b : BbrSender) (e : CongestionEvent) where
  update_modes_lem :
      (s : CongestionEventSample) (lost : ℕ) (round expired : Bool)
      → let c = update_modes p b e s lost round expired in
        (leads_to b.mode c.mode c.is_at_full_bandwidth ≡ true)
        × (b.is_at_full_bandwidth ≡ true → c.is_at_full_bandwidth ≡ true)
  unfolding update_modes
  update_modes_lem s lost round expired =
      let m = b.mode in
      let f = b.is_at_full_bandwidth in
      let c1 = cycle_gains p (count_losses b e lost) e in
      let k1 =
        cycle_gains-Keeps m f p (count_losses b e lost) e
          (count_losses-Keeps m f b e lost (refl, refl)) in
      let c2 = seek_full_bandwidth p c1 s round in
      let k2 = seek_full_bandwidth_lem p c1 s round in
      let c3 = maybe_exit_startup_or_drain p c2 e.stats_rtt e.draw e.event_time in
      composed m c1.mode c2.mode c3.mode _ f c1.is_at_full_bandwidth c2.is_at_full_bandwidth
        c3.is_at_full_bandwidth _ k1 k2 (exit_drain_lem p c2 e.stats_rtt e.draw e.event_time)
        (maybe_enter_or_exit_probe_rtt_lem p c3 e.draw e.event_time round expired)

module _ (p : Platform) (b : BbrSender) (e : CongestionEvent) where
  -- One call of `OnCongestionEventEx` leads from a mode only to those of the table `leads_to`: STARTUP
  -- lasts as long as the full bandwidth is not reached and is left for DRAIN, or PROBE_BW at once; DRAIN
  -- goes to PROBE_BW; every mode can go to PROBE_RTT, which goes back to STARTUP before the full
  -- bandwidth is reached and to PROBE_BW from then on. The full bandwidth once reached stays so, and
  -- the sender is in STARTUP only if it is not.
  pub mode_transitions :
      let c = handle_event p b e in
      (leads_to b.mode c.mode c.is_at_full_bandwidth ≡ true)
      × (b.is_at_full_bandwidth ≡ true → c.is_at_full_bandwidth ≡ true)
  unfolding handle_event clean_up
  mode_transitions =
      let (c, round) = begin_event b e in
      let (d, s, expired) = sample_event p c e in
      let lost = sub64 d.sampler.total_bytes_lost b.sampler.total_bytes_lost in
      let acked = sub64 d.sampler.total_bytes_acked b.sampler.total_bytes_acked in
      let f = update_modes p d e s lost round expired in
      let before =
        sample_event-Keeps b.mode b.is_at_full_bandwidth p c e
          (begin_event-Keeps b.mode b.is_at_full_bandwidth b e (refl, refl)) in
      let behind =
        update_windows-Keeps f.mode f.is_at_full_bandwidth p f e s acked lost (refl, refl) in
      framed b.mode d.mode f.mode _ b.is_at_full_bandwidth d.is_at_full_bandwidth
        f.is_at_full_bandwidth _ before (update_modes_lem p d e s lost round expired) behind
