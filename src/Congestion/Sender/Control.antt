-- ===== src/Congestion/Sender/Control.antt =====
-- The control variables of bbr_sender.go: which gains belong to which mode, through every part of
-- `OnCongestionEventEx`.
use outbound.Prelude.{if_holds, if_cases, negation_fails, ℕ, ◌<◌, ◌≡◌, refl, Bool, true, false}
use outbound.Prelude.{not, arith}
use outbound.Congestion.Words.{less}
use outbound.Congestion.Sampler.Event.{CongestionEventSample}
use outbound.Congestion.Sender.Records.{BbrMode, startup, drain, probe_bw, probe_rtt}
use outbound.Congestion.Sender.Records.{BbrRecoveryState, not_in_recovery, conservation, growth}
use outbound.Congestion.Sender.Records.{Gain, high_gain, low_gain, gain_one, gain_two}
use outbound.Congestion.Sender.Records.{pacing_gain_at, Platform, BbrSender}
use outbound.Congestion.Sender.Windows.{get_congestion_window}
use outbound.Congestion.Sender.Modes.{enter_startup_mode, drawn_offset}
use outbound.Congestion.Sender.Modes.{enter_probe_bandwidth_mode, ends_round}
use outbound.Congestion.Sender.Modes.{update_round_trip_counter, advance_recovery}
use outbound.Congestion.Sender.Modes.{update_recovery_state, maybe_update_min_rtt}
use outbound.Congestion.Sender.Modes.{maybe_applimited}
use outbound.Congestion.Sender.Event.{CongestionEvent, is_none_left, has_losses, begin_event}
use outbound.Congestion.Sender.Event.{apply_sample, sample_event}

-- What a mode says about the pacing gain, the offset in the gain cycle and the full bandwidth.
abbrev pub Matches : BbrMode → Gain → ℕ → Bool → Type 0
Matches startup gain offset full = gain ≡ high_gain
Matches drain gain offset full = (gain ≡ low_gain) × (full ≡ true)
Matches probe_bw gain offset full = (gain ≡ pacing_gain_at offset) × (full ≡ true)
Matches probe_rtt gain offset full = gain ≡ gain_one

abbrev pub Recovers : BbrRecoveryState → Bool → Type 0
Recovers not_in_recovery full = Unit {0}
Recovers _ full = full ≡ true

-- the gains and flags that no call changes
abbrev pub Constants : BbrSender → Type 0
Constants b =
    (b.startup_gain ≡ high_gain)
    × (b.high_cwnd_gain ≡ gain_two)
    × (b.drain_gain ≡ low_gain)
    × (b.congestion_window_gain_constant ≡ gain_two)
    × (b.congestion_window_gain ≡ gain_two)
    × (b.drain_to_target ≡ false)
    × (b.detect_overshooting ≡ false)

abbrev pub IsControlled : BbrSender → Type 0
IsControlled b =
    Constants b
    × (b.cycle_current_offset < 8)
    × Matches b.mode b.pacing_gain b.cycle_current_offset b.is_at_full_bandwidth
    × Recovers b.recovery_state b.is_at_full_bandwidth

-- The sender has not seen the full bandwidth while it is in STARTUP; this holds between the calls.
abbrev pub Starts : BbrMode → Bool → Type 0
Starts startup full = full ≡ false
Starts _ full = Unit {0}

drawn_offset_lt : (draw : ℕ) → drawn_offset draw < 8
unfolding drawn_offset
drawn_offset_lt draw = ground arith

pub Matches-full :
    (m : BbrMode) (g : Gain) (o : ℕ) (f : Bool) → Matches m g o f → Matches m g o true
Matches-full startup g o f h = h
Matches-full drain g o f h = (h.0, refl)
Matches-full probe_bw g o f h = (h.0, refl)
Matches-full probe_rtt g o f h = h

pub Recovers-full : (r : BbrRecoveryState) (f : Bool) → Recovers r f → Recovers r true
Recovers-full not_in_recovery f h = tt
Recovers-full conservation f h = refl
Recovers-full growth f h = refl

full-Recovers : (r : BbrRecoveryState) (f : Bool) → f ≡ true → Recovers r f
full-Recovers not_in_recovery f h = tt
full-Recovers conservation f h = h
full-Recovers growth f h = h

pub enter_startup_mode-IsControlled :
    (b : BbrSender) → IsControlled b → IsControlled (enter_startup_mode b)
unfolding enter_startup_mode
enter_startup_mode-IsControlled b ((s, c, d, k, g, t, o), n, m, r) =
    ((s, c, d, k, c, t, o), n, s, r)

pub enter_probe_bandwidth_mode-IsControlled :
    (b : BbrSender) (draw now : ℕ)
    → b.is_at_full_bandwidth ≡ true
    → IsControlled b
    → IsControlled (enter_probe_bandwidth_mode b draw now)
unfolding enter_probe_bandwidth_mode
enter_probe_bandwidth_mode-IsControlled b draw now f ((s, c, d, k, g, t, o), n, m, r) =
    ((s, c, d, k, k, t, o), drawn_offset_lt draw, (refl, f), r)

maybe_applimited-IsControlled :
    (b : BbrSender) (n : ℕ) → IsControlled b → IsControlled (maybe_applimited b n)
unfolding maybe_applimited
maybe_applimited-IsControlled b n h =
    if_holds IsControlled (not (less n (get_congestion_window b))) h (if_holds IsControlled _ h h)

pub recovery_holds :
    (Q : BbrSender → Type 0) (r : BbrRecoveryState) {x y z : BbrSender}
    → Q x
    → Q y
    → Q z
    → Q (elim r [ not_in_recovery ↦ x | conservation ↦ y | growth ↦ z ])
recovery_holds Q not_in_recovery h k l = h
recovery_holds Q conservation h k l = k
recovery_holds Q growth h k l = l

advance_recovery-IsControlled :
    (b : BbrSender) (n : ℕ) (losses round : Bool)
    → b.is_at_full_bandwidth ≡ true
    → IsControlled b
    → IsControlled (advance_recovery b n losses round)
unfolding advance_recovery
advance_recovery-IsControlled b n losses round f (c, o, m, r) =
    recovery_holds IsControlled b.recovery_state
      (if_holds IsControlled losses (c, o, m, f) (c, o, m, r))
      (c, o, m, full-Recovers _ b.is_at_full_bandwidth f)
      (c, o, m, full-Recovers _ b.is_at_full_bandwidth f)

update_recovery_state-IsControlled :
    (b : BbrSender) (n : ℕ) (losses round : Bool)
    → IsControlled b
    → IsControlled (update_recovery_state b n losses round)
unfolding update_recovery_state
update_recovery_state-IsControlled b n losses round h =
    if_cases IsControlled (not b.is_at_full_bandwidth) (λ f. h)
      (λ f.
        advance_recovery-IsControlled _ n losses round (negation_fails b.is_at_full_bandwidth f) h)

pub begin_event-IsControlled :
    (b : BbrSender) (e : CongestionEvent) → IsControlled b → IsControlled (begin_event b e).0
unfolding begin_event update_round_trip_counter
begin_event-IsControlled b e h =
    let c = maybe_applimited-IsControlled b e.prior_in_flight h in
    if_holds {A = BbrSender × Bool} (λ x. IsControlled x.0) (is_none_left e.acked) c
      (update_recovery_state-IsControlled _ _ (has_losses e) _
        (if_holds {A = BbrSender × Bool} (λ x. IsControlled x.0) (ends_round _ _) c c))

pub sample_event-IsControlled :
    (p : Platform) (b : BbrSender) (e : CongestionEvent)
    → IsControlled b
    → IsControlled (sample_event p b e).0
unfolding sample_event apply_sample maybe_update_min_rtt
sample_event-IsControlled p b e h =
    if_holds {A = BbrSender × CongestionEventSample × Bool} (λ x. IsControlled x.0) _ h
      (if_holds IsControlled _ h h)
