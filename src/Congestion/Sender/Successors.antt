-- ===== src/Congestion/Sender/Successors.antt =====
-- The modes of bbr_sender.go that follow each other, and the parts of an event that lead out of STARTUP
-- and DRAIN.
use outbound.Prelude.{if_holds, if_cases, both_true, ℕ, ◌≡◌, refl, Bool, true, false, ◌&&◌, not}
use outbound.Prelude.{arith}
use outbound.Congestion.Words.{less}
use outbound.Congestion.Sampler.Event.{CongestionEventSample}
use outbound.Congestion.Sender.Records.{BbrMode, startup, drain, probe_bw, probe_rtt, gain_one}
use outbound.Congestion.Sender.Records.{Platform, BbrSender, is_startup, is_drain, is_probe_rtt}
use outbound.Congestion.Sender.Windows.{get_target_congestion_window}
use outbound.Congestion.Sender.Modes.{enter_probe_bandwidth_mode, start_drain}
use outbound.Congestion.Sender.Modes.{has_bandwidth_growth, check_if_full_bandwidth_reached}
use outbound.Congestion.Sender.Modes.{finish_drain, maybe_exit_startup_or_drain}
use outbound.Congestion.Sender.Event.{seek_full_bandwidth}

-- The modes that one event leads to, by whether the full bandwidth is reached after it.
abbrev pub leads_to : BbrMode → BbrMode → Bool → Bool
leads_to startup startup full = not full
leads_to startup drain full = full
leads_to startup probe_bw full = full
leads_to drain drain full = true
leads_to drain probe_bw full = true
leads_to probe_bw probe_bw full = true
leads_to probe_rtt startup full = not full
leads_to probe_rtt probe_bw full = full
leads_to _ probe_rtt full = true
leads_to _ _ full = false

-- without PROBE_RTT
unfoldable pub early : BbrMode → BbrMode → Bool → Bool
early probe_rtt m full = is_probe_rtt m
early m probe_rtt full = false
early m m' full = leads_to m m' full

-- by PROBE_RTT
unfoldable pub late : BbrMode → BbrMode → Bool → Bool
late probe_rtt m full = leads_to probe_rtt m full
late startup startup full = true
late drain drain full = true
late probe_bw probe_bw full = true
late m m' full = is_probe_rtt m'

pub early-late :
    (m l r : BbrMode) (f : Bool) → early m l f ≡ true → late l r f ≡ true → leads_to m r f ≡ true
unfolding early late
early-late m l r f h k = ground (arith, h, k)

-- The mode stays and a full bandwidth stays reached.
pub seek_full_bandwidth_lem :
    (p : Platform) (b : BbrSender) (s : CongestionEventSample) (round : Bool)
    → ((seek_full_bandwidth p b s round).mode ≡ b.mode)
      × (b.is_at_full_bandwidth ≡ true
          → (seek_full_bandwidth p b s round).is_at_full_bandwidth ≡ true)
unfolding seek_full_bandwidth check_if_full_bandwidth_reached
seek_full_bandwidth_lem p b s round =
    let Q : BbrSender → Type 0 =
      λ c. (c.mode ≡ b.mode) × (b.is_at_full_bandwidth ≡ true → c.is_at_full_bandwidth ≡ true) in
    if_holds Q (round && not b.is_at_full_bandwidth)
      (if_holds Q b.last_sample_is_app_limited (refl, λ h. h)
        (if_holds Q (has_bandwidth_growth p b) (refl, λ h. h)
          (refl, λ h. if_holds (λ f. f ≡ true) _ refl h)))
      (refl, λ h. h)

-- How a part that changes the mode changes it.
abbrev pub Moves : (BbrMode → BbrMode → Bool → Bool) → BbrSender → BbrSender → Type 0
Moves table b c =
    (table b.mode c.mode b.is_at_full_bandwidth ≡ true)
    × (c.is_at_full_bandwidth ≡ b.is_at_full_bandwidth)

early_start : (m : BbrMode) (f : Bool) → (is_startup m && f) ≡ false → early m m f ≡ true
unfolding early
early_start m f h = ground (arith, h)

early_drain : (m : BbrMode) (f : Bool) → (is_startup m && f) ≡ true → early m drain f ≡ true
unfolding early
early_drain m f h = ground (arith, h)

early_probe :
    (m l : BbrMode) (f : Bool) → early m l f ≡ true → is_drain l ≡ true → early m probe_bw f ≡ true
unfolding early
early_probe m l f h k = ground (arith, h, k)

pub exit_drain_lem :
    (p : Platform) (b : BbrSender) (stats_rtt draw now : ℕ)
    → Moves early b (maybe_exit_startup_or_drain p b stats_rtt draw now)
unfolding maybe_exit_startup_or_drain start_drain finish_drain enter_probe_bandwidth_mode
exit_drain_lem p b stats_rtt draw now =
    let c = start_drain b in
    let started : Moves early b c =
      if_cases (Moves early b) (is_startup b.mode && b.is_at_full_bandwidth)
        (λ h. (early_drain b.mode b.is_at_full_bandwidth h, refl))
        (λ h. (early_start b.mode b.is_at_full_bandwidth h, refl)) in
    if_cases (Moves early b)
      (is_drain c.mode
        && not (less (get_target_congestion_window p c stats_rtt gain_one) c.bytes_in_flight))
      (λ h. (
        early_probe b.mode c.mode b.is_at_full_bandwidth started.0
            (both_true (is_drain c.mode) _ h).0,
        started.1,
      ))
      (λ h. started)
