-- ===== src/Congestion/Sender/ProbeRttEnd.antt =====
-- PROBE_RTT of bbr_sender.go comes to an end.
use outbound.Prelude.{ltb, ◌==◌, if_holds, if_cases, ℕ, ◌+◌, ◌≤◌, ◌<◌, ◌≡◌, refl, sym, ap}
use outbound.Prelude.{ap₂, ◌∙◌, Bool, true, false, ◌||◌, not, arith}
use outbound.Congestion.Words.{add64, sub64, less, sub_time, add_time, IsSmall}
use outbound.Congestion.Sampler.State.{on_app_limited}
use outbound.Congestion.Sampler.Event.{CongestionEventSample, last_number}
use outbound.Congestion.Sender.Records.{BbrMode, probe_rtt_time, Platform, BbrSender}
use outbound.Congestion.Sender.Records.{is_probe_rtt}
use outbound.Congestion.Sender.Windows.{get_congestion_window}
use outbound.Congestion.Sender.Modes.{ends_round, update_round_trip_counter, maybe_applimited}
use outbound.Congestion.Sender.Event.{CongestionEvent, numbers, is_none_left, begin_event}
use outbound.Congestion.Sender.Event.{count_losses, sample_event, cycle_gains}
use outbound.Congestion.Sender.Event.{seek_full_bandwidth, update_modes, clean_up, handle_event}
use outbound.Congestion.Sender.Sees.{Sees, sample_event-Sees, count_losses-Sees, cycle_gains-Sees}
use outbound.Congestion.Sender.Sees.{seek_full_bandwidth-Sees, update_windows-Sees}
use outbound.Congestion.Sender.ProbeRtt.{left_in_flight, Probes, begin_event-Probes}
use outbound.Congestion.Sender.ProbeRtt.{exit_drain-Probes, probed, schedules_lem, leaves_lem}
use outbound.Congestion.Sender.ProbeRtt.{waits_lem, maybe_enter_or_exit_probe_rtt-Rounds}
use mathlib.Core.Path.{subst}

module _ (p : Platform) (b : BbrSender) (e : CongestionEvent) where
  -- the state that decides on PROBE_RTT, and what comes of it
  abbrev begun : BbrSender × Bool
  begun = begin_event b e

  abbrev counted : BbrSender × CongestionEventSample × Bool
  counted = sample_event p begun.0 e

  abbrev lost_bytes : ℕ
  lost_bytes = sub64 counted.0.sampler.total_bytes_lost b.sampler.total_bytes_lost

  abbrev judged : BbrSender
  judged =
      seek_full_bandwidth p (cycle_gains p (count_losses counted.0 e lost_bytes) e) counted.1
        begun.1

  judged-Probes :
      is_probe_rtt b.mode ≡ true
      → Sees (Probes b.exit_probe_rtt_at (left_in_flight e) b.min_congestion_window) judged
  judged-Probes m =
      let Q = Probes b.exit_probe_rtt_at (left_in_flight e) b.min_congestion_window in
      seek_full_bandwidth-Sees Q p _
        (cycle_gains-Sees Q p _
          (count_losses-Sees Q p counted.0
            (sample_event-Sees Q p begun.0 e (begin_event-Probes b e m)) e lost_bytes)
          e)
        counted.1 begun.1

  handled_lem :
      (Q : BbrMode → ℕ → ℕ → ℕ → ℕ → Type 0)
      → is_probe_rtt b.mode ≡ true
      → Sees Q (probed p judged e.draw e.event_time begun.1 counted.2)
      → Sees Q (handle_event p b e)
  unfolding handle_event clean_up update_modes
  handled_lem Q m h =
      let acked = sub64 counted.0.sampler.total_bytes_acked b.sampler.total_bytes_acked in
      let same = exit_drain-Probes p judged e.stats_rtt e.draw e.event_time (judged-Probes m).0 in
      update_windows-Sees Q p _ e counted.1 acked lost_bytes
        (subst (λ c. Sees Q (probed p c e.draw e.event_time begun.1 counted.2)) (sym same) h)

  -- the time to leave is set
  schedules :
      is_probe_rtt b.mode ≡ true
      → b.exit_probe_rtt_at ≡ 0
      → less (left_in_flight e) (add64 b.min_congestion_window p.max_packet_buffer_size) ≡ true
      → let c = handle_event p b e in
        (is_probe_rtt c.mode ≡ true) × (c.exit_probe_rtt_at ≡ add_time e.event_time probe_rtt_time)
  schedules m z small =
      let (k, x, i, l) = judged-Probes m in
      handled_lem
        (λ m x i l r. (is_probe_rtt m ≡ true) × (x ≡ add_time e.event_time probe_rtt_time)) m
        (schedules_lem p judged e.draw e.event_time begun.1 counted.2 k (x ∙ z)
          (ap₂ (λ i l. less i (add64 l p.max_packet_buffer_size)) i l ∙ small))

  -- the time has come
  leaves :
      is_probe_rtt b.mode ≡ true
      → (b.exit_probe_rtt_at == 0) ≡ false
      → less (sub_time e.event_time b.exit_probe_rtt_at) 0 ≡ false
      → begun.1 ≡ true
      → is_probe_rtt (handle_event p b e).mode ≡ false
  leaves m known due begins =
      let (k, x, i, l) = judged-Probes m in
      handled_lem (λ m x i l r. is_probe_rtt m ≡ false) m
        (leaves_lem p judged e.draw e.event_time begun.1 counted.2 k (ap (λ x. x == 0) x ∙ known)
          (ap (λ x. less (sub_time e.event_time x) 0) x ∙ due) begins)

  waits :
      is_probe_rtt b.mode ≡ true
      → (b.exit_probe_rtt_at == 0) ≡ false
      → is_probe_rtt (handle_event p b e).mode ≡ true
      → (handle_event p b e).exit_probe_rtt_at ≡ b.exit_probe_rtt_at
  waits m known =
      let (k, x, i, l) = judged-Probes m in
      handled_lem (λ m x i l r. is_probe_rtt m ≡ true → x ≡ b.exit_probe_rtt_at) m
        (λ stays.
          waits_lem p judged e.draw e.event_time begun.1 counted.2 k (ap (λ x. x == 0) x ∙ known)
            stays
          ∙ x)

-- In PROBE_RTT the round trip ends where `begin_event` left its end.
pub handle_event-round :
    (p : Platform) (b : BbrSender) (e : CongestionEvent)
    → is_probe_rtt b.mode ≡ true
    → (handle_event p b e).current_round_trip_end ≡ (begin_event b e).0.current_round_trip_end
handle_event-round p b e m =
    let Q : ℕ → Type 0 = λ r. r ≡ (begun p b e).0.current_round_trip_end in
    let S : BbrMode → ℕ → ℕ → ℕ → ℕ → Type 0 = λ m x i l r. Q r in
    let counted_kept = sample_event-Sees S p (begun p b e).0 e refl in
    let judged_kept =
      seek_full_bandwidth-Sees S p _
        (cycle_gains-Sees S p _
          (count_losses-Sees S p (counted p b e).0 counted_kept e (lost_bytes p b e)) e)
        (counted p b e).1 (begun p b e).1 in
    handled_lem p b e S m (
      maybe_enter_or_exit_probe_rtt-Rounds Q p e.draw e.event_time (begun p b e).1 (judged p b e)
        (counted p b e).2 judged_kept)

maybe_applimited-round :
    (b : BbrSender) (n : ℕ)
    → (maybe_applimited b n).current_round_trip_end ≡ b.current_round_trip_end
unfolding maybe_applimited
maybe_applimited-round b n =
    let Q : BbrSender → Type 0 = λ c. c.current_round_trip_end ≡ b.current_round_trip_end in
    let c : BbrSender = record b { sampler = on_app_limited b.sampler } in
    if_holds Q (not (less n (get_congestion_window b))) {x = b} refl
      (if_holds Q _ {x = c} {y = b} refl refl)

-- An acknowledgement of a packet that was sent in the present round trip begins the next one.
round_begins :
    (b : BbrSender) (e : CongestionEvent)
    → is_none_left e.acked ≡ false
    → b.current_round_trip_end < last_number (numbers e.acked)
    → (begin_event b e).1 ≡ true
unfolding begin_event update_round_trip_counter ends_round
round_begins b e acks new =
    let last = last_number (numbers e.acked) in
    let end = (maybe_applimited b e.prior_in_flight).current_round_trip_end in
    if_cases {A = BbrSender × Bool} (λ x. x.1 ≡ true) (is_none_left e.acked)
      (λ t. absurd (ground (arith, t, acks)))
      (λ t.
        if_cases {A = BbrSender × Bool} (λ x. x.1 ≡ true) (end == 0 || ltb end last) (λ u. refl)
          (λ u. absurd (ground (arith, u, new, maybe_applimited-round b e.prior_in_flight))))

due : (now t : ℕ) → t ≤ now → IsSmall now → less (sub_time now t) 0 ≡ false
due now t h k = ground (arith, h, k)

-- Events in which the sender stays in PROBE_RTT lead from one state to another.
pub data StaysInProbeRtt (p : Platform) : BbrSender → BbrSender → Type 0 where
  here : {b : BbrSender} → StaysInProbeRtt p b b
  after :
      {b c : BbrSender} (e : CongestionEvent)
      → is_probe_rtt (handle_event p b e).mode ≡ true
      → StaysInProbeRtt p (handle_event p b e) c
      → StaysInProbeRtt p b c

still_waits :
    (p : Platform) (b c : BbrSender)
    → StaysInProbeRtt p b c
    → is_probe_rtt b.mode ≡ true
    → (b.exit_probe_rtt_at == 0) ≡ false
    → (is_probe_rtt c.mode ≡ true) × (c.exit_probe_rtt_at ≡ b.exit_probe_rtt_at)
still_waits p b _ here m known = (m, refl)
still_waits p b c (after e stays rest) m known =
    let same = waits p b e m known stays in
    let (k, x) = still_waits p (handle_event p b e) c rest stays (ap (λ x. x == 0) same ∙ known) in
    (k, x ∙ same)

-- The sender is in PROBE_RTT with no time to leave set, an event leaves less in flight than the least
-- window and one packet buffer, and others follow in which it stays in PROBE_RTT. Then an event 200 ms
-- or more after the first, which acknowledges a packet behind the end of the present round trip,
-- leaves PROBE_RTT.
pub probe_rtt_ends :
    (p : Platform) (b c : BbrSender) (e f : CongestionEvent)
    → is_probe_rtt b.mode ≡ true
    → b.exit_probe_rtt_at ≡ 0
    → less (left_in_flight e) (add64 b.min_congestion_window p.max_packet_buffer_size) ≡ true
    → StaysInProbeRtt p (handle_event p b e) c
    → is_none_left f.acked ≡ false
    → c.current_round_trip_end < last_number (numbers f.acked)
    → e.event_time + probe_rtt_time ≤ f.event_time
    → IsSmall f.event_time
    → is_probe_rtt (handle_event p c f).mode ≡ false
probe_rtt_ends p b c e f m z small stays acks new later bound =
    let (k, x) = schedules p b e m z small in
    let set : (handle_event p b e).exit_probe_rtt_at ≡ e.event_time + probe_rtt_time = x in
    let (k', x') = still_waits p (handle_event p b e) c stays k (rw set (ground arith)) in
    leaves p c f k' (rw (x', set) (ground arith))
      (rw (x', set) (due f.event_time (e.event_time + probe_rtt_time) later bound))
      (round_begins c f acks new)
