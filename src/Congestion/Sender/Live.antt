-- ===== src/Congestion/Sender/Live.antt =====
-- The packet records of the sampler through `OnCongestionEventEx` of bbr_sender.go.
use outbound.Prelude.{if_holds, All, ℕ, ◌≤◌, ◌≡◌, ◌≢◌, false, not, some}
use outbound.Congestion.Words.{sub64}
use outbound.Congestion.PacketQueue.{EntryWrapper, get_entry_wrapper, remove_up_to}
use outbound.Congestion.PacketQueue.Coherent.{IsCoherent}
use outbound.Congestion.PacketQueue.Survive.{remove_up_to_keeps}
use outbound.Congestion.PacketQueue.Trim.{trims_keep}
use outbound.Congestion.Sampler.Records.{ConnectionStateOnSentPacket, no_record, PacketMap}
use outbound.Congestion.Sampler.Records.{BandwidthSampler, inf_bandwidth}
use outbound.Congestion.Sampler.State.{reset_max_ack_height_tracker, on_app_limited}
use outbound.Congestion.Sampler.State.{remove_obsolete_packets}
use outbound.Congestion.Sampler.Event.Live.{event_accounts, live_survives}
use outbound.Congestion.Sender.Records.{Gain, Platform, BbrSender, is_probe_rtt}
use outbound.Congestion.Sender.Windows.{bandwidth_estimate, in_recovery, calculate_pacing_rate}
use outbound.Congestion.Sender.Windows.{calculate_congestion_window, calculate_recovery_window}
use outbound.Congestion.Sender.Event.{CongestionEvent, numbers, begin_event, sample_event}
use outbound.Congestion.Sender.Event.{update_modes, update_windows, least_unacked, clean_up}
use outbound.Congestion.Sender.Event.{handle_event}
use outbound.Congestion.Sender.Limits.{sampled, IsKept, On, begin_event-On, sample_event-On}
use outbound.Congestion.Sender.Limits.{calculate_pacing_rate-On, update_modes-On}

-- The map is coherent and satisfies `P`.
abbrev OfMap : (PacketMap → Type 0) → ℕ → ℕ → ℕ → BandwidthSampler Gain → Type 0
OfMap P w l h s = P s.connection_state_map

module _ (P : PacketMap → Type 0) where
  OfMap-IsKept : IsKept (OfMap P)
  unfolding on_app_limited reset_max_ack_height_tracker
  OfMap-IsKept = record { limited = λ w l h s k. k; reset = λ w l h x y s k. k }

  calculate_congestion_window-OfMap :
      (p : Platform) (b : BbrSender) (stats_rtt acked excess : ℕ)
      → On (OfMap P) b
      → On (OfMap P) (calculate_congestion_window p b stats_rtt acked excess)
  unfolding calculate_congestion_window
  calculate_congestion_window-OfMap p b stats_rtt acked excess h =
      if_holds (On (OfMap P)) (is_probe_rtt b.mode) h h

  calculate_recovery_window-OfMap :
      (b : BbrSender) (acked lost : ℕ)
      → On (OfMap P) b
      → On (OfMap P) (calculate_recovery_window b acked lost)
  unfolding calculate_recovery_window
  calculate_recovery_window-OfMap b acked lost h = if_holds (On (OfMap P)) (not (in_recovery b)) h h

  -- What the sampler's event makes hold of the map, and the removal of what is obsolete keeps, holds
  -- after the whole event.
  through_event :
      (p : Platform) (b : BbrSender) (e : CongestionEvent)
      → P (sampled p (begin_event b e).0 e).connection_state_map
      → ((q : PacketMap) → P q → P (remove_up_to no_record q (least_unacked e)))
      → P (handle_event p b e).sampler.connection_state_map
  unfolding handle_event clean_up update_windows remove_obsolete_packets
  through_event p b e h removed =
      let Q = OfMap P in
      let (c, round) = begin_event b e in
      let (d, s, expired) = sample_event p c e in
      let lost = sub64 d.sampler.total_bytes_lost b.sampler.total_bytes_lost in
      let acked = sub64 d.sampler.total_bytes_acked b.sampler.total_bytes_acked in
      let f = update_modes p d e s lost round expired in
      let g = calculate_pacing_rate p f e.stats_rtt lost in
      let k = sample_event-On Q OfMap-IsKept p c e h in
      let l =
        calculate_pacing_rate-On Q OfMap-IsKept p f
          (update_modes-On Q OfMap-IsKept p d k e s lost round expired) e.stats_rtt lost in
      removed _ (
        calculate_recovery_window-OfMap
          (calculate_congestion_window p g e.stats_rtt acked s.extra_acked) acked lost
          (calculate_congestion_window-OfMap p g e.stats_rtt acked s.extra_acked l))

-- The map of the packet records is coherent and holds a record that is not consumed, of a packet that
-- the event neither acknowledges nor declares lost, with a number not below the last acknowledged one
-- less 2 (of an event with no acknowledged packet: not below the one behind the last lost packet).
-- Then the map holds the same record after `OnCongestionEventEx`, and is coherent.
pub record_survives :
    (p : Platform) (b : BbrSender) (e : CongestionEvent) (n : ℕ)
    (w : EntryWrapper ConnectionStateOnSentPacket)
    → IsCoherent b.sampler.connection_state_map
    → get_entry_wrapper b.sampler.connection_state_map n ≡ some w
    → w.entry.consumed ≡ false
    → All (λ m. n ≢ m) (numbers e.acked)
    → All (λ m. n ≢ m) (numbers e.lost)
    → least_unacked e ≤ n
    → IsCoherent (handle_event p b e).sampler.connection_state_map
      × (get_entry_wrapper (handle_event p b e).sampler.connection_state_map n ≡ some w)
record_survives p b e n w h found live not_acked not_lost least =
    let P : PacketMap → Type 0 = λ q. IsCoherent q × (get_entry_wrapper q n ≡ some w) in
    let c = (begin_event b e).0 in
    let (h', found') = begin_event-On (OfMap P) (OfMap-IsKept P) b e (h, found) in
    let rounds = c.round_trip_count in
    through_event P p b e
      (
        (event_accounts p.scaled c.sampler e.event_time e.lost (bandwidth_estimate c) inf_bandwidth
            rounds (numbers e.acked) h').2,
        live_survives p.scaled c.sampler e.event_time e.lost (bandwidth_estimate c) inf_bandwidth
            rounds (numbers e.acked) n w h' found' live not_acked not_lost,
      )
      (λ q (k, l). (
        (trims_keep no_record q (least_unacked e) (λ x. x.consumed) k).0,
        remove_up_to_keeps no_record n w q (least_unacked e) k l least,
      ))
