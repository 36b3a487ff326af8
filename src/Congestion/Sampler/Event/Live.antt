-- ===== src/Congestion/Sampler/Event/Live.antt =====
-- `OnCongestionEvent` as a whole.
use outbound.Prelude.{ltb, ◌==◌, if◌then◌else◌, if_holds, All, ℕ, min, max, ◌≡◌, refl, sym, ap}
use outbound.Prelude.{ap₂, ◌∙◌, ◌≢◌, Bool, false, some, List, [], ◌∷◌, map}
use outbound.Congestion.Words.{sub64}
use outbound.Congestion.PacketQueue.{EntryWrapper, get_entry_wrapper, drop_consumed_front}
use outbound.Congestion.PacketQueue.Coherent.{IsCoherent}
use outbound.Congestion.PacketQueue.Survive.{drop_consumed_front_keeps}
use outbound.Congestion.PacketQueue.Trim.{trims_keep}
use outbound.Congestion.Sampler.Records.{no_state, ConnectionStateOnSentPacket, no_record}
use outbound.Congestion.Sampler.Records.{PacketMap, BandwidthSampler}
use outbound.Congestion.Sampler.State.{reclaim_consumed}
use outbound.Congestion.Sampler.Event.{no_samples, lose_all, acknowledge_all, on_ack_event_end}
use outbound.Congestion.Sampler.Event.{acknowledge_event, on_congestion_event}
use outbound.Congestion.Sampler.Event.Accounts.{mark_all, credit_all, add_all, mark_all-Marked}
use outbound.Congestion.Sampler.Event.Accounts.{credit_all_same, Totals, lost_all, acked_all}
use mathlib.Core.Path.{subst}

abbrev pub event_marks : PacketMap → List ℕ → List (ℕ × ℕ) → PacketMap
event_marks q acked lost = mark_all (mark_all q (map (λ p. p.0) lost)) acked

module _ {Threshold : Type 0} (scaled : Threshold → ℕ → ℕ) where
  on_ack_event_end-Totals :
      (b : BandwidthSampler Threshold) (bandwidth : ℕ) (is_new : Bool) (rounds : ℕ)
      → Totals b.total_bytes_acked b.total_bytes_lost b.connection_state_map
          (on_ack_event_end scaled b bandwidth is_new rounds).0
  unfolding on_ack_event_end
  on_ack_event_end-Totals b bandwidth is_new rounds =
      if_holds {A = BandwidthSampler Threshold × ℕ}
        (λ x. Totals b.total_bytes_acked b.total_bytes_lost b.connection_state_map x.0)
        (sub64 b.total_bytes_acked b.total_bytes_acked_after_last_ack_event == 0) (refl, refl, refl)
        (refl, refl, refl)

module _ {Threshold : Type 0} (scaled : Threshold → ℕ → ℕ) (b : BandwidthSampler Threshold)
    (ack_time : ℕ) (lost : List (ℕ × ℕ)) (max_bandwidth upper_bound rounds : ℕ) where
  -- The state behind the event.
  abbrev pub after : List ℕ → BandwidthSampler Threshold
  after acked =
      (on_congestion_event scaled b ack_time acked lost max_bandwidth upper_bound rounds).0

  on_congestion_event-Totals :
      (acked : List ℕ)
      → IsCoherent b.connection_state_map
      → Totals
          (credit_all b.connection_state_map b.total_bytes_acked acked)
          (add_all b.total_bytes_lost lost)
          (drop_consumed_front no_record
            (event_marks b.connection_state_map acked lost)
            (λ e. e.consumed)).0
          (after acked)
  unfolding on_congestion_event reclaim_consumed acknowledge_event
  on_congestion_event-Totals [] h =
      let (same, acks, losses) = lost_all b no_state lost in
      (ap (λ q. (drop_consumed_front no_record q (λ e. e.consumed)).0) same, acks, losses)
  on_congestion_event-Totals (n ∷ ns) h =
      let q = b.connection_state_map in
      let (c, s) = lose_all b no_state lost in
      let (same, acks, losses) = lost_all b no_state lost in
      let marks = mark_all-Marked q (map (λ p. p.0) lost) h in
      let t = acked_all c no_samples ack_time (n ∷ ns) (subst IsCoherent (sym same) marks.0) in
      let (d, l) = acknowledge_all c no_samples ack_time (n ∷ ns) in
      let fastest = l.event_sample.sample_max_bandwidth in
      let most = max max_bandwidth fastest in
      let limit =
        if d.limit_max_ack_height_tracker_by_send_rate then max most l.max_send_rate else most in
      let u =
        on_ack_event_end-Totals scaled d (min upper_bound limit) (ltb max_bandwidth fastest)
          rounds in
      (
        ap (λ q. (drop_consumed_front no_record q (λ e. e.consumed)).0)
            (u.0 ∙ t.0 ∙ ap (λ q. mark_all q (n ∷ ns)) same),
        u.1
            ∙ t.1
            ∙ ap₂ (λ q t. credit_all q t (n ∷ ns)) same acks
            ∙ credit_all_same q (mark_all q (map (λ p. p.0) lost)) b.total_bytes_acked (n ∷ ns)
                marks.2,
        u.2 ∙ t.2 ∙ losses,
      )

  -- The map of the packet records is coherent: `OnCongestionEvent` adds to the acknowledged bytes the
  -- size of every acknowledged packet whose record the map held before the event, and to the lost
  -- bytes those of every lost packet, and leaves a coherent map.
  pub event_accounts :
      (acked : List ℕ)
      → IsCoherent b.connection_state_map
      → ((after acked).total_bytes_acked
          ≡ credit_all b.connection_state_map b.total_bytes_acked acked)
        × ((after acked).total_bytes_lost ≡ add_all b.total_bytes_lost lost)
        × IsCoherent (after acked).connection_state_map
  event_accounts acked h =
      let (same, acks, losses) = on_congestion_event-Totals acked h in
      let marks = mark_all-Marked b.connection_state_map (map (λ p. p.0) lost) h in
      let more =
        mark_all-Marked (mark_all b.connection_state_map (map (λ p. p.0) lost)) acked marks.0 in
      (
        acks,
        losses,
        subst IsCoherent (sym same)
            (trims_keep no_record (event_marks b.connection_state_map acked lost) 0
              (λ e. e.consumed) more.0).1,
      )

  -- The map of the packet records is coherent and holds a record that is not consumed, of a packet
  -- that the event neither acknowledges nor declares lost: after `OnCongestionEvent` the map holds
  -- the same record, so that a later acknowledgement or loss still finds it.
  pub live_survives :
      (acked : List ℕ) (n : ℕ) (w : EntryWrapper ConnectionStateOnSentPacket)
      → IsCoherent b.connection_state_map
      → get_entry_wrapper b.connection_state_map n ≡ some w
      → w.entry.consumed ≡ false
      → All (λ m. n ≢ m) acked
      → All (λ m. n ≢ m) (map (λ p. p.0) lost)
      → get_entry_wrapper (after acked).connection_state_map n ≡ some w
  live_survives acked n w h found live not_acked not_lost =
      let marks = mark_all-Marked b.connection_state_map (map (λ p. p.0) lost) h in
      let more =
        mark_all-Marked (mark_all b.connection_state_map (map (λ p. p.0) lost)) acked marks.0 in
      subst (λ q. get_entry_wrapper q n ≡ some w) (sym (on_congestion_event-Totals acked h).0)
        (drop_consumed_front_keeps no_record n w (event_marks b.connection_state_map acked lost)
          (λ e. e.consumed) more.0 (more.1 n not_acked ∙ marks.1 n not_lost ∙ found) live)
