-- ===== src/Congestion/Sampler/Event/Lifecycle.antt =====
-- A packet of bandwidth_sampler.go from its sending to its acknowledgement.
use outbound.Prelude.{◌==◌, if◌then◌else◌, Bool-cases, if_holds, ℕ, ◌<◌, ◌≡◌, refl, sym, ap, ap₂}
use outbound.Prelude.{◌∙◌, inl, inr, Bool, true, false, none, some, [], ◌∷◌, arith}
use outbound.Congestion.Words.{add64}
use outbound.Congestion.PacketQueue.{is_empty, last_packet, get_entry_wrapper, get_entry, emplace}
use outbound.Congestion.PacketQueue.Coherent.{slots, IsCoherent}
use outbound.Congestion.PacketQueue.Emplace.{emplace_lem}
use outbound.Congestion.Sampler.Records.{ConnectionStateOnSentPacket, no_record, PacketMap}
use outbound.Congestion.Sampler.Records.{BandwidthSampler}
use outbound.Congestion.Sampler.State.{new_connection_state_on_sent_packet, restarted_points}
use outbound.Congestion.Sampler.State.{opened, on_packet_sent}
use outbound.Congestion.Sampler.Marks.{size_of}
use outbound.Congestion.Sampler.Event.Accounts.{credit, Totals}
use outbound.Congestion.Sampler.Event.Live.{after, event_accounts}
use mathlib.Core.Path.{subst}

size_found :
    (q : PacketMap) (n : ℕ) (e : ConnectionStateOnSentPacket)
    → get_entry q n ≡ some e
    → size_of q n ≡ some e.size
unfolding get_entry
size_found q n e h = ground (arith, h)

size_beyond : (q : PacketMap) (n : ℕ) → last_packet q < n → size_of q n ≡ none
unfolding get_entry_wrapper last_packet is_empty
size_beyond q n h = ground (arith, h)

module _ {Threshold : Type 0} (b : BandwidthSampler Threshold)
    (sent_time n bytes in_flight : ℕ) where
  -- The state after the packet is sent.
  abbrev pub sent : Bool → BandwidthSampler Threshold
  sent is_retransmittable = on_packet_sent b sent_time n bytes in_flight is_retransmittable

  sent_untracked : Totals b.total_bytes_acked b.total_bytes_lost b.connection_state_map (sent false)
  unfolding on_packet_sent
  sent_untracked = (refl, refl, refl)

  opened_keeps :
      (c : BandwidthSampler Threshold)
      → Totals c.total_bytes_acked c.total_bytes_lost c.connection_state_map (opened c sent_time)
  unfolding opened restarted_points
  opened_keeps c = elim (Bool-cases c.overestimate_avoidance) [
    | inl o ↦ rw (opened, o) (refl, refl, refl)
    | inr o ↦ rw (opened, o) (refl, refl, refl)
  ]

  sent_lem :
      (e : ConnectionStateOnSentPacket) × (e.size ≡ bytes)
      × Totals b.total_bytes_acked b.total_bytes_lost
          (emplace no_record b.connection_state_map n (some e)).0
          (sent true)
  unfolding on_packet_sent new_connection_state_on_sent_packet
  sent_lem =
      let c : BandwidthSampler Threshold = record b {
        last_sent_packet = n;
        total_bytes_sent = add64 b.total_bytes_sent bytes;
      } in
      let (same, acked, lost) =
        if_holds (Totals b.total_bytes_acked b.total_bytes_lost b.connection_state_map)
          (in_flight == 0) {x = opened c sent_time} {y = c} (opened_keeps c) (refl, refl, refl) in
      let d = if in_flight == 0 then opened c sent_time else c in
      let e = new_connection_state_on_sent_packet sent_time bytes (add64 in_flight bytes) d in
      (e, refl, (ap (λ q. (emplace no_record q n (some e)).0) same, acked, lost))

module _ {Threshold : Type 0} (scaled : Threshold → ℕ → ℕ) (b : BandwidthSampler Threshold)
    (sent_time n bytes in_flight ack_time max_bandwidth upper_bound rounds : ℕ) where
  -- The map of the packet records is coherent and has no slots where no record is present, the
  -- packet's number is beyond the last one, the packet is sent, and the next event acknowledges it
  -- alone: if it can be retransmitted, then the acknowledged bytes grow by the bytes that were
  -- sent. If not, nothing was recorded of it, and they stay. In both cases the lost bytes stay and
  -- the map is coherent again.
  pub sent_then_acked :
      (is_retransmittable : Bool)
      → IsCoherent b.connection_state_map
      → (b.connection_state_map.number_of_present_entries ≡ 0 → slots b.connection_state_map ≡ [])
      → last_packet b.connection_state_map < n
      → let c =
          after scaled
            (sent b sent_time n bytes in_flight is_retransmittable)
            ack_time
            []
            max_bandwidth
            upper_bound
            rounds
            (n ∷ []) in
        (c.total_bytes_acked
          ≡ (if is_retransmittable then add64 b.total_bytes_acked bytes else b.total_bytes_acked))
        × (c.total_bytes_lost ≡ b.total_bytes_lost)
        × IsCoherent c.connection_state_map
  sent_then_acked true h clean beyond_last =
      let s = sent b sent_time n bytes in_flight true in
      let (e, size, (same, acked, lost)) = sent_lem b sent_time n bytes in_flight in
      let (accepted, coherent, found) =
        emplace_lem no_record b.connection_state_map n e h clean beyond_last in
      let coherent' : IsCoherent s.connection_state_map = subst IsCoherent (sym same) coherent in
      let sized : size_of s.connection_state_map n ≡ some bytes =
        ap (λ q. size_of q n) same ∙ size_found _ n e found ∙ ap some size in
      let (acks, losses, last) =
        event_accounts scaled s ack_time [] max_bandwidth upper_bound rounds (n ∷ []) coherent' in
      (acks ∙ ap₂ credit acked sized, losses ∙ lost, last)
  sent_then_acked false h clean beyond_last =
      let s = sent b sent_time n bytes in_flight false in
      let (same, acked, lost) = sent_untracked b sent_time n bytes in_flight in
      let sized : size_of s.connection_state_map n ≡ none =
        ap (λ q. size_of q n) same ∙ size_beyond b.connection_state_map n beyond_last in
      let (acks, losses, last) =
        event_accounts scaled s ack_time [] max_bandwidth upper_bound rounds (n ∷ [])
          (subst IsCoherent (sym same) h) in
      (acks ∙ ap₂ credit acked sized, losses ∙ lost, last)
