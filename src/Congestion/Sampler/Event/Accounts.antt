-- ===== src/Congestion/Sampler/Event/Accounts.antt =====
-- What `OnCongestionEvent` adds to the totals of bandwidth_sampler.go, and which packet records it
-- leaves.
use outbound.Prelude.{◌==◌, if◌then◌else◌, Bool-cases, Option-cases, if_holds, All, ℕ, ◌≡◌, refl}
use outbound.Prelude.{sym, ap, ap₂, ◌∙◌, ◌≢◌, inl, inr, Option, none, some, List, [], ◌∷◌, map}
use outbound.Congestion.Words.{add64}
use outbound.Congestion.PacketQueue.{get_entry_wrapper, get_entry}
use outbound.Congestion.PacketQueue.Coherent.{IsCoherent}
use outbound.Congestion.Sampler.Records.{SendTimeState, ConnectionStateOnSentPacket, PacketMap}
use outbound.Congestion.Sampler.Records.{BandwidthSampler, BandwidthSample, new_bandwidth_sample}
use outbound.Congestion.Sampler.State.{mark_consumed, on_packet_lost}
use outbound.Congestion.Sampler.Marks.{size_of, mark_none, mark_consumed_lem}
use outbound.Congestion.Sampler.Ack.{acknowledge, a0_point, on_packet_acknowledged}
use outbound.Congestion.Sampler.Event.{AckLoop, count_sample, lose_all, acknowledge_all}
use mathlib.Core.Path.{subst}

-- The records of some packets marked, one after the other.
abbrev pub mark_all : PacketMap → List ℕ → PacketMap
mark_all q [] = q
mark_all q (n ∷ ns) = mark_all (mark_consumed q n) ns

-- A total to which the size of a packet is added, if its record is there.
abbrev pub credit : ℕ → Option ℕ → ℕ
credit total none = total
credit total (some size) = add64 total size

abbrev pub credit_all : PacketMap → ℕ → List ℕ → ℕ
credit_all q total [] = total
credit_all q total (n ∷ ns) = credit_all q (credit total (size_of q n)) ns

abbrev pub add_all : ℕ → List (ℕ × ℕ) → ℕ
add_all total [] = total
add_all total ((n, bytes) ∷ ps) = add_all (add64 total bytes) ps

-- The map is coherent, has the records of all other packets as `q` and the sizes of all.
abbrev pub Marked : PacketMap → List ℕ → PacketMap → Type 0
Marked q ns q' =
    IsCoherent q'
    × ((m : ℕ) → All (λ n. m ≢ n) ns → get_entry_wrapper q' m ≡ get_entry_wrapper q m)
    × ((m : ℕ) → size_of q' m ≡ size_of q m)

pub mark_all-Marked : (q : PacketMap) (ns : List ℕ) → IsCoherent q → Marked q ns (mark_all q ns)
mark_all-Marked q [] h = (h, λ m a. refl, λ m. refl)
mark_all-Marked q (n ∷ ns) h =
    let (c, others, sizes) = mark_consumed_lem q n h in
    let (d, others', sizes') = mark_all-Marked (mark_consumed q n) ns c in
    (d, λ m a. others' m a.1 ∙ others m a.0, λ m. sizes' m ∙ sizes m)

pub credit_all_same :
    (q q' : PacketMap) (total : ℕ) (ns : List ℕ)
    → ((m : ℕ) → size_of q' m ≡ size_of q m)
    → credit_all q' total ns ≡ credit_all q total ns
credit_all_same q q' total [] h = refl
credit_all_same q q' total (n ∷ ns) h =
    ap (λ s. credit_all q' (credit total s) ns) (h n)
    ∙ credit_all_same q q' (credit total (size_of q n)) ns h

module _ {Threshold : Type 0} where
  -- What a step that marks packet `n` leaves in the map and in the totals.
  abbrev pub Totals : ℕ → ℕ → PacketMap → BandwidthSampler Threshold → Type 0
  Totals acked lost q b =
      (b.connection_state_map ≡ q) × (b.total_bytes_acked ≡ acked) × (b.total_bytes_lost ≡ lost)

  lost_one :
      (b : BandwidthSampler Threshold) (n bytes : ℕ)
      → Totals b.total_bytes_acked
          (add64 b.total_bytes_lost bytes)
          (mark_consumed b.connection_state_map n)
          (on_packet_lost b n bytes).0
  unfolding on_packet_lost get_entry
  lost_one b n bytes = elim (Option-cases (get_entry_wrapper b.connection_state_map n)) [
    | inl e ↦
        rw (on_packet_lost, get_entry, mark_none b.connection_state_map n e, e) (refl, refl, refl)
    | inr (w, e) ↦ rw (on_packet_lost, get_entry, e) (refl, refl, refl)
  ]

  a0_point-Totals :
      (b : BandwidthSampler Threshold) (e : ConnectionStateOnSentPacket)
      → Totals b.total_bytes_acked b.total_bytes_lost b.connection_state_map (a0_point b e).0
  unfolding a0_point
  a0_point-Totals b e = elim (Bool-cases b.overestimate_avoidance) [
    | inl o ↦ rw (a0_point, o) (refl, refl, refl)
    | inr o ↦ rw (a0_point, o) (refl, refl, refl)
  ]

  acknowledge-Totals :
      (b : BandwidthSampler Threshold) (ack_time n : ℕ) (e : ConnectionStateOnSentPacket)
      → Totals
          (add64 b.total_bytes_acked e.size)
          b.total_bytes_lost
          (mark_consumed b.connection_state_map n)
          (acknowledge b ack_time n e)
  unfolding acknowledge
  acknowledge-Totals b ack_time n e = (refl, refl, refl)

  acked_one :
      (b : BandwidthSampler Threshold) (ack_time n : ℕ)
      → Totals
          (credit b.total_bytes_acked (size_of b.connection_state_map n))
          b.total_bytes_lost
          (mark_consumed b.connection_state_map n)
          (on_packet_acknowledged b ack_time n).0
  unfolding on_packet_acknowledged get_entry
  acked_one b ack_time n = elim (Option-cases (get_entry_wrapper b.connection_state_map n)) [
    | inl e ↦
        rw (on_packet_acknowledged, get_entry, mark_none b.connection_state_map n e, e)
          (refl, refl, refl)
    | inr (w, e) ↦
        let b1 = acknowledge b ack_time n w.entry in
        let t = acknowledge-Totals b ack_time n w.entry in
        let u = a0_point-Totals b1 w.entry in
        rw (on_packet_acknowledged, get_entry, e)
          (if_holds {A = BandwidthSampler Threshold × BandwidthSample}
            (λ x.
              Totals (add64 b.total_bytes_acked w.entry.size) b.total_bytes_lost
                (mark_consumed b.connection_state_map n) x.0)
            (w.entry.last_acked_packet_sent_time == 0) {x = (b1, new_bandwidth_sample)} t
            (u.0 ∙ t.0, u.1 ∙ t.1, u.2 ∙ t.2))
  ]

  pub lost_all :
      (b : BandwidthSampler Threshold) (last : SendTimeState) (ps : List (ℕ × ℕ))
      → Totals b.total_bytes_acked
          (add_all b.total_bytes_lost ps)
          (mark_all b.connection_state_map (map (λ p. p.0) ps))
          (lose_all b last ps).0
  unfolding lose_all
  lost_all b last [] = (refl, refl, refl)
  lost_all b last ((n, bytes) ∷ ps) =
      let (c, s) = on_packet_lost b n bytes in
      let (same, acked, lost) = lost_one b n bytes in
      let rest = lost_all c (if s.is_valid then s else last) ps in
      (
        rest.0 ∙ ap (λ q. mark_all q (map (λ p. p.0) ps)) same,
        rest.1 ∙ acked,
        rest.2 ∙ ap (λ t. add_all t ps) lost,
      )

  -- Each packet is looked up in the map that those before it have marked, which has the same sizes.
  pub acked_all :
      (b : BandwidthSampler Threshold) (l : AckLoop) (ack_time : ℕ) (ns : List ℕ)
      → IsCoherent b.connection_state_map
      → Totals
          (credit_all b.connection_state_map b.total_bytes_acked ns)
          b.total_bytes_lost
          (mark_all b.connection_state_map ns)
          (acknowledge_all b l ack_time ns).0
  unfolding acknowledge_all
  acked_all b l ack_time [] h = (refl, refl, refl)
  acked_all b l ack_time (n ∷ ns) h =
      let q = b.connection_state_map in
      let (c, s) = on_packet_acknowledged b ack_time n in
      let (same, acked, lost) = acked_one b ack_time n in
      let marks = mark_consumed_lem q n h in
      let rest =
        acked_all c (if s.state_at_send.is_valid then count_sample l c.total_bytes_acked s else l)
          ack_time ns (subst IsCoherent (sym same) marks.0) in
      (
        rest.0 ∙ ap (λ q. mark_all q ns) same,
        rest.1
            ∙ ap₂ (λ q t. credit_all q t ns) same acked
            ∙ credit_all_same q (mark_consumed q n) (credit b.total_bytes_acked (size_of q n)) ns
                marks.2,
        rest.2 ∙ lost,
      )
