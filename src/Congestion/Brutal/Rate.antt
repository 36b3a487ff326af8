-- ===== src/Congestion/Brutal/Rate.antt =====
-- The rate of acknowledgements of brutal.go after a sequence of events.
use outbound.Prelude.{ℕ, ◌%◌, ◌≤◌, ◌<◌, ◌≡◌, refl, ap₂, inr, List, [], ◌∷◌, map, arith}
use outbound.Congestion.Words.{word}
use outbound.Congestion.Brutal.{BrutalSender, Floats, counted_in, put_slot, new_brutal_sender}
use outbound.Congestion.Brutal.{rate_of, update_ack_rate, brutal_on_congestion_event}
use outbound.Congestion.Brutal.Window.{in_last, Tracks, put_slot-Tracks}
use outbound.Congestion.Brutal.Sum.{sum_lem}

-- The events, the last one first: the second, the acknowledged packets and the lost ones.
abbrev pub Events : Type 0
Events = List (ℕ × ℕ × ℕ)

abbrev pub acks_of : Events → List (ℕ × ℕ)
acks_of events = map (λ e. (e.0, e.1)) events

abbrev pub losses_of : Events → List (ℕ × ℕ)
losses_of events = map (λ e. (e.0, e.2)) events

abbrev pub latest : Events → ℕ
latest [] = 0
latest ((t, acks, losses) ∷ events) = t

-- The times do not decrease, and the counts are 64-bit numbers.
abbrev pub InOrder : Events → Type 0
InOrder [] = Unit {0}
InOrder ((t, acks, losses) ∷ events) =
    (latest events ≤ t) × (0 < t) × (acks < word) × (losses < word) × InOrder events

module _ (f : Floats) (bps : ℕ) where
  -- the sender after the events
  unfoldable pub after_all : Events → BrutalSender
  after_all [] = new_brutal_sender f bps
  after_all ((t, acks, losses) ∷ events) =
      brutal_on_congestion_event f (after_all events) t acks losses

  tracked :
      (events : Events)
      → InOrder events
      → let slots = (after_all events).pkt_info_slots in
        Tracks (λ i. i.ack_count) (acks_of events) (latest events) slots
        × Tracks (λ i. i.loss_count) (losses_of events) (latest events) slots
  unfolding after_all brutal_on_congestion_event update_ack_rate new_brutal_sender
  tracked [] h = (
    (tt, λ j k. (inr refl, omega arith, refl, λ s c l. refl)),
    (tt, λ j k. (inr refl, omega arith, refl, λ s c l. refl)),
  )
  tracked ((t, acks, losses) ∷ events) (order, positive, a, l, rest) =
      let slots = (after_all events).pkt_info_slots in
      let (k, m) = tracked events rest in
      (
        (put_slot-Tracks (λ i. i.ack_count) (acks_of events) (latest events) t acks losses acks
            slots (λ i. refl) (omega (arith, a)) k order positive).0,
        (put_slot-Tracks (λ i. i.loss_count) (losses_of events) (latest events) t acks losses losses
            slots (λ i. refl) (omega (arith, l)) m order positive).0,
      )

  -- The events come in the order of their time, the last one in second 10 or later: the rate of
  -- acknowledgements is that of the packets of the last five seconds, those of the last event
  -- included. The five slots of the sender forget nothing of them and keep nothing older.
  pub ack_rate_lem :
      (t acks losses : ℕ) (events : Events)
      → InOrder ((t, acks, losses) ∷ events)
      → 10 ≤ t
      → (after_all ((t, acks, losses) ∷ events)).ack_rate
        ≡ rate_of f
            (in_last (acks_of ((t, acks, losses) ∷ events)) t 5)
            (in_last (losses_of ((t, acks, losses) ∷ events)) t 5)
  unfolding after_all brutal_on_congestion_event update_ack_rate
  ack_rate_lem t acks losses events (order, positive, a, l, rest) old =
      let slots = (after_all events).pkt_info_slots in
      let (k, m) = tracked events rest in
      let (k', at) =
        put_slot-Tracks (λ i. i.ack_count) (acks_of events) (latest events) t acks losses acks slots
          (λ i. refl) (omega (arith, a)) k order positive in
      let (m', at') =
        put_slot-Tracks (λ i. i.loss_count) (losses_of events) (latest events) t acks losses losses
          slots (λ i. refl) (omega (arith, l)) m order positive in
      let slots' = put_slot slots (t % 5) (counted_in (slots (t % 5)) t acks losses) in
      ap₂ (rate_of f)
        (sum_lem (λ i. i.ack_count) (acks_of ((t, acks, losses) ∷ events)) t slots' k' old at)
        (sum_lem (λ i. i.loss_count) (losses_of ((t, acks, losses) ∷ events)) t slots' m' old at')
