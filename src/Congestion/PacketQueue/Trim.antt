-- ===== src/Congestion/PacketQueue/Trim.antt =====
-- The operations of packet_number_indexed_queue.go that pop the front of the queue.
use outbound.Prelude.{ltb, ◌==◌, if◌then◌else◌, ltb→lt, Bool-cases, length, ℕ, zero, suc, ◌+◌}
use outbound.Prelude.{◌≡◌, refl, sym, ap, ◌∙◌, inl, inr, Bool, true, false, ◌&&◌, ◌||◌, not, List}
use outbound.Prelude.{[], ◌∷◌, arith}
use outbound.Congestion.PacketQueue.{EntryWrapper, PacketNumberIndexedQueue, without}
use outbound.Congestion.PacketQueue.{blank, reclaim, settle, pop_while, clearup}
use outbound.Congestion.PacketQueue.{drop_consumed_front, remove_up_to}
use outbound.Congestion.PacketQueue.Coherent.{slots, present_count, IsCoherent}
use outbound.Congestion.RingBuffer.Laws.Queue.{length-contents}
use outbound.Congestion.RingBuffer.Laws.Resize.{pop_front_empty, pop_front_lem}
use outbound.Congestion.RingBuffer.Laws.Shrink.{shrink_to_lem}
use outbound.Congestion.RingBuffer.{shrink_to, len as ring_len}
use outbound.Congestion.RingBuffer.{is_empty as ring_is_empty}

pub no_elements : {A : Type 0} (xs : List A) → length xs ≡ 0 → xs ≡ []
no_elements [] h = refl
no_elements (x ∷ xs) h = absurd (omega (arith, h))

module _ {A : Type 0} (zero_value : A) where
  pub pop_while-IsCoherent :
      (test : ℕ → EntryWrapper A → Bool) (fuel : ℕ) (q : PacketNumberIndexedQueue A)
      → IsCoherent q
      → IsCoherent (pop_while zero_value test fuel q)
  unfolding pop_while present_count
  pop_while-IsCoherent test zero q h = h
  pop_while-IsCoherent test (suc fuel) q h =
      let b : EntryWrapper A = blank zero_value in
      elim (Bool-cases (ltb 0 (ring_len q.entries))) [
        | inl e ↦
            let (w, r, eq, v, s) =
              pop_front_lem b q.entries h.valid (ltb→lt 0 (ring_len q.entries) e) in
            let q' : PacketNumberIndexedQueue A = record q {
              entries = r;
              number_of_present_entries = without w q.number_of_present_entries;
              first_packet = q.first_packet + 1;
            } in
            let c : IsCoherent q' = record {
              valid = v;
              counted = ground (arith, h.counted, ap present_count s);
              bounded = omega (arith, h.bounded, ap length s);
              room = h.room;
            } in
            elim (Bool-cases (test q.first_packet w)) [
              | inl t ↦ rw (pop_while, eq, t) (pop_while-IsCoherent test fuel q' c)
              | inr t ↦ rw (pop_while, eq, t) h
            ]
        | inr e ↦
            let gone : slots q ≡ [] =
              no_elements (slots q) (ground (arith, e, length-contents q.entries h.valid)) in
            rw (pop_while, pop_front_empty b q.entries h.valid gone) h
      ]

  kept_or_shrunk :
      (stay : Bool) (q : PacketNumberIndexedQueue A) (target : ℕ)
      → IsCoherent q
      → IsCoherent
          (if stay then q else record q { entries = shrink_to (blank zero_value) q.entries target })
        × (slots (
              if stay
              then q
              else record q { entries = shrink_to (blank zero_value) q.entries target })
            ≡ slots q)
        × ((if stay then q else record q {
          entries = shrink_to (blank zero_value) q.entries target;
        }).first_packet
            ≡ q.first_packet)
  kept_or_shrunk true q target h = (h, refl, refl)
  kept_or_shrunk false q target h =
      let s = shrink_to_lem (blank zero_value) q.entries target h.valid in
      (
        record {
          valid = s.0;
          counted = h.counted ∙ sym (ap present_count s.1);
          bounded = omega (arith, h.bounded, ap length s.1);
          room = h.room;
        },
        s.1,
        refl,
      )

  pub reclaim-IsCoherent :
      (q : PacketNumberIndexedQueue A)
      → IsCoherent q
      → IsCoherent (reclaim zero_value q)
        × (slots (reclaim zero_value q) ≡ slots q)
        × ((reclaim zero_value q).first_packet ≡ q.first_packet)
  unfolding reclaim
  reclaim-IsCoherent q h = kept_or_shrunk _ q _ h

  pub settle-IsCoherent :
      (q : PacketNumberIndexedQueue A) → IsCoherent q → IsCoherent (settle zero_value q)
  unfolding settle
  settle-IsCoherent q h = elim (Bool-cases (ring_is_empty q.entries)) [
    | inl e ↦
        rw e
          (reclaim-IsCoherent (record q { first_packet = 0 })
            (record { valid = h.valid; counted = h.counted; bounded = h.bounded; room = h.room })).0
    | inr e ↦ rw e (reclaim-IsCoherent q h).0
  ]

  pub clearup-IsCoherent :
      (q : PacketNumberIndexedQueue A) → IsCoherent q → IsCoherent (clearup zero_value q)
  unfolding clearup
  clearup-IsCoherent q h =
      settle-IsCoherent (pop_while zero_value (λ first w. not w.present) (ring_len q.entries) q)
        (pop_while-IsCoherent (λ first w. not w.present) (ring_len q.entries) q h)

  -- The trims keep the count of present entries right and the slots within the budget: removing up
  -- to a packet number, and dropping what is consumed in front, whatever the test.
  pub trims_keep :
      (q : PacketNumberIndexedQueue A) (n : ℕ) (is_consumed : A → Bool)
      → IsCoherent q
      → IsCoherent (remove_up_to zero_value q n)
        × IsCoherent (drop_consumed_front zero_value q is_consumed).0
  unfolding remove_up_to drop_consumed_front
  trims_keep q n is_consumed h = (
    clearup-IsCoherent
        (pop_while zero_value (λ first w. not (first == 0) && ltb first n) (ring_len q.entries) q)
        (pop_while-IsCoherent (λ first w. not (first == 0) && ltb first n) (ring_len q.entries) q
          h),
    settle-IsCoherent
        (pop_while zero_value (λ first w. not w.present || is_consumed w.entry) (ring_len q.entries)
          q)
        (pop_while-IsCoherent (λ first w. not w.present || is_consumed w.entry) (ring_len q.entries)
          q h),
  )
