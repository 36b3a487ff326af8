-- ===== src/Congestion/PacketQueue/Drop.antt =====
-- What `RemoveUpTo` of packet_number_indexed_queue.go drops.
use outbound.Prelude.{ltb, ◌==◌, ltb→lt, Bool-cases, if_cases, length, ℕ, zero, suc, ◌+◌, ◌≤◌}
use outbound.Prelude.{◌<◌, ◌≡◌, sym, ap, ◌∙◌, ◌⊎◌, inl, inr, Bool, ◌&&◌, not, none, some, [], ◌∷◌}
use outbound.Prelude.{arith}
use outbound.Congestion.PacketQueue.{EntryWrapper, PacketNumberIndexedQueue, is_empty}
use outbound.Congestion.PacketQueue.{get_entry_wrapper, without, blank, reclaim, settle}
use outbound.Congestion.PacketQueue.{pop_while, clearup, remove_up_to}
use outbound.Congestion.PacketQueue.Coherent.{slots, present_count, IsCoherent, popped-IsCoherent}
use outbound.Congestion.PacketQueue.Trim.{no_elements, pop_while-IsCoherent, reclaim-IsCoherent}
use outbound.Congestion.PacketQueue.Trim.{settle-IsCoherent}
use outbound.Congestion.RingBuffer.Laws.Queue.{contents, length-contents, is_empty_iff}
use outbound.Congestion.RingBuffer.Laws.Resize.{pop_front_empty, pop_front_lem}
use outbound.Congestion.RingBuffer.{RingBuffer, pop_front, len as ring_len}
use outbound.Congestion.RingBuffer.{is_empty as ring_is_empty}

module _ {A : Type 0} (m : ℕ) where
  -- The queue has no slot for a packet below `m`.
  abbrev Past : PacketNumberIndexedQueue A → Type 0
  Past q = (slots q ≡ []) ⊎ (m ≤ q.first_packet)

  none_below :
      (q : PacketNumberIndexedQueue A) (n : ℕ)
      → IsCoherent q
      → Past q
      → n < m
      → get_entry_wrapper q n ≡ none
  unfolding get_entry_wrapper is_empty present_count
  none_below q n h (inl e) lt =
      let zero_left : q.number_of_present_entries ≡ 0 = h.counted ∙ ap present_count e in
      ground (arith, zero_left)
  none_below q n h (inr le) lt = ground (arith, le, lt)

module _ {A : Type 0} (zero_value : A) where
  abbrev pub behind :
      PacketNumberIndexedQueue A
      → EntryWrapper A
      → RingBuffer (EntryWrapper A)
      → PacketNumberIndexedQueue A
  behind q w r = record q {
    entries = r;
    number_of_present_entries = without w q.number_of_present_entries;
    first_packet = q.first_packet + 1;
  }

  -- The front of the queue, if it has one.
  abbrev pub Front : PacketNumberIndexedQueue A → Type 0
  Front q =
      ((slots q ≡ []) × (pop_front (blank zero_value) q.entries ≡ none))
      ⊎ ((w : EntryWrapper A) × (r : RingBuffer (EntryWrapper A)) × (pop_front (blank zero_value)
              q.entries
            ≡ some (w, r))
          × (slots q ≡ w ∷ contents r)
          × IsCoherent (behind q w r))

  pub front : (q : PacketNumberIndexedQueue A) → IsCoherent q → Front q
  front q h = elim (Bool-cases (ltb 0 (ring_len q.entries))) [
    | inl e ↦
        let (w, r, eq, v, s) =
          pop_front_lem (blank zero_value) q.entries h.valid (ltb→lt 0 (ring_len q.entries) e) in
        let c = popped-IsCoherent q w r h v s in
        inr (
          w,
          r,
          eq,
          s,
          record { valid = c.valid; counted = c.counted; bounded = c.bounded; room = c.room },
        )
    | inr e ↦
        let gone : slots q ≡ [] =
          no_elements (slots q) (ground (arith, e, length-contents q.entries h.valid)) in
        inl (gone, pop_front_empty (blank zero_value) q.entries h.valid gone)
  ]

  module _ (m : ℕ) where
    pop_while-Past :
        (test : ℕ → EntryWrapper A → Bool) (fuel : ℕ) (q : PacketNumberIndexedQueue A)
        → IsCoherent q
        → Past m q
        → Past m (pop_while zero_value test fuel q)
    unfolding pop_while
    pop_while-Past test zero q h k = k
    pop_while-Past test (suc fuel) q h k = elim (front q h) [
      | inl (gone, e) ↦ rw (pop_while, e) k
      | inr (w, r, e, s, c) ↦
          let later : m ≤ q.first_packet + 1 = elim k [
            | inl gone ↦ absurd (ground (arith, sym gone ∙ s))
            | inr le ↦ omega (arith, le)
          ] in
          elim (Bool-cases (test q.first_packet w)) [
            | inl t ↦ rw (pop_while, e, t) (pop_while-Past test fuel (behind q w r) c (inr later))
            | inr t ↦ rw (pop_while, e, t) k
          ]
    ]

    reaches :
        (fuel : ℕ) (q : PacketNumberIndexedQueue A)
        → IsCoherent q
        → 0 < q.first_packet
        → length (slots q) ≤ fuel
        → Past m (pop_while zero_value (λ first w. not (first == 0) && ltb first m) fuel q)
    unfolding pop_while
    reaches zero q h positive enough = inl (no_elements (slots q) (omega (arith, enough)))
    reaches (suc fuel) q h positive enough = elim (front q h) [
      | inl (gone, e) ↦ rw (pop_while, e) (inl gone)
      | inr (w, r, e, s, c) ↦
          elim (Bool-cases (not (q.first_packet == 0) && ltb q.first_packet m)) [
            | inl t ↦
                rw (pop_while, e, t)
                  (reaches fuel (behind q w r) c (omega arith) (omega (arith, enough, ap length s)))
            | inr t ↦ rw (pop_while, e, t) (inr (ground (arith, t, positive)))
          ]
    ]

    settle-Past :
        (q : PacketNumberIndexedQueue A) → IsCoherent q → Past m q → Past m (settle zero_value q)
    unfolding settle
    settle-Past q h k =
        if_cases (λ d. Past m (reclaim zero_value d)) (ring_is_empty q.entries)
          {x = record q { first_packet = 0 }} {y = q}
          (λ t.
            let d : PacketNumberIndexedQueue A = record q { first_packet = 0 } in
            let (c, same, first) = reclaim-IsCoherent zero_value d (record {
              valid = h.valid;
              counted = h.counted;
              bounded = h.bounded;
              room = h.room;
            }) in
            inl (
              same
              ∙ no_elements (slots q) (
                  ground
                    (arith, t, is_empty_iff q.entries h.valid, length-contents q.entries h.valid))))
          (λ t.
            let (c, same, first) = reclaim-IsCoherent zero_value q h in
            elim k [ inl gone ↦ inl (same ∙ gone) | inr le ↦ inr (omega (arith, first, le)) ])

    -- `RemoveUpTo` leaves no entry of a packet below its argument.
    pub remove_up_to_drops :
        (q : PacketNumberIndexedQueue A) (n : ℕ)
        → IsCoherent q
        → 0 < q.first_packet
        → n < m
        → get_entry_wrapper (remove_up_to zero_value q m) n ≡ none
    unfolding remove_up_to clearup
    remove_up_to_drops q n h positive lt =
        let below : ℕ → EntryWrapper A → Bool = λ first x. not (first == 0) && ltb first m in
        let absent : ℕ → EntryWrapper A → Bool = λ first x. not x.present in
        let d = pop_while zero_value below (ring_len q.entries) q in
        let c = pop_while-IsCoherent zero_value below (ring_len q.entries) q h in
        let k =
          reaches (ring_len q.entries) q h positive
            (omega (arith, length-contents q.entries h.valid)) in
        let d' = pop_while zero_value absent (ring_len d.entries) d in
        let c' = pop_while-IsCoherent zero_value absent (ring_len d.entries) d c in
        none_below m (settle zero_value d') n (settle-IsCoherent zero_value d' c')
          (settle-Past d' c' (pop_while-Past absent (ring_len d.entries) d c k)) lt
