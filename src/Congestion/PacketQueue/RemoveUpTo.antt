-- ===== src/Congestion/PacketQueue/RemoveUpTo.antt =====
-- `RemoveUpTo` of packet_number_indexed_queue.go as a whole.
use outbound.Prelude.{ltb, ◌==◌, if◌then◌else◌, ltb→lt, Bool-cases, Option-cases, if_cases}
use outbound.Prelude.{get_elem?, ℕ, zero, suc, ◌+◌, ◌-◌, ◌<◌, ◌≡◌, sym, ap, ap₂, ◌∙◌, inl, inr}
use outbound.Prelude.{Bool, ◌&&◌, not, none, [], ◌∷◌, arith}
use outbound.Congestion.PacketQueue.{EntryWrapper, PacketNumberIndexedQueue}
use outbound.Congestion.PacketQueue.{get_entry_wrapper, reclaim, settle, pop_while, clearup}
use outbound.Congestion.PacketQueue.{remove_up_to}
use outbound.Congestion.PacketQueue.Coherent.{slots, IsCoherent}
use outbound.Congestion.PacketQueue.Trim.{no_elements, pop_while-IsCoherent, reclaim-IsCoherent}
use outbound.Congestion.PacketQueue.Trim.{settle-IsCoherent}
use outbound.Congestion.RingBuffer.Laws.Queue.{contents, length-contents, is_empty_iff}
use outbound.Congestion.PacketQueue.Survive.{Holds, found-Holds, Holds-found, remove_up_to_keeps}
use outbound.Congestion.PacketQueue.Drop.{behind, front, remove_up_to_drops}
use outbound.Congestion.RingBuffer.{len as ring_len}
use outbound.Congestion.RingBuffer.{is_empty as ring_is_empty}

module _ {A : Type 0} (zero_value : A) where
  module _ (n : ℕ) (x : EntryWrapper A) where
    -- What the queue holds behind the trims it held before.
    pop_while-was :
        (test : ℕ → EntryWrapper A → Bool) (fuel : ℕ) (q : PacketNumberIndexedQueue A)
        → IsCoherent q
        → Holds (pop_while zero_value test fuel q) n x
        → Holds q n x
    unfolding pop_while
    pop_while-was test zero q h = λ k. k
    pop_while-was test (suc fuel) q h = elim (front zero_value q h) [
      | inl (gone, e) ↦ rw (pop_while, e) (λ k. k)
      | inr (w, r, e, s, c) ↦ elim (Bool-cases (test q.first_packet w)) [
        | inl t ↦
            rw (pop_while, e, t)
              (λ k.
                let (positive, from, here, present) =
                  pop_while-was test fuel (behind zero_value q w r) c k in
                let step : n - q.first_packet ≡ suc (n - (q.first_packet + 1)) =
                  omega (arith, from) in
                (
                  positive,
                  omega (arith, from),
                  ap (λ ws. get_elem? ws (n - q.first_packet)) s
                      ∙ ap (get_elem? (w ∷ contents r)) step
                      ∙ here,
                  present,
                ))
        | inr t ↦ rw (pop_while, e, t) (λ k. k)
      ]
    ]

    settle-was :
        (q : PacketNumberIndexedQueue A)
        → IsCoherent q
        → Holds (settle zero_value q) n x
        → Holds q n x
    unfolding settle
    settle-was q h =
        if_cases (λ d. Holds (reclaim zero_value d) n x → Holds q n x) (ring_is_empty q.entries)
          {x = record q { first_packet = 0 }} {y = q}
          (λ t k.
            let d : PacketNumberIndexedQueue A = record q { first_packet = 0 } in
            let (c, same, first) = reclaim-IsCoherent zero_value d (record {
              valid = h.valid;
              counted = h.counted;
              bounded = h.bounded;
              room = h.room;
            }) in
            let gone : slots q ≡ [] = no_elements (slots q) (
              ground
                (arith, t, is_empty_iff q.entries h.valid, length-contents q.entries h.valid)) in
            absurd (
              ground (
                arith,
                sym (
                      ap (λ ws. get_elem? ws (n - (reclaim zero_value d).first_packet))
                        (same ∙ gone))
                    ∙ k.2,
              )))
          (λ t k.
            let (c, same, first) = reclaim-IsCoherent zero_value q h in
            (
              k.0,
              omega (arith, first, k.1),
              sym (ap₂ (λ ws i. get_elem? ws (n - i)) same first) ∙ k.2,
              k.3,
            ))

  -- The queue is coherent and has a first packet: `RemoveUpTo` removes the entries of the packets
  -- below its argument, and the entry of any other packet is found after it as before it.
  pub remove_up_to_lem :
      (q : PacketNumberIndexedQueue A) (m n : ℕ)
      → IsCoherent q
      → 0 < q.first_packet
      → get_entry_wrapper (remove_up_to zero_value q m) n
        ≡ (if ltb n m then none else get_entry_wrapper q n)
  unfolding remove_up_to clearup
  remove_up_to_lem q m n h positive =
      let below : ℕ → EntryWrapper A → Bool = λ first x. not (first == 0) && ltb first m in
      let absent : ℕ → EntryWrapper A → Bool = λ first x. not x.present in
      let d = pop_while zero_value below (ring_len q.entries) q in
      let c = pop_while-IsCoherent zero_value below (ring_len q.entries) q h in
      let d' = pop_while zero_value absent (ring_len d.entries) d in
      let c' = pop_while-IsCoherent zero_value absent (ring_len d.entries) d c in
      if_cases (λ o. get_entry_wrapper (remove_up_to zero_value q m) n ≡ o) (ltb n m)
        (λ t. remove_up_to_drops zero_value m q n h positive (ltb→lt n m t))
        (λ t. elim (Option-cases (get_entry_wrapper (settle zero_value d') n)) [
          | inl none_left ↦ elim (Option-cases (get_entry_wrapper q n)) [
            | inl none_before ↦ none_left ∙ sym none_before
            | inr (w, e) ↦ remove_up_to_keeps zero_value n w q m h e (ground (arith, t)) ∙ sym e
          ]
          | inr (w, e) ↦
              let held = pop_while-was n w below (ring_len q.entries) q h (
                pop_while-was n w absent (ring_len d.entries) d c (
                  settle-was n w d' c' (
                    Holds-found (settle zero_value d') n w (settle-IsCoherent zero_value d' c')
                      e))) in
              e ∙ sym (found-Holds q n w h held)
        ])
