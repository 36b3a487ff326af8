-- ===== src/Congestion/PacketQueue/Survive.antt =====
-- Entries of packet_number_indexed_queue.go that stay where they are.
use outbound.Prelude.{ltb, leb, ◌==◌, Bool-cases, length, get_elem?, ℕ, zero, suc, ◌+◌, ◌-◌, ◌≤◌}
use outbound.Prelude.{◌<◌, ◌≡◌, refl, sym, ap, ◌∙◌, inl, inr, Bool, true, false, ◌&&◌, ◌||◌, not}
use outbound.Prelude.{some, List, [], ◌∷◌, arith}
use outbound.Congestion.PacketQueue.{EntryWrapper, PacketNumberIndexedQueue, is_empty}
use outbound.Congestion.PacketQueue.{get_entry_wrapper, without, blank, reclaim, settle}
use outbound.Congestion.PacketQueue.{pop_while, clearup, drop_consumed_front, remove_up_to}
use outbound.Congestion.PacketQueue.Coherent.{slots, present_count, IsCoherent}
use outbound.Congestion.PacketQueue.Trim.{pop_while-IsCoherent, reclaim-IsCoherent}
use outbound.Congestion.PacketQueue.Trim.{settle-IsCoherent}
use outbound.Congestion.PacketQueue.Remove.{found_slot}
use outbound.Congestion.RingBuffer.Laws.Queue.{contents, IsValid, length-contents, is_empty_iff}
use outbound.Congestion.RingBuffer.Laws.Queue.{offset-contents}
use outbound.Congestion.RingBuffer.Laws.Resize.{pop_front_lem}
use mathlib.Core.Path.{subst}
use outbound.Congestion.RingBuffer.{len as ring_len}
use outbound.Congestion.RingBuffer.{is_empty as ring_is_empty}

module _ {A : Type 0} where
  -- The slot of packet `n` is `w`, a present one.
  abbrev pub Holds : PacketNumberIndexedQueue A → ℕ → EntryWrapper A → Type 0
  Holds q n w =
      (0 < n)
      × (q.first_packet ≤ n)
      × (get_elem? (slots q) (n - q.first_packet) ≡ some w)
      × (w.present ≡ true)

  get_elem?_inside :
      (ws : List (EntryWrapper A)) (i : ℕ) (w : EntryWrapper A)
      → get_elem? ws i ≡ some w
      → i < length ws
  get_elem?_inside [] i w h = absurd (ground (arith, h))
  get_elem?_inside (x ∷ ws) zero w h = omega arith
  get_elem?_inside (x ∷ ws) (suc i) w h = omega (arith, get_elem?_inside ws i w h)

  some_present :
      (ws : List (EntryWrapper A)) (i : ℕ) (w : EntryWrapper A)
      → get_elem? ws i ≡ some w
      → w.present ≡ true
      → 0 < present_count ws
  unfolding present_count
  some_present [] i w h p = absurd (ground (arith, h))
  some_present (x ∷ ws) zero w h p = ground (arith, h, p)
  some_present (x ∷ ws) (suc i) w h p = ground (arith, some_present ws i w h p)

  pub found-Holds :
      (q : PacketNumberIndexedQueue A) (n : ℕ) (w : EntryWrapper A)
      → IsCoherent q
      → Holds q n w
      → get_entry_wrapper q n ≡ some w
  unfolding get_entry_wrapper is_empty
  found-Holds q n w h (positive, from, here, present) =
      let i = n - q.first_packet in
      let inside = get_elem?_inside (slots q) i w here in
      let count = some_present (slots q) i w here present in
      let a : (n == 0) ≡ false = ground (arith, positive) in
      let b : (q.number_of_present_entries == 0) ≡ false = ground (arith, count, h.counted) in
      let c : ltb n q.first_packet ≡ false = ground (arith, from) in
      let d : leb (ring_len q.entries) i ≡ false =
        ground (arith, inside, length-contents q.entries h.valid) in
      rw (a, b, c, d, offset-contents q.entries i h.valid, here, present) refl

  pub Holds-found :
      (q : PacketNumberIndexedQueue A) (n : ℕ) (w : EntryWrapper A)
      → IsCoherent q
      → get_entry_wrapper q n ≡ some w
      → Holds q n w
  unfolding get_entry_wrapper
  Holds-found q n w h e =
      let (read, present, inside) = found_slot q n w e in
      (
        ground (arith, e),
        ground (arith, e),
        sym (offset-contents q.entries (n - q.first_packet) h.valid) ∙ read,
        present,
      )

  behind_front :
      (test : EntryWrapper A → Bool) (ws : List (EntryWrapper A)) (i : ℕ) (x w : EntryWrapper A)
      → get_elem? (x ∷ ws) i ≡ some w
      → test x ≡ true
      → (i ≡ 0 → test w ≡ false)
      → (0 < i) × (get_elem? ws (i - 1) ≡ some w)
  behind_front test ws zero x w h t f = absurd (ground (arith, h, t, f refl))
  behind_front test ws (suc i) x w h t f = (omega arith, ap (get_elem? ws) (omega arith) ∙ h)

module _ {A : Type 0} (zero_value : A) (n : ℕ) (w : EntryWrapper A) where
  pop_while-Holds :
      (test : ℕ → EntryWrapper A → Bool) (fuel : ℕ) (q : PacketNumberIndexedQueue A)
      → IsValid q.entries
      → test n w ≡ false
      → Holds q n w
      → Holds (pop_while zero_value test fuel q) n w
  unfolding pop_while
  pop_while-Holds test zero q v stop h = h
  pop_while-Holds test (suc fuel) q v stop h =
      let b : EntryWrapper A = blank zero_value in
      let inside = get_elem?_inside (slots q) (n - q.first_packet) w h.2 in
      let (x, r, eq, v', s) =
        pop_front_lem b q.entries v (omega (arith, inside, length-contents q.entries v)) in
      let q' : PacketNumberIndexedQueue A = record q {
        entries = r;
        number_of_present_entries = without x q.number_of_present_entries;
        first_packet = q.first_packet + 1;
      } in
      elim (Bool-cases (test q.first_packet x)) [
        | inl t ↦
            let i = n - q.first_packet in
            let (later, there) =
              behind_front (test q.first_packet) (contents r) i x w
                (ap (λ ws. get_elem? ws i) (sym s) ∙ h.2) t
                (λ z. subst (λ k. test k w ≡ false) (omega (arith, z, h.1)) stop) in
            let moved : Holds q' n w = (
              h.0,
              omega (arith, h.1, later),
              ap (get_elem? (contents r)) (omega (arith, later)) ∙ there,
              h.3,
            ) in
            rw (pop_while, eq, t) (pop_while-Holds test fuel q' v' stop moved)
        | inr t ↦ rw (pop_while, eq, t) h
      ]

  reclaim-Holds :
      (q : PacketNumberIndexedQueue A)
      → IsCoherent q
      → Holds q n w
      → Holds (reclaim zero_value q) n w
  reclaim-Holds q h k =
      let (c, same, first) = reclaim-IsCoherent zero_value q h in rw (first, same) k

  settle-Holds :
      (q : PacketNumberIndexedQueue A)
      → IsCoherent q
      → Holds q n w
      → Holds (settle zero_value q) n w
  unfolding settle
  settle-Holds q h k =
      let inside = get_elem?_inside (slots q) (n - q.first_packet) w k.2 in
      let some_left : ring_is_empty q.entries ≡ false =
        is_empty_iff q.entries h.valid
        ∙ ground (arith, inside, length-contents q.entries h.valid) in
      rw some_left (reclaim-Holds q h k)

  -- A packet whose entry `GetEntry` finds keeps it in `DropConsumedFront`, unless the test says that
  -- the entry is consumed.
  pub drop_consumed_front_keeps :
      (q : PacketNumberIndexedQueue A) (is_consumed : A → Bool)
      → IsCoherent q
      → get_entry_wrapper q n ≡ some w
      → is_consumed w.entry ≡ false
      → get_entry_wrapper (drop_consumed_front zero_value q is_consumed).0 n ≡ some w
  unfolding drop_consumed_front
  drop_consumed_front_keeps q is_consumed h e live =
      let test : ℕ → EntryWrapper A → Bool = λ first w. not w.present || is_consumed w.entry in
      let k = Holds-found q n w h e in
      let d = pop_while zero_value test (ring_len q.entries) q in
      let c = pop_while-IsCoherent zero_value test (ring_len q.entries) q h in
      found-Holds (settle zero_value d) n w (settle-IsCoherent zero_value d c) (
        settle-Holds d c
          (pop_while-Holds test (ring_len q.entries) q h.valid (rw (k.3, live) refl) k))

  -- A packet whose entry `GetEntry` finds keeps it in `RemoveUpTo` a number that is not greater.
  pub remove_up_to_keeps :
      (q : PacketNumberIndexedQueue A) (m : ℕ)
      → IsCoherent q
      → get_entry_wrapper q n ≡ some w
      → m ≤ n
      → get_entry_wrapper (remove_up_to zero_value q m) n ≡ some w
  unfolding remove_up_to clearup
  remove_up_to_keeps q m h e le =
      let below : ℕ → EntryWrapper A → Bool = λ first x. not (first == 0) && ltb first m in
      let absent : ℕ → EntryWrapper A → Bool = λ first x. not x.present in
      let k = Holds-found q n w h e in
      let d = pop_while zero_value below (ring_len q.entries) q in
      let c = pop_while-IsCoherent zero_value below (ring_len q.entries) q h in
      let l = pop_while-Holds below (ring_len q.entries) q h.valid (ground (arith, le)) k in
      let d' = pop_while zero_value absent (ring_len d.entries) d in
      let c' = pop_while-IsCoherent zero_value absent (ring_len d.entries) d c in
      found-Holds (settle zero_value d') n w (settle-IsCoherent zero_value d' c')
        (settle-Holds d' c' (pop_while-Holds absent (ring_len d.entries) d c.valid (rw k.3 refl) l))
