-- ===== src/Congestion/RingBuffer/Laws/Resize.antt =====
-- `grow`, `PushBack` and `PopFront` of ringbuffer.go on the list of live elements.
use outbound.Prelude.{◌==◌, if◌then◌else◌, Bool-cases, length, get_elem?, set, length-append}
use outbound.Prelude.{length-set, take, drop, replicate, length-take, length-drop}
use outbound.Prelude.{length-replicate, take-append_left, take_all, take-append_exact}
use outbound.Prelude.{get_elem?_of_lt, ℕ, suc, ◌+◌, ◌-◌, ◌*◌, ◌≤◌, ◌<◌, ◌≡◌, refl, sym, ap, ap₂}
use outbound.Prelude.{◌∙◌, inl, inr, false, ◌||◌, none, some, List, [], ◌∷◌, ◌++◌, append-nil}
use outbound.Prelude.{arith}
use outbound.Congestion.RingBuffer.{RingBuffer, len, grow, push_back, pop_front}
use outbound.Congestion.RingBuffer.Laws.Rotation.{rotate, length-rotate, rotate-length}
use outbound.Congestion.RingBuffer.Laws.Rotation.{rotate-step, copy-two}
use outbound.Congestion.RingBuffer.Laws.Queue.{contents, IsValid, len_le, length-contents}
use outbound.Congestion.RingBuffer.Laws.Queue.{is_empty_iff, push_at_tail-IsValid}
use outbound.Congestion.RingBuffer.Laws.Queue.{contents-push_at_tail, push_at_tail_lem}

module _ {ℓ} {A : Type ℓ} where
  -- An array that starts with the live elements holds them.
  pub contents_of_prefix :
      (r : RingBuffer A) (xs ys : List A)
      → r.head_pos ≡ 0
      → r.ring ≡ xs ++ ys
      → len r ≡ length xs
      → contents r ≡ xs
  contents_of_prefix r xs ys h e n =
      ap (λ k. take k (rotate r.head_pos r.ring)) n
      ∙ ap (λ k. take (length xs) (rotate k r.ring)) h
      ∙ ap (λ t. take (length xs) (t ++ [])) e
      ∙ ap (take (length xs)) (append-nil (xs ++ ys))
      ∙ take-append_exact (length xs) xs ys refl

module _ {ℓ} {A : Type ℓ} (z : A) where
  abbrev grown_size : RingBuffer A → ℕ
  grown_size r = if length r.ring * 2 == 0 then 1 else length r.ring * 2

  -- `grow` lays the array out from the head on, with fresh slots behind.
  ring-grow :
      (r : RingBuffer A)
      → IsValid r
      → (grow z r).ring ≡ rotate r.head_pos r.ring ++ replicate (grown_size r - length r.ring) z
  unfolding grow
  ring-grow r v =
      copy-two (grown_size r) (length r.ring - r.head_pos) z (drop r.head_pos r.ring)
        (take r.head_pos r.ring) (length-drop r.head_pos r.ring)
        (ground (arith, length-take r.head_pos r.ring))
      ∙ ap (λ k. rotate r.head_pos r.ring ++ replicate k z)
          (ground (arith, length-take r.head_pos r.ring))

  length-grow : (r : RingBuffer A) → IsValid r → length (grow z r).ring ≡ grown_size r
  length-grow r v = rw (ring-grow r v) (
      ground (
        arith,
        length-append (rotate r.head_pos r.ring) (replicate (grown_size r - length r.ring) z),
        length-rotate r.head_pos r.ring,
        length-replicate (grown_size r - length r.ring) z,
      ))

  grow-IsValid : (r : RingBuffer A) → IsValid r → IsValid (grow z r)
  grow-IsValid r v = record {
    head_in = unfold grow in ground arith;
    tail_in = unfold grow in ground (arith, length-grow r v);
    full_at = unfold grow in (λ e. cc);
  }

  len-grow : (r : RingBuffer A) → len (grow z r) ≡ length r.ring
  unfolding len grow
  len-grow r = ground arith

  -- Growth of a full array keeps the live elements in order.
  contents-grow :
      (r : RingBuffer A) → IsValid r → len r ≡ length r.ring → contents (grow z r) ≡ contents r
  contents-grow r v e =
      contents_of_prefix (grow z r) (rotate r.head_pos r.ring) _ (unfold grow in refl)
        (ring-grow r v) (len-grow r ∙ sym (length-rotate r.head_pos r.ring))
      ∙ sym (
          take_all (len r) (rotate r.head_pos r.ring)
            (omega (arith, length-rotate r.head_pos r.ring)))

  room-grow : (r : RingBuffer A) → IsValid r → len (grow z r) < length (grow z r).ring
  room-grow r v = ground (arith, len-grow r, length-grow r v)

  -- `PushBack` appends, growing the array first where it has no room.
  pub push_back_lem :
      (r : RingBuffer A) (t : A)
      → IsValid r
      → IsValid (push_back z r t) × (contents (push_back z r t) ≡ contents r ++ (t ∷ []))
  unfolding push_back
  push_back_lem r t v = elim (Bool-cases (r.full || length r.ring == 0)) [
    | inl e ↦ rw e (
      push_at_tail-IsValid (grow z r) t (grow-IsValid r v) (room-grow r v),
      contents-push_at_tail (grow z r) t (grow-IsValid r v) (room-grow r v)
          ∙ ap (λ s. s ++ (t ∷ [])) (contents-grow r v (unfold len in ground arith)),
    )
    | inr e ↦ rw e (push_at_tail_lem r t v (unfold len in ground arith))
  ]

  -- the state that `PopFront` leaves
  abbrev popped : RingBuffer A → RingBuffer A
  popped r = record r {
    ring = set r.ring r.head_pos z;
    head_pos = if r.head_pos + 1 == length r.ring then 0 else r.head_pos + 1;
    full = false;
  }

  popped-IsValid : (r : RingBuffer A) → IsValid r → 0 < len r → IsValid (popped r)
  unfolding len
  popped-IsValid r v h = ground (arith, length-set r.ring r.head_pos z)

  len-popped : (r : RingBuffer A) → IsValid r → 0 < len r → len (popped r) ≡ len r - 1
  unfolding len
  len-popped r v h = ground (arith, length-set r.ring r.head_pos z)

  -- Wherever the head goes round, the array from the new head on is the old one less its first.
  rotate-popped :
      (r : RingBuffer A)
      → r.head_pos < length r.ring
      → rotate (popped r).head_pos (popped r).ring
        ≡ rotate (suc r.head_pos) (set r.ring r.head_pos z)
  rotate-popped r h = elim (Bool-cases (r.head_pos + 1 == length r.ring)) [
    | inl e ↦ rw e (
        sym (rotate-length (set r.ring r.head_pos z))
        ∙ ap (λ k. rotate k (set r.ring r.head_pos z)) {y = suc r.head_pos}
            (ground (arith, length-set r.ring r.head_pos z)))
    | inr e ↦ rw e (ap (λ k. rotate k (set r.ring r.head_pos z)) {y = suc r.head_pos} (omega arith))
  ]

  -- `PopFront` panics on the empty buffer.
  pub pop_front_empty : (r : RingBuffer A) → IsValid r → contents r ≡ [] → pop_front z r ≡ none
  unfolding pop_front
  pop_front_empty r v e = ground (arith, is_empty_iff r v, length-contents r v, ap length e)

  contents-popped :
      (r : RingBuffer A) (x : A)
      → IsValid r
      → 0 < len r
      → get_elem? r.ring r.head_pos ≡ some x
      → contents r ≡ x ∷ contents (popped r)
  contents-popped r x v h e =
      let h' : r.head_pos < length r.ring = omega (arith, len_le r v) in
      let rest : List A = drop (suc r.head_pos) r.ring ++ take r.head_pos r.ring in
      let (before, after) = rotate-step r.head_pos r.ring x z e h' in
      let n : len r ≡ suc (len r - 1) = omega arith in
      let fits : len r - 1 ≤ length rest =
        omega (arith, len_le r v, ap length before, length-rotate r.head_pos r.ring) in
      ap₂ take n before
      ∙ ap (λ t. x ∷ t)
          (sym (take-append_left (len r - 1) rest (z ∷ []) fits)
            ∙ ap₂ take (sym (len-popped r v h)) (sym (rotate-popped r h' ∙ after)))

  -- On a buffer that is not empty, `PopFront` returns the oldest element and leaves the others in
  -- their order.
  pub pop_front_lem :
      (r : RingBuffer A)
      → IsValid r
      → 0 < len r
      → (x : A) × (r' : RingBuffer A) × (pop_front z r ≡ some (x, r'))
        × IsValid r'
        × (contents r ≡ x ∷ contents r')
  unfolding pop_front
  pop_front_lem r v h =
      let (x, e) = get_elem?_of_lt r.ring r.head_pos (omega (arith, len_le r v)) in
      (
        x,
        popped r,
        rw (is_empty_iff r v, e) (ground arith),
        popped-IsValid r v h,
        contents-popped r x v h e,
      )
