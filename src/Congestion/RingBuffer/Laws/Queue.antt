-- ===== src/Congestion/RingBuffer/Laws/Queue.antt =====
-- Every operation of ringbuffer.go acts on the list of live elements as on a queue.
use outbound.Prelude.{ltb, leb, ◌==◌, Bool-cases, length, get_elem?, set, length-set, take}
use outbound.Prelude.{length-take, get_elem?-take, take-set_next, set-take, get_elem?_past, ℕ}
use outbound.Prelude.{suc, ◌+◌, ◌-◌, ◌%◌, ◌≤◌, ◌<◌, max, ◌≡◌, refl, sym, ap, ◌∙◌, inl, inr, true}
use outbound.Prelude.{◌||◌, some, List, [], ◌∷◌, ◌++◌, arith}
use outbound.Congestion.RingBuffer.{RingBuffer, capacity, len, is_empty, slot, offset, set_offset}
use outbound.Congestion.RingBuffer.{front, back, push_at_tail}
use outbound.Congestion.RingBuffer.Laws.Rotation.{rotate, length-rotate, get_elem?-rotate_near}
use outbound.Congestion.RingBuffer.Laws.Rotation.{get_elem?-rotate_far, set-rotate_near}
use outbound.Congestion.RingBuffer.Laws.Rotation.{set-rotate_far}
use native.Mathlib.Nat.{mod-eq_of_lt, mod-eq-sub-mod}

pub mod_near : (a n : ℕ) → a < n → a % n ≡ a
mod_near a n h = mod-eq_of_lt h

pub mod_far : (a n j : ℕ) → a ≡ n + j → j < n → a % n ≡ j
mod_far a n j e h =
    let back : a - n ≡ j = omega arith in
    mod-eq-sub-mod {n = a} {m = n} (omega arith) ∙ rw back (mod-eq_of_lt h)

module _ {ℓ} {A : Type ℓ} where
  -- The live elements, oldest first.
  abbrev pub contents : RingBuffer A → List A
  contents r = take (len r) (rotate r.head_pos r.ring)

  -- Both positions lie in the array (at 0 while it has no slot), and `full` marks the one case of
  -- equal positions that is not empty.
  pub record IsValid (r : RingBuffer A) : Type 0 where
    pub head_in : r.head_pos < max 1 (length r.ring)
    pub tail_in : r.tail_pos < max 1 (length r.ring)
    pub full_at : r.full ≡ true → (r.tail_pos ≡ r.head_pos) × (0 < length r.ring)

  pub len_le : (r : RingBuffer A) → IsValid r → len r ≤ length r.ring
  unfolding len
  len_le r v = ground arith

  pub length-contents : (r : RingBuffer A) → IsValid r → length (contents r) ≡ len r
  unfolding len
  length-contents r v = omega (
    arith,
    len_le r v,
    length-take (len r) (rotate r.head_pos r.ring),
    length-rotate r.head_pos r.ring,
  )

  pub is_empty_iff : (r : RingBuffer A) → IsValid r → is_empty r ≡ (len r == 0)
  unfolding is_empty len
  is_empty_iff r v = ground arith

  -- The array seen from the head, at the slot that `Offset` computes.
  get_elem?-slot :
      (r : RingBuffer A) (i : ℕ)
      → r.head_pos < length r.ring
      → i < length r.ring
      → get_elem? (rotate r.head_pos r.ring) i ≡ get_elem? r.ring (slot r i)
  get_elem?-slot r i h k = elim (Bool-cases (ltb (r.head_pos + i) (length r.ring))) [
    | inl e ↦
        rw (mod_near (r.head_pos + i) (length r.ring) (ground arith))
          (get_elem?-rotate_near r.head_pos i r.ring (ground arith))
    | inr e ↦
        let j = r.head_pos + i - length r.ring in
        rw (mod_far (r.head_pos + i) (length r.ring) j (ground arith) (ground arith))
          (get_elem?-rotate_far r.head_pos i j r.ring (omega arith) (ground arith) (ground arith))
  ]

  set-slot :
      (r : RingBuffer A) (i : ℕ) (v : A)
      → r.head_pos < length r.ring
      → i < length r.ring
      → set (rotate r.head_pos r.ring) i v ≡ rotate r.head_pos (set r.ring (slot r i) v)
  set-slot r i v h k = elim (Bool-cases (ltb (r.head_pos + i) (length r.ring))) [
    | inl e ↦
        rw (mod_near (r.head_pos + i) (length r.ring) (ground arith))
          (set-rotate_near r.head_pos i r.ring v (ground arith))
    | inr e ↦
        let j = r.head_pos + i - length r.ring in
        rw (mod_far (r.head_pos + i) (length r.ring) j (ground arith) (ground arith))
          (set-rotate_far r.head_pos i j r.ring v (omega arith) (ground arith) (ground arith))
  ]

  -- The slot behind the last live element is the tail.
  slot-len : (r : RingBuffer A) → IsValid r → len r < length r.ring → slot r (len r) ≡ r.tail_pos
  slot-len r v h = elim (Bool-cases (ltb (r.head_pos + len r) (length r.ring))) [
    | inl e ↦
        mod_near (r.head_pos + len r) (length r.ring) (ground arith) ∙ unfold len in ground arith
    | inr e ↦
        mod_far (r.head_pos + len r) (length r.ring) (r.head_pos + len r - length r.ring)
          (ground arith) (unfold len in ground arith)
        ∙ unfold len in ground arith
  ]

  in_range_iff :
      (r : RingBuffer A) (i : ℕ) → IsValid r → (is_empty r || leb (len r) i) ≡ leb (len r) i
  in_range_iff r i v = rw (is_empty_iff r v) (ground arith)

  get_elem?-contents :
      (r : RingBuffer A) (i : ℕ)
      → IsValid r
      → i < len r
      → get_elem? (contents r) i ≡ get_elem? r.ring (slot r i)
  get_elem?-contents r i v h =
      get_elem?-take (len r) (rotate r.head_pos r.ring) i h
      ∙ get_elem?-slot r i (omega (arith, len_le r v)) (omega (arith, len_le r v))

  -- Reading through `Offset` reads the list, and outside the list it panics.
  pub offset-contents :
      (r : RingBuffer A) (i : ℕ) → IsValid r → offset r i ≡ get_elem? (contents r) i
  unfolding offset
  offset-contents r i v = elim (Bool-cases (leb (len r) i)) [
    | inl e ↦
        rw (in_range_iff r i v, e)
          (sym (get_elem?_past (contents r) i (ground (arith, length-contents r v))))
    | inr e ↦ rw (in_range_iff r i v, e) (sym (get_elem?-contents r i v (ground arith)))
  ]

  len-set : (r : RingBuffer A) (i : ℕ) (x : A) → len (record r { ring = set r.ring i x }) ≡ len r
  unfolding len
  len-set r i x = rw (length-set r.ring i x)

  -- Writing through `Offset` writes the list.
  pub set_offset_lem :
      (r : RingBuffer A) (i : ℕ) (x : A)
      → IsValid r
      → i < len r
      → (r' : RingBuffer A) × (set_offset r i x ≡ some r')
        × IsValid r'
        × (contents r' ≡ set (contents r) i x)
        × (capacity r' ≡ capacity r)
  unfolding set_offset capacity
  set_offset_lem r i x v h = (
    record r { ring = set r.ring (slot r i) x },
    rw (in_range_iff r i v) (ground arith),
    ground (arith, length-set r.ring (slot r i) x),
    rw (len-set r (slot r i) x) (
        ap (take (len r))
          (sym (set-slot r i x (omega (arith, len_le r v)) (omega (arith, len_le r v))))
        ∙ sym (set-take (len r) (rotate r.head_pos r.ring) i x)),
    length-set r.ring (slot r i) x,
  )

  slot-zero : (r : RingBuffer A) → r.head_pos < length r.ring → slot r 0 ≡ r.head_pos
  slot-zero r h = mod_near (r.head_pos + 0) (length r.ring) (omega arith) ∙ omega arith

  pub front-contents : (r : RingBuffer A) → IsValid r → front r ≡ get_elem? (contents r) 0
  unfolding front
  front-contents r v = elim (Bool-cases (len r == 0)) [
    | inl e ↦
        rw (is_empty_iff r v, e)
          (sym (get_elem?_past (contents r) 0 (ground (arith, length-contents r v))))
    | inr e ↦
        rw (is_empty_iff r v, e)
          (ap (get_elem? r.ring) (sym (slot-zero r (ground (arith, len_le r v))))
            ∙ sym (get_elem?-contents r 0 v (ground arith)))
  ]

  pub back-contents :
      (r : RingBuffer A) → IsValid r → back r ≡ get_elem? (contents r) (length (contents r) - 1)
  unfolding back
  back-contents r v = elim (Bool-cases (len r == 0)) [
    | inl e ↦
        rw (is_empty_iff r v, e)
          (sym (
            get_elem?_past (contents r) (length (contents r) - 1)
              (ground (arith, length-contents r v))))
    | inr e ↦ rw (is_empty_iff r v, e, length-contents r v) (offset-contents r (len r - 1) v)
  ]

  pub len-push_at_tail :
      (r : RingBuffer A) (t : A)
      → IsValid r
      → len r < length r.ring
      → len (push_at_tail r t) ≡ suc (len r)
  unfolding push_at_tail len
  len-push_at_tail r t v h = ground (arith, length-set r.ring r.tail_pos t)

  pub push_at_tail-IsValid :
      (r : RingBuffer A) (t : A) → IsValid r → len r < length r.ring → IsValid (push_at_tail r t)
  unfolding push_at_tail len
  push_at_tail-IsValid r t v h = ground (arith, length-set r.ring r.tail_pos t)

  rotate-push_at_tail :
      (r : RingBuffer A) (t : A)
      → rotate (push_at_tail r t).head_pos (push_at_tail r t).ring
        ≡ rotate r.head_pos (set r.ring r.tail_pos t)
  unfolding push_at_tail
  rotate-push_at_tail r t = refl

  pub contents-push_at_tail :
      (r : RingBuffer A) (t : A)
      → IsValid r
      → len r < length r.ring
      → contents (push_at_tail r t) ≡ contents r ++ (t ∷ [])
  contents-push_at_tail r t v h =
      rw (rotate-push_at_tail r t, len-push_at_tail r t v h)
        (ap (λ k. take (suc (len r)) (rotate r.head_pos (set r.ring k t))) (sym (slot-len r v h))
          ∙ ap (take (suc (len r))) (sym (set-slot r (len r) t (omega arith) h))
          ∙ take-set_next (len r) (rotate r.head_pos r.ring) t
              (omega (arith, length-rotate r.head_pos r.ring)))

  pub push_at_tail_lem :
      (r : RingBuffer A) (t : A)
      → IsValid r
      → len r < length r.ring
      → IsValid (push_at_tail r t) × (contents (push_at_tail r t) ≡ contents r ++ (t ∷ []))
  push_at_tail_lem r t v h = (push_at_tail-IsValid r t v h, contents-push_at_tail r t v h)
