-- ===== src/Congestion/RingBuffer/Laws/Shrink.antt =====
-- `ShrinkTo`, `Init` and `Clear` of ringbuffer.go on the list of live elements.
use outbound.Prelude.{ltb, leb, ◌==◌, if◌then◌else◌, Bool-cases, length, length-append, take}
use outbound.Prelude.{drop, replicate, length-take, length-drop, length-replicate}
use outbound.Prelude.{take-append_left, take-append_past, take-take_le, ℕ, ◌+◌, ◌-◌, ◌%◌, ◌≤◌}
use outbound.Prelude.{◌<◌, min, ◌≡◌, refl, sym, ap, ap₂, ◌∙◌, ◌⊎◌, inl, inr, false, ◌&&◌, ◌||◌}
use outbound.Prelude.{List, [], ◌++◌, arith}
use outbound.Congestion.RingBuffer.{RingBuffer, capacity, len, init, shrunk, shrink_to, clear}
use outbound.Congestion.RingBuffer.Laws.Rotation.{copy-replicate, copy-two}
use outbound.Congestion.RingBuffer.Laws.Queue.{mod_near, mod_far, contents, IsValid, len_le}
use outbound.Congestion.RingBuffer.Laws.Queue.{length-contents}
use outbound.Congestion.RingBuffer.Laws.Resize.{contents_of_prefix}

tail_of : (k n : ℕ) → 0 < n → k ≤ n → (k % n ≡ (if k == n then 0 else k))
tail_of k n p h = elim (Bool-cases (k == n)) [
  | inl e ↦ rw e (ap (λ t. t % n) (ground arith) ∙ mod_far n n 0 (omega arith) p)
  | inr e ↦ rw e (mod_near k n (ground arith))
]

module _ {ℓ} {A : Type ℓ} where
  -- the state that `ShrinkTo` leaves, over any array
  abbrev anchored : List A → ℕ → RingBuffer A
  anchored ring k = record {
    ring = ring;
    head_pos = 0;
    tail_pos = k % length ring;
    full = k == length ring;
  }

  len-anchored :
      (ring : List A) (k : ℕ) → 0 < length ring → k ≤ length ring → len (anchored ring k) ≡ k
  unfolding len
  len-anchored ring k p h = ground (arith, tail_of k (length ring) p h)

  anchored-IsValid :
      (ring : List A) (k : ℕ) → 0 < length ring → k ≤ length ring → IsValid (anchored ring k)
  anchored-IsValid ring k p h = ground (arith, tail_of k (length ring) p h)

module _ {ℓ} {A : Type ℓ} (z : A) where
  -- Both ways to copy lay out the live elements, then fresh slots.
  shrunk_lem :
      (r : RingBuffer A) (size : ℕ)
      → IsValid r
      → len r ≤ size
      → shrunk z r (len r) size ≡ contents r ++ replicate (size - len r) z
  shrunk_lem r size v h = elim (Bool-cases (leb (r.head_pos + len r) (length r.ring))) [
    | inl e ↦
        let first : List A = drop r.head_pos r.ring in
        let n : length (take (len r) first) ≡ len r =
          ground (arith, length-take (len r) first, length-drop r.head_pos r.ring) in
        rw e (
          copy-replicate size z (take (len r) first) (omega arith)
          ∙ ap₂ (λ s k. s ++ replicate (size - k) z)
              (sym (
                take-append_left (len r) first (take r.head_pos r.ring)
                  (ground (arith, length-drop r.head_pos r.ring))))
              n)
    | inr e ↦
        let first : List A = drop r.head_pos r.ring in
        let m : ℕ = len r - length first in
        let far : length r.ring < r.head_pos + len r = ground arith in
        let n : min size (length first) ≡ length first =
          omega (arith, length-drop r.head_pos r.ring) in
        let k : length (take m r.ring) ≡ m =
          omega (arith, length-take m r.ring, length-drop r.head_pos r.ring, len_le r v) in
        let q : size - length first - length (take m r.ring) ≡ size - len r =
          omega (arith, length-drop r.head_pos r.ring) in
        rw (e, n)
          (copy-two size (length first) z first (take m r.ring) refl
              (omega (arith, length-drop r.head_pos r.ring))
            ∙ ap₂ (λ s j. s ++ replicate j z)
                (ap (λ t. first ++ t)
                    (sym (
                      take-take_le m r.head_pos r.ring
                        (omega (arith, length-drop r.head_pos r.ring, len_le r v))))
                  ∙ sym (
                      take-append_past (len r) first (take r.head_pos r.ring)
                        (omega (arith, length-drop r.head_pos r.ring))))
                q)
  ]

  -- the array that `ShrinkTo` allocates
  abbrev shrunk_ring : RingBuffer A → ℕ → List A
  shrunk_ring r size = if ltb 0 (len r) then shrunk z r (len r) size else replicate size z

  shrunk_ring_lem :
      (r : RingBuffer A) (size : ℕ)
      → IsValid r
      → len r ≤ size
      → shrunk_ring r size ≡ contents r ++ replicate (size - len r) z
  shrunk_ring_lem r size v h = elim (Bool-cases (ltb 0 (len r))) [
    | inl e ↦ rw e (shrunk_lem r size v h)
    | inr e ↦ let n : len r ≡ 0 = ground arith in rw (e, n) (ap (λ k. replicate k z) (omega arith))
  ]

  length-shrunk_ring :
      (r : RingBuffer A) (size : ℕ) → IsValid r → len r ≤ size → length (shrunk_ring r size) ≡ size
  length-shrunk_ring r size v h =
      ap length (shrunk_ring_lem r size v h)
      ∙ omega (
        arith,
        length-append (contents r) (replicate (size - len r) z),
        length-contents r v,
        length-replicate (size - len r) z,
      )

  shrink_to_taken :
      (r : RingBuffer A) (size : ℕ)
      → 0 < size
      → len r ≤ size
      → size < length r.ring
      → IsValid r
      → shrink_to z r size ≡ anchored (shrunk_ring r size) (len r)
  unfolding shrink_to
  shrink_to_taken r size p h k v =
      let off : (ltb size 1 || ltb size (len r) || leb (length r.ring) size) ≡ false =
        ground arith in
      rw (off, length-shrunk_ring r size v h)

  shrink_to_skipped :
      (r : RingBuffer A) (size : ℕ)
      → (size < 1) ⊎ ((size < len r) ⊎ (length r.ring ≤ size))
      → shrink_to z r size ≡ r
  unfolding shrink_to
  shrink_to_skipped r size h = ground arith

  -- `ShrinkTo` keeps the live elements in order, and the capacity becomes `size` exactly where
  -- `size` is at least 1, holds the live elements and is below the capacity.
  pub shrink_to_lem :
      (r : RingBuffer A) (size : ℕ)
      → IsValid r
      → IsValid (shrink_to z r size)
        × (contents (shrink_to z r size) ≡ contents r)
        × (capacity (shrink_to z r size) ≡ (
            if ltb 0 size && leb (len r) size && ltb size (capacity r) then size else capacity r))
  unfolding capacity
  shrink_to_lem r size v =
      elim (Bool-cases (ltb 0 size && leb (len r) size && ltb size (length r.ring))) [
        | inl e ↦
            let p : 0 < size = ground arith in
            let h : len r ≤ size = ground arith in
            let n : length (shrunk_ring r size) ≡ size = length-shrunk_ring r size v h in
            let k : len (anchored (shrunk_ring r size) (len r)) ≡ len r =
              len-anchored (shrunk_ring r size) (len r) (omega arith) (omega arith) in
            rw (shrink_to_taken r size p h (ground arith) v, e)
              (
                anchored-IsValid (shrunk_ring r size) (len r) (omega arith) (omega arith),
                contents_of_prefix (anchored (shrunk_ring r size) (len r)) (contents r) _ refl
                    (shrunk_ring_lem r size v h) (k ∙ sym (length-contents r v)),
                n,
              )
        | inr e ↦ rw (shrink_to_skipped r size (ground arith), e) (v, refl, refl)
      ]

  -- `Init` and `Clear` leave a valid empty buffer; `Clear` keeps the capacity.
  pub init_lem :
      (size : ℕ)
      → IsValid (init z size) × (contents (init z size) ≡ []) × (capacity (init z size) ≡ size)
  unfolding init len capacity
  init_lem size = (ground (arith, length-replicate size z), refl, length-replicate size z)

  pub clear_lem :
      (r : RingBuffer A)
      → IsValid (clear z r) × (contents (clear z r) ≡ []) × (capacity (clear z r) ≡ capacity r)
  unfolding clear len capacity
  clear_lem r =
      (ground (arith, length-replicate (length r.ring) z), refl, length-replicate (length r.ring) z)
