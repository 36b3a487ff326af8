-- ===== src/Congestion/RingBuffer/Tests.antt =====
-- Concrete ring buffers.
use outbound.Prelude.{ltb, leb, if◌then◌else◌, ℕ, ◌≡◌, refl, true, false, ◌&&◌, some, [], ◌∷◌}
use outbound.Prelude.{◌++◌, arith}
use outbound.Congestion.RingBuffer.{RingBuffer, capacity, len, push_at_tail, init, shrink_to}
use outbound.Congestion.RingBuffer.{grow, push_back, pop_front}
use outbound.Congestion.RingBuffer.Laws.Queue.{contents, IsValid}
use outbound.Congestion.RingBuffer.Laws.Resize.{push_back_lem, pop_front_lem}
use outbound.Congestion.RingBuffer.Laws.Shrink.{shrink_to_lem}

-- Two elements around the end of an array of three.
abbrev wrapped : RingBuffer ℕ
wrapped = record { ring = 7 ∷ 8 ∷ 9 ∷ []; head_pos = 2; tail_pos = 1; full = false }

wrapped-IsValid : IsValid wrapped
wrapped-IsValid = record {
  head_in = omega arith;
  tail_in = omega arith;
  full_at = λ h. ground (arith, h);
}

-- A full array of two.
abbrev packed : RingBuffer ℕ
packed = record { ring = 5 ∷ 6 ∷ []; head_pos = 1; tail_pos = 1; full = true }

packed-IsValid : IsValid packed
packed-IsValid = record {
  head_in = omega arith;
  tail_in = omega arith;
  full_at = λ h. (refl, omega arith);
}

len-wrapped : len wrapped ≡ 2
unfolding len
len-wrapped = refl

push_twice : contents (push_back 0 (push_back 0 packed 7) 8) ≡ 6 ∷ 5 ∷ 7 ∷ 8 ∷ []
unfolding push_back push_at_tail len init grow capacity
push_twice = refl

push_back_lem_example :
    IsValid (push_back 0 packed 7) × (contents (push_back 0 packed 7) ≡ contents packed ++ (7 ∷ []))
push_back_lem_example = push_back_lem 0 packed 7 packed-IsValid

pop_front_lem_example :
    (x : ℕ) × (r' : RingBuffer ℕ) × (pop_front 0 wrapped ≡ some (x, r'))
    × IsValid r'
    × (contents wrapped ≡ x ∷ contents r')
unfolding len
pop_front_lem_example = pop_front_lem 0 wrapped wrapped-IsValid (omega arith)

shrink_to_lem_example :
    IsValid (shrink_to 0 wrapped 2)
    × (contents (shrink_to 0 wrapped 2) ≡ contents wrapped)
    × (capacity (shrink_to 0 wrapped 2) ≡ (
        if ltb 0 2 && leb (len wrapped) 2 && ltb 2 (capacity wrapped) then 2 else capacity wrapped))
shrink_to_lem_example = shrink_to_lem 0 wrapped 2 wrapped-IsValid
