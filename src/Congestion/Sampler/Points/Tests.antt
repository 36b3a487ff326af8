-- ===== src/Congestion/Sampler/Points/Tests.antt =====
-- Three candidates.
use outbound.Prelude.{ℕ, ◌≡◌, refl, true, some, [], ◌∷◌, arith}
use outbound.Congestion.RingBuffer.Laws.Queue.{contents, IsValid}
use outbound.Congestion.Sampler.Points.{AckPoint, pop_shrinking, first_beyond, choose_a0_point}
use outbound.Congestion.Sampler.Points.Choice.{Promised, choose_a0_point_lem}
use outbound.Congestion.RingBuffer.{RingBuffer, len, is_empty, offset, pop_front}

abbrev point : ℕ → ℕ → AckPoint
point t total = record { ack_time = t; total_bytes_acked = total }

abbrev candidates : RingBuffer AckPoint
candidates = record {
  ring = point 10 100 ∷ point 20 200 ∷ point 30 300 ∷ [];
  head_pos = 0;
  tail_pos = 0;
  full = true;
}

candidates-IsValid : IsValid candidates
candidates-IsValid = record {
  head_in = omega arith;
  tail_in = omega arith;
  full_at = λ h. (refl, omega arith);
}

-- The second one is the last that is not beyond 250, and becomes the front.
second_chosen : (choose_a0_point candidates 250).0 ≡ some (point 20 200)
unfolding choose_a0_point first_beyond is_empty len offset
second_chosen = refl

-- The last one is chosen for 400, and two candidates are left.
two_left : contents (choose_a0_point candidates 400).1 ≡ point 20 200 ∷ point 30 300 ∷ []
unfolding choose_a0_point first_beyond is_empty len offset pop_shrinking pop_front
two_left = refl

choose_a0_point_lem_example : Promised (contents candidates) 400 (choose_a0_point candidates 400)
unfolding len
choose_a0_point_lem_example = choose_a0_point_lem candidates 400 candidates-IsValid (omega arith)
