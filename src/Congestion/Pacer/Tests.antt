-- ===== src/Congestion/Pacer/Tests.antt =====
-- A pacer of 1 MB/s that has sent a packet and has 200 bytes left.
use outbound.Prelude.{ℕ, ◌+◌, ◌*◌, ◌≤◌, ◌≡◌, false, [], ◌∷◌, arith}
use outbound.Congestion.Words.{less}
use outbound.Congestion.Pacer.{Pacer, max_burst_size, grown_budget, budget, sent_packet}
use outbound.Congestion.Pacer.{time_until_send}
use outbound.Congestion.Pacer.Laws.{worth, pacer_progress, send_all, pacer_rate}

abbrev low : Pacer
low = record { budget_at_last_sent = 200; max_datagram_size = 1200; last_sent_time = 5000000 }

-- 1000 ns for each byte
abbrev slow : ℕ → ℕ → ℕ
slow bytes bandwidth = 1000 * bytes

pacer_progress_example : less (budget 1000000 low 1000000 6000000) low.max_datagram_size ≡ false
unfolding time_until_send
pacer_progress_example =
    pacer_progress 1000000 slow low 1000000 6000000
      ((λ e. absurd (ground (arith, e))), omega arith, omega arith, omega arith, omega arith)
      (omega arith) (omega arith) (omega arith) (omega arith) (omega arith)

pacer_rate_example :
    let q = send_all 1000000 low 1000000 ((6000000, 1200) ∷ (7000000, 1000) ∷ []) in
    (q.budget_at_last_sent + 2200 ≤ 200 + worth 1000000 5000000 q.last_sent_time)
    × (5000000 ≤ q.last_sent_time)
unfolding sent_packet budget max_burst_size grown_budget
pacer_rate_example = pacer_rate 1000000 low 1000000 ((6000000, 1200) ∷ (7000000, 1000) ∷ []) (
  ((λ e. absurd (ground (arith, e))), omega arith, omega arith, omega arith, omega arith),
  omega arith,
  omega arith,
  (
    ((λ e. absurd (ground (arith, e))), omega arith, omega arith, omega arith, omega arith),
    omega arith,
    omega arith,
    tt,
  ),
)
