-- ===== src/Congestion/Brutal/Tests.antt =====
-- Two events, six seconds apart, and one in between.
use outbound.Prelude.{ltb, ℕ, ◌*◌, ◌/◌, ◌≡◌, true, [], ◌∷◌, arith}
use outbound.Congestion.Brutal.{measured, BrutalSender, Floats, new_brutal_sender}
use outbound.Congestion.Brutal.{brutal_bandwidth, brutal_has_pacing_budget}
use outbound.Congestion.Brutal.{brutal_time_until_send, brutal_on_packet_sent, rate_of}
use outbound.Congestion.Brutal.Rate.{after_all, ack_rate_lem}
use outbound.Congestion.Brutal.Progress.{brutal_created, brutal_sent, brutal_progress}
use outbound.Congestion.Pacer.{new_pacer, max_burst_size, budget, sent_packet, time_until_send}

abbrev whole : Floats
whole = record {
  is_low = λ acks all. ltb (5 * acks) (4 * all);
  paced = λ bps rate. bps;
  window = λ bps rtt rate. 3 * bps * rtt / 1000000000;
  min_pacing_delay = 1000000;
  initial_packet_size = 1280;
}

-- the packets of second 20 are too old in second 26
ack_rate_lem_example :
    (after_all whole 1000000 ((26, 60, 4) ∷ (23, 30, 6) ∷ (20, 10, 90) ∷ [])).ack_rate
    ≡ measured 90 100
unfolding rate_of
ack_rate_lem_example =
    ack_rate_lem whole 1000000 26 60 4 ((23, 30, 6) ∷ (20, 10, 90) ∷ [])
      (
        omega arith,
        omega arith,
        omega arith,
        omega arith,
        (
          omega arith,
          omega arith,
          omega arith,
          omega arith,
          (omega arith, omega arith, omega arith, omega arith, tt),
        ),
      )
      (omega arith)

-- 1000 ns for each byte, at 1 MB/s
abbrev slow : ℕ → ℕ → ℕ
slow bytes bandwidth = 1000 * bytes

abbrev paused : BrutalSender
paused = brutal_on_packet_sent whole (new_brutal_sender whole 1000000) 5000000 12500

brutal_progress_example : brutal_has_pacing_budget whole paused 9000000 ≡ true
unfolding brutal_on_packet_sent new_brutal_sender sent_packet budget max_burst_size new_pacer
    brutal_bandwidth brutal_time_until_send time_until_send
brutal_progress_example =
    brutal_progress whole 1000000 paused slow 9000000 (brutal_sent brutal_created 5000000 12500)
      ((λ e. absurd (ground (arith, e))), omega arith, omega arith, omega arith, omega arith)
      (omega arith) (omega arith) (omega arith) (omega arith) (omega arith)
