-- ===== src/Congestion/Sampler/Tracker/Tests.antt =====
-- An epoch of 1500 bytes, at 8 Gbit/s.
use outbound.Prelude.{ℕ, ◌+◌, ◌<◌, ◌≡◌, refl, false, arith}
use outbound.Congestion.WindowedFilter.{new_windowed_filter}
use outbound.Congestion.WindowedFilter.Laws.{IsOrdered}
use outbound.Congestion.Sampler.Tracker.{bytes_from_bandwidth_and_time_delta, height}
use outbound.Congestion.Sampler.Tracker.{MaxAckHeightTracker, AckEvent}
use outbound.Congestion.Sampler.Tracker.{new_max_ack_height_tracker, forces_new_epoch}
use outbound.Congestion.Sampler.Tracker.{update_height}
use outbound.Congestion.Sampler.Tracker.Laws.{Extends, update_height_lem, update_overflow}

-- the threshold 1.0
abbrev same_count : Unit {0} → ℕ → ℕ
same_count t x = x

abbrev begun : MaxAckHeightTracker (Unit {0})
begun = record (new_max_ack_height_tracker tt 10) {
  aggregation_epoch_start_time = 50;
  aggregation_epoch_bytes = 1500;
}

abbrev later_ack : ℕ → AckEvent
later_ack delta = record {
  round_trip_count = 3;
  last_sent_packet_number = 9;
  last_acked_packet_number = 4;
  ack_time = 50 + delta;
  bytes_acked = 1200;
}

begun-IsOrdered : IsOrdered height 0 begun.max_ack_height_filter
unfolding new_max_ack_height_tracker new_windowed_filter
begun-IsOrdered = record {
  first_two = omega arith;
  last_two = omega arith;
  older_first = omega arith;
  older_second = omega arith;
  not_future = omega arith;
}

begun_unforced : (delta : ℕ) → forces_new_epoch begun (later_ack delta) ≡ false
unfolding forces_new_epoch new_max_ack_height_tracker
begun_unforced delta = refl

-- a microsecond later: 1000 bytes are expected
update_height_lem_example :
    Extends same_count begun 1000
      (later_ack 1000)
      (update_height same_count begun 8000000000 false (later_ack 1000))
unfolding new_max_ack_height_tracker
update_height_lem_example =
    update_height_lem same_count begun 8000000000 1000 0 (later_ack 1000) (omega arith)
      (omega arith) begun-IsOrdered (omega arith) (begun_unforced 1000) (omega arith) refl
      (omega arith) (omega arith) (omega arith)

-- 1.2 seconds later: more than a gigabyte is expected, and 1.2 seconds are 9600000000000000000
update_overflow_example :
    let after = update_height same_count begun 8000000000 false (later_ack 1200000000) in
    (after.0.aggregation_epoch_bytes ≡ 2700) × (2700 < after.1)
unfolding new_max_ack_height_tracker bytes_from_bandwidth_and_time_delta
update_overflow_example =
    update_overflow same_count begun 8000000000 1200000000 (later_ack 1200000000) (omega arith)
      (omega arith) (begun_unforced 1200000000) (omega arith) refl (omega arith) (omega arith)
      (omega arith) (omega arith)
