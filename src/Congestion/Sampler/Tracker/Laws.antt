-- ===== src/Congestion/Sampler/Tracker/Laws.antt =====
-- What `Update` of the `maxAckHeightTracker` measures.
use outbound.Prelude.{ltb, ◌==◌, if◌then◌else◌, Bool-cases, ℕ, ◌+◌, ◌*◌, ◌/◌, ◌^◌, ◌≤◌, ◌<◌, ◌≡◌}
use outbound.Prelude.{refl, inl, inr, true, false, arith}
use outbound.Congestion.Words.{word, half, add64, sub64, signed, less, sub_time, IsSmall}
use outbound.Congestion.Words.{less_small}
use outbound.Congestion.WindowedFilter.Laws.{IsOrdered, update_lem}
use outbound.Congestion.Sampler.Tracker.{bits_per_byte_second}
use outbound.Congestion.Sampler.Tracker.{bytes_from_bandwidth_and_time_delta, ExtraAckedEvent}
use outbound.Congestion.Sampler.Tracker.{no_event, height, MaxAckHeightTracker, AckEvent}
use outbound.Congestion.Sampler.Tracker.{get_height, start_epoch, forces_new_epoch, extend_epoch}
use outbound.Congestion.Sampler.Tracker.{measure, update_height}

expected_small :
    (bandwidth delta : ℕ)
    → IsSmall (bandwidth * delta)
    → bytes_from_bandwidth_and_time_delta bandwidth delta ≡ bandwidth * delta / bits_per_byte_second
unfolding bytes_from_bandwidth_and_time_delta
expected_small bandwidth delta h = ground (arith, h)

expected_negative :
    (bandwidth delta : ℕ)
    → half ≤ bandwidth * delta
    → bandwidth * delta + bits_per_byte_second ≤ word
    → (word < bytes_from_bandwidth_and_time_delta bandwidth delta + 2 ^ 31)
      × (bytes_from_bandwidth_and_time_delta bandwidth delta < word)
unfolding bytes_from_bandwidth_and_time_delta
expected_negative bandwidth delta h k = ground (arith, h, k)

module _ {Threshold : Type 0} (scaled : Threshold → ℕ → ℕ) (m : MaxAckHeightTracker Threshold) where
  -- The event extends the epoch of `m`, with the answer `extra`: the bytes of the epoch and of the
  -- event are `extra` and the expected ones, and the height is at least `extra`.
  abbrev pub Extends : ℕ → AckEvent → MaxAckHeightTracker Threshold × ℕ → Type 0
  Extends expected a (m', extra) =
      (m'.aggregation_epoch_bytes ≡ m.aggregation_epoch_bytes + a.bytes_acked)
      × (extra + expected ≡ m'.aggregation_epoch_bytes)
      × (signed extra ≤ signed (get_height m'))

  -- The event starts an epoch of its own, with the answer 0.
  abbrev pub Restarts : AckEvent → MaxAckHeightTracker Threshold × ℕ → Type 0
  Restarts a (m', extra) =
      (m'.aggregation_epoch_bytes ≡ a.bytes_acked)
      × (m'.aggregation_epoch_start_time ≡ a.ack_time)
      × (get_height m' ≡ get_height m)
      × (extra ≡ 0)

  extend_lem :
      (expected delta round : ℕ) (a : AckEvent)
      → IsOrdered height round m.max_ack_height_filter
      → round ≤ a.round_trip_count
      → IsSmall (m.aggregation_epoch_bytes + a.bytes_acked)
      → expected ≤ m.aggregation_epoch_bytes
      → Extends expected a (extend_epoch m expected delta a)
  unfolding extend_epoch get_height
  extend_lem expected delta round a h k l n =
      let bytes = m.aggregation_epoch_bytes + a.bytes_acked in
      let e : ExtraAckedEvent = record {
        extra_acked = sub64 (add64 m.aggregation_epoch_bytes a.bytes_acked) expected;
        bytes_acked = add64 m.aggregation_epoch_bytes a.bytes_acked;
        time_delta = delta;
        round = 0;
      } in
      let u =
        update_lem no_event height m.max_ack_height_filter round
          (record { sample = e; time = a.round_trip_count }) h k in
      (omega (arith, l), omega (arith, l, n), u.1)

  update_is_measure :
      (bandwidth : ℕ) (a : AckEvent)
      → forces_new_epoch m a ≡ false
      → 0 < m.aggregation_epoch_start_time
      → update_height scaled m bandwidth false a ≡ measure scaled m bandwidth a
  unfolding update_height forces_new_epoch measure
  update_is_measure bandwidth a h k =
      let z : (m.aggregation_epoch_start_time == 0) ≡ false = ground (arith, k) in
      elim (Bool-cases m.reduce_extra_acked_on_bandwidth_increase) [
        | inl r ↦ rw (r, z, h) refl
        | inr r ↦ rw (r, z, h) refl
      ]

  since_start :
      (t delta : ℕ)
      → t ≡ m.aggregation_epoch_start_time + delta
      → IsSmall delta
      → sub_time t m.aggregation_epoch_start_time ≡ delta
  since_start t delta h k = ground (arith, h, k)

  -- An epoch has begun, no new one is forced, the bandwidth is no new maximum, so that no heights
  -- are computed anew, the rounds do not decrease, and no number reaches 2 ^ 63, the product of the
  -- bandwidth and the time since the epoch's start included: if
  -- the epoch's bytes are at most the threshold times the expected ones, `Update` starts a new epoch,
  -- keeps the height and answers 0. Otherwise it answers the bytes of the epoch beyond the expected
  -- ones, and `Get` is then at least the answer. The threshold is at least 1.
  pub update_height_lem :
      (bandwidth delta round : ℕ) (a : AckEvent)
      → bandwidth * delta / bits_per_byte_second
        ≤ scaled m.ack_aggregation_bandwidth_threshold (bandwidth * delta / bits_per_byte_second)
      → IsSmall
          (scaled m.ack_aggregation_bandwidth_threshold (bandwidth * delta / bits_per_byte_second))
      → IsOrdered height round m.max_ack_height_filter
      → round ≤ a.round_trip_count
      → forces_new_epoch m a ≡ false
      → 0 < m.aggregation_epoch_start_time
      → a.ack_time ≡ m.aggregation_epoch_start_time + delta
      → IsSmall delta
      → IsSmall (bandwidth * delta)
      → IsSmall (m.aggregation_epoch_bytes + a.bytes_acked)
      → let expected = bandwidth * delta / bits_per_byte_second in
        let after = update_height scaled m bandwidth false a in
        if ltb (scaled m.ack_aggregation_bandwidth_threshold expected) m.aggregation_epoch_bytes
        then Extends expected a after
        else Restarts a after
  unfolding measure start_epoch get_height
  update_height_lem bandwidth delta round a one small ordered rounds unforced begun time h k l =
      let limit =
        scaled m.ack_aggregation_bandwidth_threshold (bandwidth * delta / bits_per_byte_second) in
      let test : less limit m.aggregation_epoch_bytes ≡ ltb limit m.aggregation_epoch_bytes =
        less_small limit m.aggregation_epoch_bytes small (omega (arith, l)) in
      elim (Bool-cases (ltb limit m.aggregation_epoch_bytes)) [
        | inl b ↦
            rw
              (
                update_is_measure bandwidth a unforced begun,
                since_start a.ack_time delta time h,
                expected_small bandwidth delta k,
                test,
                b,
              )
              (extend_lem (bandwidth * delta / bits_per_byte_second) delta round a ordered rounds l
                (ground (arith, one, b)))
        | inr b ↦
            rw
              (
                update_is_measure bandwidth a unforced begun,
                since_start a.ack_time delta time h,
                expected_small bandwidth delta k,
                test,
                b,
              )
              (refl, refl, refl, refl)
      ]

  -- An epoch has begun, no new one is forced, the bandwidth is no new maximum, the time since the
  -- epoch's start is below 2 ^ 63, and the epoch's bytes with the new ones are below 2 ^ 63 - 2 ^ 31.
  -- The product of the bandwidth and that time is at least 2 ^ 63 and at most 2 ^ 64 - 8 * 10 ^ 9,
  -- so that the expected bytes are negative, and the threshold times them is negative: `Update`
  -- keeps the epoch, with the new bytes, and answers more bytes than were acknowledged in it.
  pub update_overflow :
      (bandwidth delta : ℕ) (a : AckEvent)
      → half
        ≤ scaled m.ack_aggregation_bandwidth_threshold
            (bytes_from_bandwidth_and_time_delta bandwidth delta)
      → scaled m.ack_aggregation_bandwidth_threshold
          (bytes_from_bandwidth_and_time_delta bandwidth delta)
        < word
      → forces_new_epoch m a ≡ false
      → 0 < m.aggregation_epoch_start_time
      → a.ack_time ≡ m.aggregation_epoch_start_time + delta
      → IsSmall delta
      → half ≤ bandwidth * delta
      → bandwidth * delta + bits_per_byte_second ≤ word
      → IsSmall (m.aggregation_epoch_bytes + a.bytes_acked + 2 ^ 31)
      → let after = update_height scaled m bandwidth false a in
        (after.0.aggregation_epoch_bytes ≡ m.aggregation_epoch_bytes + a.bytes_acked)
        × (m.aggregation_epoch_bytes + a.bytes_acked < after.1)
  unfolding measure extend_epoch
  update_overflow bandwidth delta a negative fits unforced begun time h k l n =
      let x = bytes_from_bandwidth_and_time_delta bandwidth delta in
      let y = scaled m.ack_aggregation_bandwidth_threshold x in
      let (low, high) = expected_negative bandwidth delta k l in
      let test : less y m.aggregation_epoch_bytes ≡ true = ground (arith, negative, fits, n) in
      rw (update_is_measure bandwidth a unforced begun, since_start a.ack_time delta time h, test)
        (omega (arith, n), omega (arith, n, low, high))
