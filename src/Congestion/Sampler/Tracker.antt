-- ===== src/Congestion/Sampler/Tracker.antt =====
-- `maxAckHeightTracker` of bandwidth_sampler.go. A `time.Time` is the number of nanoseconds from a
-- time before all others, 0 the zero time. A packet number is kept as one more than itself, so
-- `invalidPacketNumber`, which is -1, is 0. The threshold is one of the parameter's `Threshold`s, and
-- `scaled` the product with it in `float64`, turned back into an integer.
pub mod Laws
mod Tests
use outbound.Prelude.{ltb, ◌==◌, if◌then◌else◌, length, ℕ, ◌+◌, ◌%◌, Bool, false, ◌&&◌, ◌||◌, not}
use outbound.Congestion.Words.{word, add64, sub64, mul64, signed, less, signed_div, sub_time}
use outbound.Congestion.WindowedFilter.{WindowedFilter, by_key, set_window_length, reset}
use outbound.Congestion.WindowedFilter.{new_windowed_filter, clear, update}

-- `congestion.ByteCount(time.Second) * 8`
abbrev pub bits_per_byte_second : ℕ
bits_per_byte_second = 8000000000

unfoldable pub bytes_from_bandwidth_and_time_delta : ℕ → ℕ → ℕ
bytes_from_bandwidth_and_time_delta bandwidth delta =
    signed_div (mul64 bandwidth delta) bits_per_byte_second

pub record ExtraAckedEvent : Type 0 where
  pub extra_acked : ℕ
  pub bytes_acked : ℕ
  pub time_delta : ℕ
  pub round : ℕ

abbrev pub no_event : ExtraAckedEvent
no_event = record { extra_acked = 0; bytes_acked = 0; time_delta = 0; round = 0 }

-- `maxExtraAckedEventFunc` compares the events by this number.
abbrev pub height : ExtraAckedEvent → ℕ
height e = signed e.extra_acked

pub record MaxAckHeightTracker (Threshold : Type 0) : Type 0 where
  pub max_ack_height_filter : WindowedFilter ExtraAckedEvent
  pub aggregation_epoch_start_time : ℕ
  pub aggregation_epoch_bytes : ℕ
  pub last_sent_packet_number_before_epoch : ℕ
  pub num_ack_aggregation_epochs : ℕ
  pub ack_aggregation_bandwidth_threshold : Threshold
  pub start_new_aggregation_epoch_after_full_round : Bool
  pub reduce_extra_acked_on_bandwidth_increase : Bool

-- `Update` of the filter
abbrev pub record_event :
    WindowedFilter ExtraAckedEvent → ExtraAckedEvent → ℕ → WindowedFilter ExtraAckedEvent
record_event f e t = update no_event (by_key height) f (record { sample = e; time = t })

-- a height of before goes back into the filter, after it is computed anew
unfoldable pub reinsert :
    ℕ → WindowedFilter ExtraAckedEvent → ExtraAckedEvent → WindowedFilter ExtraAckedEvent
reinsert bandwidth f e =
    let expected = bytes_from_bandwidth_and_time_delta bandwidth e.time_delta in
    if less expected e.bytes_acked
    then record_event f (record e { extra_acked = sub64 e.bytes_acked expected }) e.round
    else f

-- all three of them, into a filter that was cleared
unfoldable pub recalculated : ℕ → WindowedFilter ExtraAckedEvent → WindowedFilter ExtraAckedEvent
recalculated bandwidth f =
    reinsert bandwidth
      (reinsert bandwidth (reinsert bandwidth (clear no_event f) f.best.sample)
        f.second_best.sample)
      f.third_best.sample

-- the arguments of `Update` but the bandwidth and its flag
pub record AckEvent : Type 0 where
  pub round_trip_count : ℕ
  pub last_sent_packet_number : ℕ
  pub last_acked_packet_number : ℕ
  pub ack_time : ℕ
  pub bytes_acked : ℕ

module _ {Threshold : Type 0} where
  pub new_max_ack_height_tracker : Threshold → ℕ → MaxAckHeightTracker Threshold
  new_max_ack_height_tracker one window_length = record {
    max_ack_height_filter = new_windowed_filter no_event window_length;
    aggregation_epoch_start_time = 0;
    aggregation_epoch_bytes = 0;
    last_sent_packet_number_before_epoch = 0;
    num_ack_aggregation_epochs = 0;
    ack_aggregation_bandwidth_threshold = one;
    start_new_aggregation_epoch_after_full_round = false;
    reduce_extra_acked_on_bandwidth_increase = false;
  }

  -- `Get`
  unfoldable pub get_height : MaxAckHeightTracker Threshold → ℕ
  get_height m = m.max_ack_height_filter.best.sample.extra_acked

  -- `Reset`
  pub reset_height : MaxAckHeightTracker Threshold → ℕ → ℕ → MaxAckHeightTracker Threshold
  reset_height m new_height new_time =
      let e : ExtraAckedEvent = record {
        extra_acked = new_height;
        bytes_acked = 0;
        time_delta = 0;
        round = new_time;
      } in
      record m {
        max_ack_height_filter =
            reset m.max_ack_height_filter (record { sample = e; time = new_time });
      }

  pub set_filter_window_length : MaxAckHeightTracker Threshold → ℕ → MaxAckHeightTracker Threshold
  set_filter_window_length m length = record m {
    max_ack_height_filter = set_window_length m.max_ack_height_filter length;
  }

  pub set_ack_aggregation_bandwidth_threshold :
      MaxAckHeightTracker Threshold → Threshold → MaxAckHeightTracker Threshold
  set_ack_aggregation_bandwidth_threshold m threshold = record m {
    ack_aggregation_bandwidth_threshold = threshold;
  }

  pub set_start_new_aggregation_epoch_after_full_round :
      MaxAckHeightTracker Threshold → Bool → MaxAckHeightTracker Threshold
  set_start_new_aggregation_epoch_after_full_round m value = record m {
    start_new_aggregation_epoch_after_full_round = value;
  }

  pub set_reduce_extra_acked_on_bandwidth_increase :
      MaxAckHeightTracker Threshold → Bool → MaxAckHeightTracker Threshold
  set_reduce_extra_acked_on_bandwidth_increase m value = record m {
    reduce_extra_acked_on_bandwidth_increase = value;
  }

  -- the event starts a new aggregation epoch
  unfoldable pub start_epoch :
      MaxAckHeightTracker Threshold → AckEvent → MaxAckHeightTracker Threshold
  start_epoch m a = record m {
    aggregation_epoch_bytes = a.bytes_acked;
    aggregation_epoch_start_time = a.ack_time;
    last_sent_packet_number_before_epoch = a.last_sent_packet_number;
    num_ack_aggregation_epochs = (m.num_ack_aggregation_epochs + 1) % word;
  }

  -- a packet that was sent after the start of the epoch has been acked
  unfoldable pub forces_new_epoch : MaxAckHeightTracker Threshold → AckEvent → Bool
  forces_new_epoch m a =
      m.start_new_aggregation_epoch_after_full_round
      && not (m.last_sent_packet_number_before_epoch == 0)
      && not (a.last_acked_packet_number == 0)
      && ltb m.last_sent_packet_number_before_epoch a.last_acked_packet_number

  -- the event extends the epoch, and what it acknowledges beyond the expected bytes goes into the
  -- filter; `delta` is the time since the epoch's start
  unfoldable pub extend_epoch :
      MaxAckHeightTracker Threshold → ℕ → ℕ → AckEvent → MaxAckHeightTracker Threshold × ℕ
  extend_epoch m expected delta a =
      let bytes = add64 m.aggregation_epoch_bytes a.bytes_acked in
      let extra = sub64 bytes expected in
      let e : ExtraAckedEvent = record {
        extra_acked = extra;
        bytes_acked = bytes;
        time_delta = delta;
        round = 0;
      } in
      (
        record m {
          aggregation_epoch_bytes = bytes;
          max_ack_height_filter = record_event m.max_ack_height_filter e a.round_trip_count;
        },
        extra,
      )

module _ {Threshold : Type 0} (scaled : Threshold → ℕ → ℕ) where
  -- `Update` where no new epoch is forced
  unfoldable pub measure :
      MaxAckHeightTracker Threshold → ℕ → AckEvent → MaxAckHeightTracker Threshold × ℕ
  measure m bandwidth a =
      let delta = sub_time a.ack_time m.aggregation_epoch_start_time in
      let expected = bytes_from_bandwidth_and_time_delta bandwidth delta in
      if less (scaled m.ack_aggregation_bandwidth_threshold expected) m.aggregation_epoch_bytes
      then extend_epoch m expected delta a
      else (start_epoch m a, 0)

  -- `Update`
  unfoldable pub update_height :
      MaxAckHeightTracker Threshold → ℕ → Bool → AckEvent → MaxAckHeightTracker Threshold × ℕ
  update_height m bandwidth is_new_max_bandwidth a =
      let m' : MaxAckHeightTracker Threshold =
        if m.reduce_extra_acked_on_bandwidth_increase && is_new_max_bandwidth
        then record m { max_ack_height_filter = recalculated bandwidth m.max_ack_height_filter }
        else m in
      if m'.aggregation_epoch_start_time == 0 || forces_new_epoch m' a
      then (start_epoch m' a, 0)
      else measure m' bandwidth a
