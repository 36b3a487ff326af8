-- ===== src/Congestion/Sampler/State.antt =====
-- The operations of the `bandwidthSampler` of bandwidth_sampler.go but `OnCongestionEvent`. What
-- `newSendTimeState` and the composite literals build is written as a record.
use outbound.Prelude.{◌==◌, if◌then◌else◌, length, ℕ, ◌-◌, Bool, true, false, not, none, some, []}
use outbound.Congestion.Words.{add64}
use outbound.Congestion.PacketQueue.{get_entry_wrapper, get_entry, new_queue, emplace}
use outbound.Congestion.PacketQueue.{drop_consumed_front, remove_up_to, remove}
use outbound.Congestion.Sampler.Tracker.{new_max_ack_height_tracker, reset_height}
use outbound.Congestion.Sampler.Tracker.{set_filter_window_length}
use outbound.Congestion.Sampler.Tracker.{set_ack_aggregation_bandwidth_threshold}
use outbound.Congestion.Sampler.Tracker.{set_start_new_aggregation_epoch_after_full_round}
use outbound.Congestion.Sampler.Tracker.{set_reduce_extra_acked_on_bandwidth_increase}
use outbound.Congestion.Sampler.Points.{no_point, update_points, no_points}
use outbound.Congestion.Sampler.Records.{SendTimeState, no_state, ConnectionStateOnSentPacket}
use outbound.Congestion.Sampler.Records.{no_record, PacketMap, BandwidthSampler}
use outbound.Congestion.Sampler.Records.{to_send_time_state}
use outbound.Congestion.RingBuffer.{set_offset, push_back}
use outbound.Congestion.RingBuffer.{init as ring_init, clear as ring_clear}

-- `sentPacketPointer.consumed = true`, through the pointer that `GetEntry` returns
unfoldable pub mark_consumed : PacketMap → ℕ → PacketMap
mark_consumed q n = elim (get_entry_wrapper q n) [
  | none ↦ q
  | some w ↦
      let marked = record w { entry = record w.entry { consumed = true } } in
      record q {
        entries = elim (set_offset q.entries (n - q.first_packet) marked) [
          | none ↦ q.entries
          | some r ↦ r
        ];
      }
]

module _ {Threshold : Type 0} where
  -- The capacity of the map starts at `initial_slots`, and `max_slots` is its budget, which the
  -- source takes from a constant of quic-go; `one` is the threshold 1.0.
  unfoldable pub new_bandwidth_sampler : Threshold → ℕ → ℕ → ℕ → BandwidthSampler Threshold
  new_bandwidth_sampler one initial_slots max_slots window_length = record {
    total_bytes_sent = 0;
    total_bytes_acked = 0;
    total_bytes_lost = 0;
    total_bytes_neutered = 0;
    total_bytes_sent_at_last_acked_packet = 0;
    last_acked_packet_sent_time = 0;
    last_acked_packet_ack_time = 0;
    last_sent_packet = 0;
    last_acked_packet = 0;
    is_app_limited = false;
    end_of_app_limited_phase = 0;
    connection_state_map = new_queue no_record initial_slots max_slots;
    recent_ack_points = no_points;
    a0_candidates = record { ring = []; head_pos = 0; tail_pos = 0; full = false };
    max_ack_height_tracker = new_max_ack_height_tracker one window_length;
    total_bytes_acked_after_last_ack_event = 0;
    overestimate_avoidance = false;
    limit_max_ack_height_tracker_by_send_rate = false;
  }

  -- `two` is the threshold 2.0.
  pub enable_overestimate_avoidance :
      Threshold → BandwidthSampler Threshold → BandwidthSampler Threshold
  enable_overestimate_avoidance two b = if b.overestimate_avoidance then b else record b {
    overestimate_avoidance = true;
    a0_candidates = ring_init no_point 256;
    max_ack_height_tracker = set_ack_aggregation_bandwidth_threshold b.max_ack_height_tracker two;
  }

  set_max_ack_height_tracker_window_length :
      BandwidthSampler Threshold → ℕ → BandwidthSampler Threshold
  set_max_ack_height_tracker_window_length b length = record b {
    max_ack_height_tracker = set_filter_window_length b.max_ack_height_tracker length;
  }

  unfoldable pub reset_max_ack_height_tracker :
      BandwidthSampler Threshold → ℕ → ℕ → BandwidthSampler Threshold
  reset_max_ack_height_tracker b new_height new_time = record b {
    max_ack_height_tracker = reset_height b.max_ack_height_tracker new_height new_time;
  }

  set_start_new_aggregation_epoch : BandwidthSampler Threshold → Bool → BandwidthSampler Threshold
  set_start_new_aggregation_epoch b value = record b {
    max_ack_height_tracker =
        set_start_new_aggregation_epoch_after_full_round b.max_ack_height_tracker value;
  }

  set_limit_by_send_rate : BandwidthSampler Threshold → Bool → BandwidthSampler Threshold
  set_limit_by_send_rate b value = record b { limit_max_ack_height_tracker_by_send_rate = value }

  set_reduce_extra_acked : BandwidthSampler Threshold → Bool → BandwidthSampler Threshold
  set_reduce_extra_acked b value = record b {
    max_ack_height_tracker =
        set_reduce_extra_acked_on_bandwidth_increase b.max_ack_height_tracker value;
  }

  unfoldable pub new_connection_state_on_sent_packet :
      ℕ → ℕ → ℕ → BandwidthSampler Threshold → ConnectionStateOnSentPacket
  new_connection_state_on_sent_packet sent_time size bytes_in_flight b = record {
    sent_time = sent_time;
    size = size;
    total_bytes_sent_at_last_acked_packet = b.total_bytes_sent_at_last_acked_packet;
    last_acked_packet_sent_time = b.last_acked_packet_sent_time;
    last_acked_packet_ack_time = b.last_acked_packet_ack_time;
    send_time_state = record {
      is_valid = true;
      is_app_limited = b.is_app_limited;
      total_bytes_sent = b.total_bytes_sent;
      total_bytes_acked = b.total_bytes_acked;
      total_bytes_lost = b.total_bytes_lost;
      bytes_in_flight = bytes_in_flight;
    };
    consumed = false;
  }

  -- the candidates and points at the start of a new transmission
  unfoldable pub restarted_points : BandwidthSampler Threshold → ℕ → BandwidthSampler Threshold
  restarted_points b sent_time =
      let points = update_points no_points sent_time b.total_bytes_acked in
      record b {
        recent_ack_points = points;
        a0_candidates = push_back no_point (ring_clear no_point b.a0_candidates) points.latest;
      }

  -- nothing is in flight: the new transmission opens an A_0 point
  unfoldable pub opened : BandwidthSampler Threshold → ℕ → BandwidthSampler Threshold
  opened b sent_time =
      let c = if b.overestimate_avoidance then restarted_points b sent_time else b in
      record c {
        last_acked_packet_ack_time = sent_time;
        total_bytes_sent_at_last_acked_packet = b.total_bytes_sent;
        last_acked_packet_sent_time = sent_time;
      }

  unfoldable pub on_packet_sent :
      BandwidthSampler Threshold → ℕ → ℕ → ℕ → ℕ → Bool → BandwidthSampler Threshold
  on_packet_sent b sent_time n bytes bytes_in_flight is_retransmittable =
      let b1 : BandwidthSampler Threshold = record b { last_sent_packet = n } in
      if not is_retransmittable
      then b1
      else let b2 : BandwidthSampler Threshold = record b1 {
        total_bytes_sent = add64 b.total_bytes_sent bytes;
      } in
        let b3 = if bytes_in_flight == 0 then opened b2 sent_time else b2 in
        let e =
          new_connection_state_on_sent_packet sent_time bytes (add64 bytes_in_flight bytes) b3 in
        record b3 {
          connection_state_map = (emplace no_record b3.connection_state_map n (some e)).0;
        }

  unfoldable pub on_packet_lost :
      BandwidthSampler Threshold → ℕ → ℕ → BandwidthSampler Threshold × SendTimeState
  on_packet_lost b n bytes_lost =
      let b1 : BandwidthSampler Threshold = record b {
        total_bytes_lost = add64 b.total_bytes_lost bytes_lost;
      } in
      elim (get_entry b.connection_state_map n) [
        | none ↦ (b1, no_state)
        | some e ↦ (
          record b1 { connection_state_map = mark_consumed b.connection_state_map n },
          to_send_time_state (record e { consumed = true }),
        )
      ]

  pub on_packet_neutered : BandwidthSampler Threshold → ℕ → BandwidthSampler Threshold
  on_packet_neutered b n =
      let (q, left) = remove no_record b.connection_state_map n in
      record b {
        connection_state_map = q;
        total_bytes_neutered = elim left [
          | none ↦ b.total_bytes_neutered
          | some e ↦ add64 b.total_bytes_neutered e.size
        ];
      }

  unfoldable pub on_app_limited : BandwidthSampler Threshold → BandwidthSampler Threshold
  on_app_limited b = record b {
    is_app_limited = true;
    end_of_app_limited_phase = b.last_sent_packet;
  }

  unfoldable pub reclaim_consumed : BandwidthSampler Threshold → BandwidthSampler Threshold
  reclaim_consumed b = record b {
    connection_state_map =
        (drop_consumed_front no_record b.connection_state_map (λ e. e.consumed)).0;
  }

  unfoldable pub remove_obsolete_packets :
      BandwidthSampler Threshold → ℕ → BandwidthSampler Threshold
  remove_obsolete_packets b least_unacked = record b {
    connection_state_map = remove_up_to no_record b.connection_state_map least_unacked;
  }
