-- ===== src/Congestion/Sampler/Records.antt =====
-- The records of bandwidth_sampler.go, and `BandwidthFromDelta` of bandwidth.go. Integers, times and
-- packet numbers are as in Sampler/Tracker.
use outbound.Prelude.{ℕ, ◌-◌, ◌/◌, Bool, true, false}
use outbound.Congestion.Words.{word, mul64}
use outbound.Congestion.PacketQueue.{PacketNumberIndexedQueue}
use outbound.Congestion.Sampler.Tracker.{MaxAckHeightTracker}
use outbound.Congestion.Sampler.Points.{AckPoint, RecentAckPoints}
use outbound.Congestion.RingBuffer.{RingBuffer}

pub record SendTimeState : Type 0 where
  pub is_valid : Bool
  pub is_app_limited : Bool
  pub total_bytes_sent : ℕ
  pub total_bytes_acked : ℕ
  pub total_bytes_lost : ℕ
  pub bytes_in_flight : ℕ

-- the zero `sendTimeState`
abbrev pub no_state : SendTimeState
no_state = record {
  is_valid = false;
  is_app_limited = false;
  total_bytes_sent = 0;
  total_bytes_acked = 0;
  total_bytes_lost = 0;
  bytes_in_flight = 0;
}

pub record ConnectionStateOnSentPacket : Type 0 where
  pub sent_time : ℕ
  pub size : ℕ
  pub total_bytes_sent_at_last_acked_packet : ℕ
  pub last_acked_packet_sent_time : ℕ
  pub last_acked_packet_ack_time : ℕ
  pub send_time_state : SendTimeState
  pub consumed : Bool

abbrev pub no_record : ConnectionStateOnSentPacket
no_record = record {
  sent_time = 0;
  size = 0;
  total_bytes_sent_at_last_acked_packet = 0;
  last_acked_packet_sent_time = 0;
  last_acked_packet_ack_time = 0;
  send_time_state = no_state;
  consumed = false;
}

abbrev pub PacketMap : Type 0
PacketMap = PacketNumberIndexedQueue ConnectionStateOnSentPacket

pub record BandwidthSampler (Threshold : Type 0) : Type 0 where
  pub total_bytes_sent : ℕ
  pub total_bytes_acked : ℕ
  pub total_bytes_lost : ℕ
  pub total_bytes_neutered : ℕ
  pub total_bytes_sent_at_last_acked_packet : ℕ
  pub last_acked_packet_sent_time : ℕ
  pub last_acked_packet_ack_time : ℕ
  pub last_sent_packet : ℕ
  pub last_acked_packet : ℕ
  pub is_app_limited : Bool
  pub end_of_app_limited_phase : ℕ
  pub connection_state_map : PacketMap
  pub recent_ack_points : RecentAckPoints
  pub a0_candidates : RingBuffer AckPoint
  pub max_ack_height_tracker : MaxAckHeightTracker Threshold
  pub total_bytes_acked_after_last_ack_event : ℕ
  pub overestimate_avoidance : Bool
  pub limit_max_ack_height_tracker_by_send_rate : Bool

pub record BandwidthSample : Type 0 where
  pub bandwidth : ℕ
  pub rtt : ℕ
  pub send_rate : ℕ
  pub state_at_send : SendTimeState

-- `math.MaxUint64`
abbrev pub inf_bandwidth : ℕ
inf_bandwidth = word - 1

abbrev pub new_bandwidth_sample : BandwidthSample
new_bandwidth_sample = record {
  bandwidth = 0;
  rtt = 0;
  send_rate = inf_bandwidth;
  state_at_send = no_state;
}

-- `sentPacketToSendTimeState`
abbrev pub to_send_time_state : ConnectionStateOnSentPacket → SendTimeState
to_send_time_state e = record e.send_time_state { is_valid = true }

-- The delta is not 0.
pub bandwidth_from_delta : ℕ → ℕ → ℕ
bandwidth_from_delta bytes delta = mul64 (mul64 bytes 1000000000 / delta) 8
