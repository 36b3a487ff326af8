-- ===== src/Congestion/Sampler/Event.antt =====
-- `OnCongestionEvent` of bandwidth_sampler.go, with `onAckEventEnd`.
pub mod Accounts
pub mod Live
pub mod Lifecycle
mod Tests
use outbound.Prelude.{ltb, ◌==◌, if◌then◌else◌, ℕ, ◌-◌, min, max, Bool, false, ◌&&◌, not, List}
use outbound.Prelude.{[], ◌∷◌, map}
use outbound.Congestion.Words.{half, sub64, less, signed_min}
use outbound.Congestion.Sampler.Tracker.{update_height}
use outbound.Congestion.Sampler.Points.{no_point, less_recent_point}
use outbound.Congestion.Sampler.Records.{SendTimeState, no_state, BandwidthSampler}
use outbound.Congestion.Sampler.Records.{BandwidthSample, inf_bandwidth}
use outbound.Congestion.Sampler.State.{on_packet_lost, reclaim_consumed}
use outbound.Congestion.Sampler.Ack.{on_packet_acknowledged}
use outbound.Congestion.RingBuffer.{push_back}

pub record CongestionEventSample : Type 0 where
  pub sample_max_bandwidth : ℕ
  pub sample_is_app_limited : Bool
  pub sample_rtt : ℕ
  pub sample_max_inflight : ℕ
  pub last_packet_send_state : SendTimeState
  pub extra_acked : ℕ

-- `newCongestionEventSample`, with `infRTT`
abbrev pub new_congestion_event_sample : CongestionEventSample
new_congestion_event_sample = record {
  sample_max_bandwidth = 0;
  sample_is_app_limited = false;
  sample_rtt = half - 1;
  sample_max_inflight = 0;
  last_packet_send_state = no_state;
  extra_acked = 0;
}

-- The variables of the loop over the acknowledged packets.
pub record AckLoop : Type 0 where
  pub event_sample : CongestionEventSample
  pub last_acked_packet_send_state : SendTimeState
  pub max_send_rate : ℕ

-- one valid sample; `acked` is the total of acknowledged bytes
count_sample : AckLoop → ℕ → BandwidthSample → AckLoop
count_sample l acked s =
    let e = l.event_sample in
    let inflight = sub64 acked s.state_at_send.total_bytes_acked in
    let faster = ltb e.sample_max_bandwidth s.bandwidth in
    record {
      event_sample = record e {
        sample_rtt = if s.rtt == 0 then e.sample_rtt else signed_min e.sample_rtt s.rtt;
        sample_max_bandwidth = if faster then s.bandwidth else e.sample_max_bandwidth;
        sample_is_app_limited =
            if faster then s.state_at_send.is_app_limited else e.sample_is_app_limited;
        sample_max_inflight =
            if less e.sample_max_inflight inflight then inflight else e.sample_max_inflight;
      };
      last_acked_packet_send_state = s.state_at_send;
      max_send_rate =
          if s.send_rate == inf_bandwidth then l.max_send_rate else max l.max_send_rate s.send_rate;
    }

-- the variables before the loop
abbrev pub no_samples : AckLoop
no_samples = record {
  event_sample = new_congestion_event_sample;
  last_acked_packet_send_state = no_state;
  max_send_rate = 0;
}

-- the last number of a list that is not empty
unfoldable pub last_number : List ℕ → ℕ
last_number [] = 0
last_number (n ∷ []) = n
last_number (n ∷ m ∷ ns) = last_number (m ∷ ns)

module _ {Threshold : Type 0} where
  -- the loop over the lost packets; a packet is its number and its lost bytes
  pub lose_all :
      BandwidthSampler Threshold
      → SendTimeState
      → List (ℕ × ℕ)
      → BandwidthSampler Threshold × SendTimeState
  lose_all b last [] = (b, last)
  lose_all b last ((n, bytes) ∷ ps) =
      let (c, s) = on_packet_lost b n bytes in lose_all c (if s.is_valid then s else last) ps

  -- the loop over the acknowledged packets, which are numbers
  pub acknowledge_all :
      BandwidthSampler Threshold → AckLoop → ℕ → List ℕ → BandwidthSampler Threshold × AckLoop
  acknowledge_all b l ack_time [] = (b, l)
  acknowledge_all b l ack_time (n ∷ ns) =
      let (c, s) = on_packet_acknowledged b ack_time n in
      acknowledge_all c
        (if s.state_at_send.is_valid then count_sample l c.total_bytes_acked s else l) ack_time ns

-- the state at the sending of the last packet, from those of the last lost and last acked ones
last_state : SendTimeState → SendTimeState → List (ℕ × ℕ) → List ℕ → SendTimeState
last_state lost acked lost_packets acked_packets =
    if not lost.is_valid
    then acked
    else if not acked.is_valid
    then lost
    else if ltb (last_number acked_packets) (last_number (map (λ p. p.0) lost_packets))
    then lost
    else acked

module _ {Threshold : Type 0} (scaled : Threshold → ℕ → ℕ) where
  -- `bandwidth` is the estimate, and `is_new` says that it is a new maximum.
  pub on_ack_event_end : BandwidthSampler Threshold → ℕ → Bool → ℕ → BandwidthSampler Threshold × ℕ
  on_ack_event_end b bandwidth is_new round_trip_count =
      let newly = sub64 b.total_bytes_acked b.total_bytes_acked_after_last_ack_event in
      let (m, extra) = update_height scaled b.max_ack_height_tracker bandwidth is_new (record {
        round_trip_count = round_trip_count;
        last_sent_packet_number = b.last_sent_packet;
        last_acked_packet_number = b.last_acked_packet;
        ack_time = b.last_acked_packet_ack_time;
        bytes_acked = newly;
      }) in
      if newly == 0 then (b, 0) else (
        record b {
          total_bytes_acked_after_last_ack_event = b.total_bytes_acked;
          max_ack_height_tracker = m;
          a0_candidates =
              if b.overestimate_avoidance && extra == 0
              then push_back no_point b.a0_candidates (less_recent_point b.recent_ack_points)
              else b.a0_candidates;
        },
        extra,
      )

  -- `OnCongestionEvent` behind the loop over the lost packets, where packets were acknowledged
  acknowledge_event :
      BandwidthSampler Threshold
      → SendTimeState
      → ℕ
      → List ℕ
      → List (ℕ × ℕ)
      → ℕ
      → ℕ
      → ℕ
      → BandwidthSampler Threshold × CongestionEventSample
  acknowledge_event b lost ack_time acked_packets lost_packets max_bandwidth upper_bound rounds =
      let (c, l) = acknowledge_all b no_samples ack_time acked_packets in
      let fastest = l.event_sample.sample_max_bandwidth in
      let most = max max_bandwidth fastest in
      let limit =
        if c.limit_max_ack_height_tracker_by_send_rate then max most l.max_send_rate else most in
      let (d, extra) =
        on_ack_event_end c (min upper_bound limit) (ltb max_bandwidth fastest) rounds in
      (
        d,
        record l.event_sample {
          last_packet_send_state =
              last_state lost l.last_acked_packet_send_state lost_packets acked_packets;
          extra_acked = extra;
        },
      )

  -- `OnCongestionEvent`; the deferred call of `reclaimConsumed` comes last
  pub on_congestion_event :
      BandwidthSampler Threshold
      → ℕ
      → List ℕ
      → List (ℕ × ℕ)
      → ℕ
      → ℕ
      → ℕ
      → BandwidthSampler Threshold × CongestionEventSample
  on_congestion_event b ack_time [] lost_packets max_bandwidth upper_bound rounds =
      let (c, lost) = lose_all b no_state lost_packets in
      (reclaim_consumed c, record new_congestion_event_sample { last_packet_send_state = lost })
  on_congestion_event b ack_time (n ∷ ns) lost_packets max_bandwidth upper_bound rounds =
      let (c, lost) = lose_all b no_state lost_packets in
      let (d, sample) =
        acknowledge_event c lost ack_time (n ∷ ns) lost_packets max_bandwidth upper_bound rounds in
      (reclaim_consumed d, sample)
