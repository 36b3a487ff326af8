-- ===== src/Congestion/Sampler/Ack.antt =====
-- `onPacketAcknowledged` of bandwidth_sampler.go.
use outbound.Prelude.{ltb, leb, ◌==◌, if◌then◌else◌, ℕ, min, false, ◌&&◌, ◌||◌, not, none, some}
use outbound.Congestion.Words.{add64, sub64, sub_time}
use outbound.Congestion.PacketQueue.{get_entry}
use outbound.Congestion.Sampler.Points.{AckPoint, update_points, choose_a0_point}
use outbound.Congestion.Sampler.Records.{ConnectionStateOnSentPacket, BandwidthSampler}
use outbound.Congestion.Sampler.Records.{BandwidthSample, inf_bandwidth, new_bandwidth_sample}
use outbound.Congestion.Sampler.Records.{to_send_time_state, bandwidth_from_delta}
use outbound.Congestion.Sampler.State.{mark_consumed}

pub packet_send_rate : ConnectionStateOnSentPacket → ℕ
packet_send_rate e =
    if ltb e.last_acked_packet_sent_time e.sent_time
    then bandwidth_from_delta
        (sub64 e.send_time_state.total_bytes_sent e.total_bytes_sent_at_last_acked_packet)
        (sub_time e.sent_time e.last_acked_packet_sent_time)
    else inf_bandwidth

module _ {Threshold : Type 0} where
  -- the part of `onPacketAcknowledged` that changes the state, but for the choice of the A_0 point
  unfoldable pub acknowledge :
      BandwidthSampler Threshold → ℕ → ℕ → ConnectionStateOnSentPacket → BandwidthSampler Threshold
  acknowledge b ack_time n e =
      let acked = add64 b.total_bytes_acked e.size in
      let leaves =
        b.is_app_limited && (b.end_of_app_limited_phase == 0 || ltb b.end_of_app_limited_phase n) in
      record b {
        last_acked_packet = n;
        connection_state_map = mark_consumed b.connection_state_map n;
        total_bytes_acked = acked;
        total_bytes_sent_at_last_acked_packet = e.send_time_state.total_bytes_sent;
        last_acked_packet_sent_time = e.sent_time;
        last_acked_packet_ack_time = ack_time;
        recent_ack_points =
            if b.overestimate_avoidance
            then update_points b.recent_ack_points ack_time acked
            else b.recent_ack_points;
        is_app_limited = if leaves then false else b.is_app_limited;
      }

  -- the A_0 point of a packet
  unfoldable pub a0_point :
      BandwidthSampler Threshold
      → ConnectionStateOnSentPacket
      → BandwidthSampler Threshold × AckPoint
  a0_point b e =
      let fallback : AckPoint = record {
        ack_time = e.last_acked_packet_ack_time;
        total_bytes_acked = e.send_time_state.total_bytes_acked;
      } in
      if not b.overestimate_avoidance
      then (b, fallback)
      else let (chosen, r) = choose_a0_point b.a0_candidates e.send_time_state.total_bytes_acked in
        (record b { a0_candidates = r }, elim chosen [ none ↦ fallback | some p ↦ p ])

  -- the sample of a packet that was acknowledged at `ack_time`, from its A_0 point
  pub sample_from :
      BandwidthSampler Threshold → ℕ → ConnectionStateOnSentPacket → AckPoint → BandwidthSample
  sample_from b ack_time e a0 =
      if leb ack_time a0.ack_time
      then new_bandwidth_sample
      else let ack_rate =
          bandwidth_from_delta (sub64 b.total_bytes_acked a0.total_bytes_acked)
            (sub_time ack_time a0.ack_time) in
        record {
          bandwidth = min (packet_send_rate e) ack_rate;
          rtt = sub_time ack_time e.sent_time;
          send_rate = packet_send_rate e;
          state_at_send = to_send_time_state e;
        }

  unfoldable pub on_packet_acknowledged :
      BandwidthSampler Threshold → ℕ → ℕ → BandwidthSampler Threshold × BandwidthSample
  on_packet_acknowledged b ack_time n = elim (get_entry b.connection_state_map n) [
    | none ↦ (record b { last_acked_packet = n }, new_bandwidth_sample)
    | some e ↦
        let b1 = acknowledge b ack_time n e in
        if e.last_acked_packet_sent_time == 0
        then (b1, new_bandwidth_sample)
        else let (b2, a0) = a0_point b1 e in (b2, sample_from b2 ack_time e a0)
  ]
