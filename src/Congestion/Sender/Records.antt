-- ===== src/Congestion/Sender/Records.antt =====
-- The types of bbr_sender.go and the constants it reads. Integers, times and packet numbers are as in
-- Sampler/Tracker: 64-bit words, 0 the zero time, a packet number one more than itself. The float64
-- gains are the source's constants, which `Gain` lists; what a product with one of them is, turned back
-- into an integer, is a parameter, as are quic-go's constants.
use outbound.Prelude.{ℕ, zero, suc, ◌+◌, Bool, true, false}
use outbound.Congestion.WindowedFilter.{WindowedFilter}
use outbound.Congestion.Pacer.{Pacer}
use outbound.Congestion.Sampler.Records.{BandwidthSampler}

pub data BbrMode : Type 0 where
  startup drain probe_bw probe_rtt : BbrMode

pub data BbrRecoveryState : Type 0 where
  not_in_recovery conservation growth : BbrRecoveryState

-- 2 / ln 2, its inverse, 1.25, 0.75, 1.0 and 2.0
pub data Gain : Type 0 where
  high_gain low_gain gain_up gain_down gain_one gain_two : Gain

unfoldable pub above_one : Gain → Bool
above_one high_gain = true
above_one low_gain = false
above_one gain_up = true
above_one gain_down = false
above_one gain_one = false
above_one gain_two = true

unfoldable pub below_one : Gain → Bool
below_one low_gain = true
below_one gain_down = true
below_one _ = false

unfoldable pub equals_one : Gain → Bool
equals_one gain_one = true
equals_one _ = false

-- the array `pacingGain`
unfoldable pub pacing_gain_at : ℕ → Gain
pacing_gain_at zero = gain_up
pacing_gain_at (suc zero) = gain_down
pacing_gain_at (suc (suc _)) = gain_one

abbrev pub gain_cycle_length : ℕ
gain_cycle_length = 8

abbrev pub bandwidth_window_size : ℕ
bandwidth_window_size = gain_cycle_length + 2

abbrev pub min_bps : ℕ
min_bps = 65536

abbrev pub min_rtt_expiry : ℕ
min_rtt_expiry = 10000000000

abbrev pub probe_rtt_time : ℕ
probe_rtt_time = 200000000

-- What the code takes from float64 arithmetic and from quic-go.
pub record Platform : Type 0 where
  -- `congestion.ByteCount(gain * float64(bytes))`
  pub scaled : Gain → ℕ → ℕ
  -- `Bandwidth(gain * float64(bandwidth))`
  pub rate : Gain → ℕ → ℕ
  -- `congestion.ByteCount(float64(bandwidth) * gain / float64(BytesPerSecond))`
  pub pacer_share : ℕ → Gain → ℕ
  -- `congestion.ByteCount(float64(bytes) * quicBbr2DefaultLossThreshold)`
  pub loss_share : ℕ → ℕ
  pub min_pacing_delay : ℕ
  pub initial_packet_size : ℕ
  pub min_initial_packet_size : ℕ
  pub max_packet_buffer_size : ℕ
  pub max_congestion_window_packets : ℕ
  -- the slots of the sampler's map at first, and at most
  pub initial_slots : ℕ
  pub max_slots : ℕ

pub record BbrSender : Type 0 where
  pub pacer : Pacer
  pub mode : BbrMode
  pub sampler : BandwidthSampler Gain
  pub round_trip_count : ℕ
  pub last_sent_packet : ℕ
  pub current_round_trip_end : ℕ
  pub num_loss_events_in_round : ℕ
  pub bytes_lost_in_round : ℕ
  pub max_bandwidth : WindowedFilter ℕ
  pub min_rtt : ℕ
  pub min_rtt_timestamp : ℕ
  pub congestion_window : ℕ
  pub initial_congestion_window : ℕ
  pub max_congestion_window : ℕ
  pub min_congestion_window : ℕ
  pub startup_gain : Gain
  pub high_cwnd_gain : Gain
  pub drain_gain : Gain
  pub pacing_rate : ℕ
  pub pacing_gain : Gain
  pub congestion_window_gain : Gain
  pub congestion_window_gain_constant : Gain
  pub num_startup_rtts : ℕ
  pub cycle_current_offset : ℕ
  pub last_cycle_start : ℕ
  pub is_at_full_bandwidth : Bool
  pub rounds_without_bandwidth_gain : ℕ
  pub bandwidth_at_last_round : ℕ
  pub exiting_quiescence : Bool
  pub exit_probe_rtt_at : ℕ
  pub probe_rtt_round_passed : Bool
  pub last_sample_is_app_limited : Bool
  pub has_no_app_limited_sample : Bool
  pub recovery_state : BbrRecoveryState
  pub end_recovery_at : ℕ
  pub recovery_window : ℕ
  pub enable_ack_aggregation_during_startup : Bool
  pub expire_ack_aggregation_in_startup : Bool
  pub drain_to_target : Bool
  pub detect_overshooting : Bool
  pub bytes_lost_while_detecting_overshooting : ℕ
  pub bytes_lost_multiplier_while_detecting_overshooting : ℕ
  pub cwnd_to_calculate_min_pacing_rate : ℕ
  pub max_datagram_size : ℕ
  pub bytes_in_flight : ℕ

abbrev pub is_startup : BbrMode → Bool
is_startup startup = true
is_startup _ = false

abbrev pub is_drain : BbrMode → Bool
is_drain drain = true
is_drain _ = false

abbrev pub is_probe_bw : BbrMode → Bool
is_probe_bw probe_bw = true
is_probe_bw _ = false

abbrev pub is_probe_rtt : BbrMode → Bool
is_probe_rtt probe_rtt = true
is_probe_rtt _ = false
