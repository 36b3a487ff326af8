-- ===== src/Congestion/Pacer.antt =====
-- protocol/tuic/congestion/common/pacer.go: the token bucket that paces the packets. The callback
-- `getBandwidth` is the argument `bandwidth`, in bytes a second, of each call. `min_pacing_delay` is
-- quic-go's constant, `pause bytes bandwidth` the nanoseconds that the float64 quotient rounds up to.
pub mod Laws
mod Tests
use outbound.Prelude.{◌==◌, if◌then◌else◌, ℕ, ◌-◌, ◌^◌, not}
use outbound.Congestion.Words.{add64, sub64, mul64, less, signed_div, signed_min, signed_max}
use outbound.Congestion.Words.{sub_time, add_time}

pub record Pacer : Type 0 where
  pub budget_at_last_sent : ℕ
  pub max_datagram_size : ℕ
  pub last_sent_time : ℕ

abbrev pub max_burst_packets : ℕ
max_burst_packets = 10

abbrev pub second : ℕ
second = 1000000000

-- `initial_packet_size` is quic-go's constant.
unfoldable pub new_pacer : ℕ → Pacer
new_pacer initial_packet_size = record {
  budget_at_last_sent = mul64 max_burst_packets initial_packet_size;
  max_datagram_size = initial_packet_size;
  last_sent_time = 0;
}

unfoldable pub set_pacer_datagram_size : Pacer → ℕ → Pacer
set_pacer_datagram_size p s = record p { max_datagram_size = s }

module _ (min_pacing_delay : ℕ) where
  unfoldable pub max_burst_size : Pacer → ℕ → ℕ
  max_burst_size p bandwidth =
      signed_max (signed_div (mul64 (add64 min_pacing_delay 1000000) bandwidth) second)
        (mul64 max_burst_packets p.max_datagram_size)

  -- the budget that has grown since the last packet; a negative one has overflowed
  unfoldable pub grown_budget : Pacer → ℕ → ℕ → ℕ
  grown_budget p bandwidth now =
      let grown =
        add64 p.budget_at_last_sent
          (signed_div (mul64 bandwidth (sub_time now p.last_sent_time)) second) in
      if less grown 0 then 2 ^ 62 - 1 else grown

  unfoldable pub budget : Pacer → ℕ → ℕ → ℕ
  budget p bandwidth now =
      if p.last_sent_time == 0
      then max_burst_size p bandwidth
      else signed_min (max_burst_size p bandwidth) (grown_budget p bandwidth now)

  unfoldable pub sent_packet : Pacer → ℕ → ℕ → ℕ → Pacer
  sent_packet p bandwidth send_time size =
      let left = budget p bandwidth send_time in
      record p {
        budget_at_last_sent = if less left size then 0 else sub64 left size;
        last_sent_time = send_time;
      }

  unfoldable pub time_until_send : (ℕ → ℕ → ℕ) → Pacer → ℕ → ℕ
  time_until_send pause p bandwidth =
      if not (less p.budget_at_last_sent p.max_datagram_size)
      then 0
      else add_time p.last_sent_time (
          signed_max min_pacing_delay
            (pause (sub64 p.max_datagram_size p.budget_at_last_sent) bandwidth))
