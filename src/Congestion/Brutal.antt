-- ===== src/Congestion/Brutal.antt =====
-- protocol/tuic/congestion/brutal/brutal.go: the sender at a fixed rate, on the pacer. The array
-- `pktInfoSlots` is a function of the index, which is a remainder always. What float64 makes of the
-- rate of acknowledgements is a parameter. The debug output is left out.
pub mod Window
pub mod Sum
pub mod Rate
pub mod Progress
mod Tests
use outbound.Prelude.{ltb, ◌==◌, if◌then◌else◌, ℕ, zero, suc, ◌+◌, ◌%◌, Bool, not}
use outbound.Congestion.Words.{add64, less, signed_max}
use outbound.Congestion.Pacer.{Pacer, new_pacer, set_pacer_datagram_size, budget, sent_packet}
use outbound.Congestion.Pacer.{time_until_send}

pub record PktInfo : Type 0 where
  pub timestamp : ℕ
  pub ack_count : ℕ
  pub loss_count : ℕ

-- 1, `minAckRate`, or a measured rate: the acknowledged packets of all
pub data AckRate : Type 0 where
  full_rate : AckRate
  min_ack_rate : AckRate
  measured : ℕ → ℕ → AckRate

abbrev pub pkt_info_slot_count : ℕ
pkt_info_slot_count = 5

abbrev pub min_sample_count : ℕ
min_sample_count = 50

pub record BrutalSender : Type 0 where
  pub bps : ℕ
  pub max_datagram_size : ℕ
  pub pacer : Pacer
  pub pkt_info_slots : ℕ → PktInfo
  pub ack_rate : AckRate

-- `float64` on the rates, and quic-go's constants
pub record Floats : Type 0 where
  -- `float64(acks) / float64(all) < minAckRate`
  pub is_low : ℕ → ℕ → Bool
  -- `congestion.ByteCount(float64(bps) / rate)`
  pub paced : ℕ → AckRate → ℕ
  -- `congestion.ByteCount(float64(bps) * rtt.Seconds() * congestionWindowMultiplier / rate)`
  pub window : ℕ → ℕ → AckRate → ℕ
  pub min_pacing_delay : ℕ
  pub initial_packet_size : ℕ

abbrev pub no_info : PktInfo
no_info = record { timestamp = 0; ack_count = 0; loss_count = 0 }

-- the slot of the second `now`, after some packets are acknowledged and lost
unfoldable pub counted_in : PktInfo → ℕ → ℕ → ℕ → PktInfo
counted_in i now acks losses =
    if i.timestamp == now
    then record i { ack_count = add64 i.ack_count acks; loss_count = add64 i.loss_count losses }
    else record { timestamp = now; ack_count = acks; loss_count = losses }

unfoldable pub put_slot : (ℕ → PktInfo) → ℕ → PktInfo → ℕ → PktInfo
put_slot slots i x j = if j == i then x else slots j

-- the sum over the first `n` slots that are not too old
unfoldable pub sum_recent : (ℕ → PktInfo) → (PktInfo → ℕ) → ℕ → ℕ → ℕ
sum_recent slots count now zero = 0
sum_recent slots count now (suc n) =
    let rest = sum_recent slots count now n in
    if ltb ((slots n).timestamp + pkt_info_slot_count) now
    then rest
    else add64 rest (count (slots n))

module _ (f : Floats) where
  unfoldable pub new_brutal_sender : ℕ → BrutalSender
  new_brutal_sender bps = record {
    bps = bps;
    max_datagram_size = f.initial_packet_size;
    pacer = new_pacer f.initial_packet_size;
    pkt_info_slots = λ j. no_info;
    ack_rate = full_rate;
  }

  unfoldable pub brutal_bandwidth : BrutalSender → ℕ
  brutal_bandwidth b = f.paced b.bps b.ack_rate

  unfoldable pub brutal_has_pacing_budget : BrutalSender → ℕ → Bool
  brutal_has_pacing_budget b now =
      not (less (budget f.min_pacing_delay b.pacer (brutal_bandwidth b) now) b.max_datagram_size)

  unfoldable pub brutal_time_until_send : (ℕ → ℕ → ℕ) → BrutalSender → ℕ
  brutal_time_until_send pause b =
      time_until_send f.min_pacing_delay pause b.pacer (brutal_bandwidth b)

  -- `rtt` is what `SmoothedRTT` returns, or 0 without a provider
  unfoldable pub brutal_congestion_window : BrutalSender → ℕ → ℕ
  brutal_congestion_window b rtt =
      if not (less 0 rtt)
      then 10240
      else signed_max (f.window b.bps rtt b.ack_rate) b.max_datagram_size

  unfoldable pub brutal_can_send : BrutalSender → ℕ → ℕ → Bool
  brutal_can_send b rtt in_flight = not (less (brutal_congestion_window b rtt) in_flight)

  unfoldable pub brutal_on_packet_sent : BrutalSender → ℕ → ℕ → BrutalSender
  brutal_on_packet_sent b sent_time bytes = record b {
    pacer = sent_packet f.min_pacing_delay b.pacer (brutal_bandwidth b) sent_time bytes;
  }

  unfoldable pub rate_of : ℕ → ℕ → AckRate
  rate_of acks losses =
      let all = add64 acks losses in
      if ltb all min_sample_count
      then full_rate
      else if f.is_low acks all
      then min_ack_rate
      else measured acks all

  unfoldable pub update_ack_rate : BrutalSender → ℕ → BrutalSender
  update_ack_rate b now =
      let acks = sum_recent b.pkt_info_slots (λ i. i.ack_count) now pkt_info_slot_count in
      let losses = sum_recent b.pkt_info_slots (λ i. i.loss_count) now pkt_info_slot_count in
      record b { ack_rate = rate_of acks losses }

  -- `OnCongestionEventEx` in the second `now`, of some acknowledged and lost packets
  unfoldable pub brutal_on_congestion_event : BrutalSender → ℕ → ℕ → ℕ → BrutalSender
  brutal_on_congestion_event b now acks losses =
      let slot = now % pkt_info_slot_count in
      update_ack_rate
        (record b {
          pkt_info_slots =
              put_slot b.pkt_info_slots slot (counted_in (b.pkt_info_slots slot) now acks losses);
        })
        now

unfoldable pub brutal_set_max_datagram_size : BrutalSender → ℕ → BrutalSender
brutal_set_max_datagram_size b size = record b {
  max_datagram_size = size;
  pacer = set_pacer_datagram_size b.pacer size;
}
