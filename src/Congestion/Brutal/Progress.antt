-- ===== src/Congestion/Brutal/Progress.antt =====
-- The sender of brutal.go and its pacer: when `TimeUntilSend` has passed, a packet can be sent.
use outbound.Prelude.{ℕ, ◌-◌, ◌*◌, ◌^◌, ◌≤◌, ◌<◌, ◌≡◌, refl, sym, ap, ◌∙◌, true, not}
use outbound.Congestion.Words.{less, IsSmall}
use outbound.Congestion.Pacer.{second, new_pacer, set_pacer_datagram_size, budget, sent_packet}
use outbound.Congestion.Pacer.Laws.{Runs, pacer_progress}
use outbound.Congestion.Brutal.{BrutalSender, Floats, new_brutal_sender, brutal_bandwidth}
use outbound.Congestion.Brutal.{brutal_has_pacing_budget, brutal_time_until_send}
use outbound.Congestion.Brutal.{brutal_on_packet_sent, update_ack_rate}
use outbound.Congestion.Brutal.{brutal_on_congestion_event, brutal_set_max_datagram_size}
use mathlib.Core.Path.{subst}

-- The states after any calls.
pub data BrutalReach (f : Floats) (bps : ℕ) : BrutalSender → Type 0 where
  brutal_created : BrutalReach f bps (new_brutal_sender f bps)
  brutal_sent :
      {b : BrutalSender}
      → BrutalReach f bps b
      → (sent_time bytes : ℕ) → BrutalReach f bps (brutal_on_packet_sent f b sent_time bytes)
  brutal_resized :
      {b : BrutalSender}
      → BrutalReach f bps b
      → (size : ℕ) → BrutalReach f bps (brutal_set_max_datagram_size b size)
  brutal_heard :
      {b : BrutalSender}
      → BrutalReach f bps b
      → (now acks losses : ℕ) → BrutalReach f bps (brutal_on_congestion_event f b now acks losses)

same_size :
    (f : Floats) (bps : ℕ) (b : BrutalSender)
    → BrutalReach f bps b
    → b.pacer.max_datagram_size ≡ b.max_datagram_size
unfolding new_brutal_sender new_pacer brutal_on_packet_sent sent_packet brutal_set_max_datagram_size
    set_pacer_datagram_size brutal_on_congestion_event update_ack_rate
same_size f bps _ brutal_created = refl
same_size f bps _ (brutal_sent {b} h sent_time bytes) = same_size f bps b h
same_size f bps _ (brutal_resized {b} h size) = refl
same_size f bps _ (brutal_heard {b} h now acks losses) = same_size f bps b h

-- Any calls have been made on the sender, the last packet was sent a while ago, the pause that the
-- pacer computes is long enough for the bytes that are missing at the present rate, and no product
-- overflows. Then from the time that `TimeUntilSend` names on `HasPacingBudget` holds, so that the
-- caller that waits for this time does not wait in vain: the pacer and the sender agree on the size of
-- a packet after every call.
pub brutal_progress :
    (f : Floats) (bps : ℕ) (b : BrutalSender) (pause : ℕ → ℕ → ℕ) (now : ℕ)
    → BrutalReach f bps b
    → Runs f.min_pacing_delay b.pacer (brutal_bandwidth f b) now
    → IsSmall (10 * b.max_datagram_size)
    → f.min_pacing_delay < 2 ^ 62
    → pause (b.max_datagram_size - b.pacer.budget_at_last_sent) (brutal_bandwidth f b) < 2 ^ 62
    → (b.max_datagram_size - b.pacer.budget_at_last_sent) * second
      ≤ brutal_bandwidth f b
        * pause (b.max_datagram_size - b.pacer.budget_at_last_sent) (brutal_bandwidth f b)
    → brutal_time_until_send f pause b ≤ now
    → brutal_has_pacing_budget f b now ≡ true
unfolding brutal_time_until_send brutal_has_pacing_budget
brutal_progress f bps b pause now r h small short bound long waited =
    let w = brutal_bandwidth f b in
    let same = same_size f bps b r in
    let left = b.pacer.budget_at_last_sent in
    let enough =
      pacer_progress f.min_pacing_delay pause b.pacer w now h
        (subst (λ s. IsSmall (10 * s)) (sym same) small) short
        (subst (λ s. pause (s - left) w < 2 ^ 62) (sym same) bound)
        (subst (λ s. (s - left) * second ≤ w * pause (s - left) w) (sym same) long) waited in
    ap not (ap (less (budget f.min_pacing_delay b.pacer w now)) (sym same) ∙ enough)
