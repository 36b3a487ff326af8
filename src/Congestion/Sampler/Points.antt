-- ===== src/Congestion/Sampler/Points.antt =====
-- The ack points of bandwidth_sampler.go: `recentAckPoints`, and `chooseA0Point` on the ring of the
-- candidates. Byte counts are 64-bit integers, times as in Sampler/Tracker.
pub mod Choice
mod Tests
use outbound.Prelude.{ltb, ◌==◌, if◌then◌else◌, ℕ, zero, suc, ◌-◌, Option, none, some}
use outbound.Congestion.Words.{less}
use outbound.Congestion.RingBuffer.{RingBuffer, len, is_empty, offset, front, back, pop_front}

pub record AckPoint : Type 0 where
  pub ack_time : ℕ
  pub total_bytes_acked : ℕ

abbrev pub no_point : AckPoint
no_point = record { ack_time = 0; total_bytes_acked = 0 }

-- the array's entries 0 and 1
pub record RecentAckPoints : Type 0 where
  pub previous : AckPoint
  pub latest : AckPoint

-- `Update` of the recent ack points
pub update_points : RecentAckPoints → ℕ → ℕ → RecentAckPoints
update_points r ack_time total_bytes_acked =
    let latest : AckPoint = record { ack_time = ack_time; total_bytes_acked = total_bytes_acked } in
    if ltb ack_time r.latest.ack_time
    then record r { latest = latest }
    else if ltb r.latest.ack_time ack_time
    then record { previous = r.latest; latest = latest }
    else record r { latest = record r.latest { total_bytes_acked = total_bytes_acked } }

-- `Clear`
abbrev pub no_points : RecentAckPoints
no_points = record { previous = no_point; latest = no_point }

pub less_recent_point : RecentAckPoints → AckPoint
less_recent_point r = if r.previous.total_bytes_acked == 0 then r.latest else r.previous

-- `n` calls of `PopFront`, none of them on an empty ring
unfoldable pub pop_fronts : RingBuffer AckPoint → ℕ → RingBuffer AckPoint
pop_fronts r zero = r
pop_fronts r (suc n) = elim (pop_front no_point r) [ none ↦ r | some (p, s) ↦ pop_fronts s n ]

-- The last loop of `chooseA0Point`, from the count `k` on: it compares `k` with the length that is
-- left, so a round brings the two closer by two, and the length is fuel enough.
unfoldable pub pop_shrinking : ℕ → RingBuffer AckPoint → ℕ → RingBuffer AckPoint
pop_shrinking zero r k = r
pop_shrinking (suc fuel) r k = elim (pop_front no_point r) [
  | none ↦ r
  | some (p, s) ↦ let rest = pop_shrinking fuel s (suc k) in if ltb k (len r - 1) then rest else r
]

-- The first index from `i` on whose candidate has more bytes acknowledged; `n` indices are left.
unfoldable pub first_beyond : RingBuffer AckPoint → ℕ → ℕ → ℕ → Option ℕ
first_beyond r total zero i = none
first_beyond r total (suc n) i =
    let rest = first_beyond r total n (suc i) in
    elim (offset r i) [
      | none ↦ none
      | some p ↦ if less total p.total_bytes_acked then some i else rest
    ]

-- `chooseA0Point` answers the point, `none` where it returns `false`, and the candidates.
pub choose_a0_point : RingBuffer AckPoint → ℕ → Option AckPoint × RingBuffer AckPoint
choose_a0_point r total =
    if is_empty r
    then (none, r)
    else if len r == 1
    then (front r, r)
    else elim (first_beyond r total (len r - 1) 1) [
      | some i ↦ (offset r (i - 1), pop_fronts r (i - 1))
      | none ↦ (back r, pop_shrinking (len r) r 0)
    ]
