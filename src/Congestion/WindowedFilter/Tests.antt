-- ===== src/Congestion/WindowedFilter/Tests.antt =====
-- A window of ten rounds.
use outbound.Prelude.{ℕ, ◌<◌, ◌≡◌, refl, arith}
use outbound.Congestion.WindowedFilter.{Entry, WindowedFilter, max_filter, starts_over, recorded}
use outbound.Congestion.WindowedFilter.{promoted, update}
use outbound.Congestion.WindowedFilter.Laws.{IsOrdered}

abbrev at : ℕ → ℕ → Entry ℕ
at t x = record { sample = x; time = t }

abbrev identity : ℕ → ℕ
identity x = x

abbrev started : WindowedFilter ℕ
started = record { window_length = 10; best = at 0 9; second_best = at 2 7; third_best = at 4 5 }

started-IsOrdered : IsOrdered identity 4 started
started-IsOrdered = record {
  first_two = omega arith;
  last_two = omega arith;
  older_first = omega arith;
  older_second = omega arith;
  not_future = omega arith;
}

-- the best one has expired, so the second one takes its place
promoted_once : (update 0 max_filter started (at 11 3)).best ≡ at 2 7
unfolding update starts_over recorded promoted
promoted_once = refl

abbrev NotZero : Entry ℕ → Type 0
NotZero e = 0 < e.sample
