-- ===== src/Congestion/WindowedFilter/Laws.antt =====
-- The maximum filter of windowed_filter.go: what its estimates are worth after a stream of samples.
use outbound.Prelude.{ltb, if◌then◌else◌, Bool-cases, All, ℕ, ◌+◌, ◌-◌, ◌≤◌, ◌<◌, ◌≡◌, inl, inr}
use outbound.Prelude.{false, List, [], ◌∷◌, arith}
use outbound.Congestion.WindowedFilter.{Entry, WindowedFilter, by_key, reset, new_windowed_filter}
use outbound.Congestion.WindowedFilter.{older, starts_over, recorded, promoted, spread, update}
use outbound.Congestion.WindowedFilter.{update_all}

-- The estimates do not improve from the first to the third, nor age, and none is of the future.
pub record IsOrdered {V : Type 0} (key : V → ℕ) (now : ℕ) (f : WindowedFilter V) : Type 0 where
  pub first_two : (key f.second_best.sample) ≤ (key f.best.sample)
  pub last_two : (key f.third_best.sample) ≤ (key f.second_best.sample)
  pub older_first : f.best.time ≤ f.second_best.time
  pub older_second : f.second_best.time ≤ f.third_best.time
  pub not_future : f.third_best.time ≤ now

module _ {V : Type 0} where
  -- The times of a stream do not decrease.
  abbrev pub Ascending : ℕ → List (Entry V) → Type 0
  Ascending now [] = Unit
  Ascending now (e ∷ es) = (now ≤ e.time) × Ascending e.time es

  abbrev pub last_time : ℕ → List (Entry V) → ℕ
  last_time now [] = now
  last_time now (e ∷ es) = last_time e.time es

  -- All three estimates have a property.
  abbrev pub Estimates : (Entry V → Type 0) → WindowedFilter V → Type 0
  Estimates P f = P f.best × P f.second_best × P f.third_best

module _ {V : Type 0} (zero_value : V) (key : V → ℕ) where
  module _ (f : WindowedFilter V) (e : Entry V) where
    recorded-IsOrdered :
        IsOrdered key e.time f
        → (key e.sample) < (key f.best.sample)
        → IsOrdered key e.time (recorded zero_value (by_key key) f e)
          × ((key e.sample) ≤ (key (recorded zero_value (by_key key) f e).third_best.sample))
          × ((recorded zero_value (by_key key) f e).best ≡ f.best)
          × ((recorded zero_value (by_key key) f e).window_length ≡ f.window_length)
          × (f.third_best.time ≤ (recorded zero_value (by_key key) f e).third_best.time)
    unfolding recorded
    recorded-IsOrdered h k = ground arith

    -- What one update promises of the filter `g`.
    abbrev pub Kept : WindowedFilter V → Type 0
    Kept g =
        IsOrdered key e.time g
        × ((key e.sample) ≤ (key g.best.sample))
        × (e.time ≤ g.best.time + f.window_length)

    promoted-Kept :
        IsOrdered key e.time f
        → (key e.sample) ≤ (key f.third_best.sample)
        → e.time ≤ f.third_best.time + f.window_length
        → Kept (promoted zero_value (by_key key) f e)
    unfolding promoted
    promoted-Kept h k l = ground arith

    spread-Kept :
        IsOrdered key e.time f
        → (key e.sample) ≤ (key f.third_best.sample)
        → ltb f.window_length (e.time - f.best.time) ≡ false
        → Kept (spread zero_value (by_key key) f e)
    unfolding spread
    spread-Kept h k l = ground arith

  reset-Kept : (f : WindowedFilter V) (e : Entry V) → Kept f e (reset f e)
  unfolding reset
  reset-Kept f e = ground arith

  later-IsOrdered : (f : WindowedFilter V) (a b : ℕ) → IsOrdered key a f → a ≤ b → IsOrdered key b f
  later-IsOrdered f a b h k = record {
    first_two = h.first_two;
    last_two = h.last_two;
    older_first = h.older_first;
    older_second = h.older_second;
    not_future = omega (arith, h.not_future);
  }

  continues :
      (f : WindowedFilter V) (e : Entry V)
      → IsOrdered key e.time f
      → starts_over zero_value (by_key key) f e ≡ false
      → ((key e.sample) < (key f.best.sample)) × (e.time ≤ f.third_best.time + f.window_length)
  unfolding starts_over
  continues f e h k = ground arith

  -- The second half of `Update`, behind the recording of the sample.
  moved-Kept :
      (g : WindowedFilter V) (e : Entry V)
      → IsOrdered key e.time g
      → (key e.sample) ≤ (key g.third_best.sample)
      → e.time ≤ g.third_best.time + g.window_length
      → Kept g e (
          if older e.time g.best g.window_length
          then promoted zero_value (by_key key) g e
          else spread zero_value (by_key key) g e)
  moved-Kept g e h k l = elim (Bool-cases (older e.time g.best g.window_length)) [
    | inl b ↦ rw b (promoted-Kept g e h k l)
    | inr b ↦ rw b (spread-Kept g e h k (ground arith))
  ]

  -- A sample that is not older than the last one: the maximum filter keeps its estimates ordered in
  -- quality and in age, its best one is no worse than the sample and no older than the window.
  pub update_lem :
      (f : WindowedFilter V) (now : ℕ) (e : Entry V)
      → IsOrdered key now f
      → now ≤ e.time
      → IsOrdered key e.time (update zero_value (by_key key) f e)
        × ((key e.sample) ≤ (key (update zero_value (by_key key) f e).best.sample))
        × (e.time ≤ (update zero_value (by_key key) f e).best.time + f.window_length)
  unfolding update
  update_lem f now e h k =
      let h' : IsOrdered key e.time f = later-IsOrdered f now e.time h k in
      elim (Bool-cases (starts_over zero_value (by_key key) f e)) [
        | inl b ↦ rw b (reset-Kept f e)
        | inr b ↦
            let c = continues f e h' b in
            let r = recorded-IsOrdered f e h' c.0 in
            let g : WindowedFilter V = recorded zero_value (by_key key) f e in
            let m = moved-Kept g e r.0 r.1 (omega (arith, c.1, r.3, r.4)) in
            rw b (m.0, m.1, omega (arith, m.2, r.3))
      ]

  -- A whole stream of samples whose times do not decrease keeps the estimates of the maximum filter
  -- ordered in quality and in age.
  pub update_all-IsOrdered :
      (f : WindowedFilter V) (now : ℕ) (es : List (Entry V))
      → IsOrdered key now f
      → Ascending now es
      → IsOrdered key (last_time now es) (update_all zero_value (by_key key) f es)
  unfolding update_all
  update_all-IsOrdered f now [] h k = h
  update_all-IsOrdered f now (e ∷ es) h k =
      update_all-IsOrdered (update zero_value (by_key key) f e) e.time es
        (update_lem f now e h k.0).0 k.1

  module _ (P : Entry V → Type 0) where
    update-Estimates :
        (f : WindowedFilter V) (e : Entry V)
        → Estimates P f
        → P e
        → Estimates P (update zero_value (by_key key) f e)
    unfolding update reset recorded promoted spread
    update-Estimates f e h k = ground (arith, h, k)

    update_all-Estimates :
        (f : WindowedFilter V) (es : List (Entry V))
        → Estimates P f
        → All P es
        → Estimates P (update_all zero_value (by_key key) f es)
    unfolding update_all
    update_all-Estimates f [] h k = h
    update_all-Estimates f (e ∷ es) h k =
        update_all-Estimates (update zero_value (by_key key) f e) es (update-Estimates f e h k.0)
          k.1

    first_update :
        (w : ℕ) (e : Entry V)
        → P e
        → Estimates P (update zero_value (by_key key) (new_windowed_filter zero_value w) e)
    unfolding update starts_over reset new_windowed_filter
    first_update w e h = ground (arith, h)

    -- Whatever holds of every sample of a stream holds of the three estimates of a new filter that
    -- was fed the stream, if it has a sample: the zero entries of the start are gone.
    pub only_samples :
        (w : ℕ) (e : Entry V) (es : List (Entry V))
        → All P (e ∷ es)
        → Estimates P
            (update_all zero_value (by_key key) (new_windowed_filter zero_value w) (e ∷ es))
    unfolding update_all
    only_samples w e es h =
        update_all-Estimates (update zero_value (by_key key) (new_windowed_filter zero_value w) e)
          es (first_update w e h.0) h.1
