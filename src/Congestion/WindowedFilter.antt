-- ===== src/Congestion/WindowedFilter.antt =====
-- protocol/tuic/congestion/bbr/windowed_filter.go, for times that are `uint64`, as BBR uses it. The
-- zero sample `*new(V)` is the parameter `zero_value`. The comparator is the parameter `comparator`, its
-- results 1, 0 and -1 are `gt`, `eq` and `lt`. The slice `estimates` has three entries always.
pub mod Laws
mod Tests
use outbound.Prelude.{ltb, leb, if◌then◌else◌, ℕ, ◌+◌, ◌-◌, ◌/◌, ◌^◌, Bool, true, false, ◌&&◌}
use outbound.Prelude.{◌||◌, List, [], ◌∷◌}
use Prim.Native.Nat.{compare, Ordering}

pub record Entry (V : Type 0) : Type 0 where
  pub sample : V
  pub time : ℕ

pub record WindowedFilter (V : Type 0) : Type 0 where
  pub window_length : ℕ
  pub best : Entry V
  pub second_best : Entry V
  pub third_best : Entry V

abbrev pub max_filter : ℕ → ℕ → Ordering
max_filter a b = compare a b

-- a comparator that orders samples by a number
abbrev pub by_key : {V : Type 0} → (V → ℕ) → V → V → Ordering
by_key key a b = compare (key a) (key b)

abbrev pub min_filter : ℕ → ℕ → Ordering
min_filter a b = compare b a

module _ {V : Type 0} where
  pub set_window_length : WindowedFilter V → ℕ → WindowedFilter V
  set_window_length f w = record f { window_length = w }

  unfoldable pub reset : WindowedFilter V → Entry V → WindowedFilter V
  reset f e = record f { best = e; second_best = e; third_best = e }

module _ {V : Type 0} (zero_value : V) where
  abbrev pub zero_entry : Entry V
  zero_entry = record { sample = zero_value; time = 0 }

  unfoldable pub new_windowed_filter : ℕ → WindowedFilter V
  new_windowed_filter w = record {
    window_length = w;
    best = zero_entry;
    second_best = zero_entry;
    third_best = zero_entry;
  }

  unfoldable pub clear : WindowedFilter V → WindowedFilter V
  clear f = record f { best = zero_entry; second_best = zero_entry; third_best = zero_entry }

-- `newTime - time` on `uint64`
abbrev pub elapsed : ℕ → ℕ → ℕ
elapsed now t = if leb t now then now - t else now + 2 ^ 64 - t

-- Whether the entry is older than `age`.
abbrev pub older : {V : Type 0} → ℕ → Entry V → ℕ → Bool
older now e age = ltb age (elapsed now e.time)

module _ {V : Type 0} (zero_value : V) (comparator : V → V → Ordering) where
  abbrev pub at_least : V → V → Bool
  at_least a b = elim (comparator a b) [ Ordering.lt ↦ false | _ ↦ true ]

  abbrev pub same : V → V → Bool
  same a b = elim (comparator a b) [ Ordering.eq ↦ true | _ ↦ false ]

  -- whether `Update` starts over with the sample
  unfoldable pub starts_over : WindowedFilter V → Entry V → Bool
  starts_over f e =
      same f.best.sample zero_value
      || at_least e.sample f.best.sample
      || older e.time f.third_best f.window_length

  -- the sample recorded as second and third best, or as third best
  unfoldable pub recorded : WindowedFilter V → Entry V → WindowedFilter V
  recorded f e =
      if at_least e.sample f.second_best.sample
      then record f { second_best = e; third_best = e }
      else if at_least e.sample f.third_best.sample
      then record f { third_best = e }
      else f

  -- the best estimate is too old: the others move up, once or twice
  unfoldable pub promoted : WindowedFilter V → Entry V → WindowedFilter V
  promoted f e =
      if older e.time f.second_best f.window_length
      then record f { best = f.third_best; second_best = e; third_best = e }
      else record f { best = f.second_best; second_best = f.third_best; third_best = e }

  -- a second or third best that is as good as the one before it and too old for its part of the
  -- window is replaced by the sample
  unfoldable pub spread : WindowedFilter V → Entry V → WindowedFilter V
  spread f e =
      if same f.second_best.sample f.best.sample && older e.time f.second_best (f.window_length / 4)
      then record f { second_best = e; third_best = e }
      else if same f.third_best.sample f.second_best.sample
          && older e.time f.third_best (f.window_length / 2)
      then record f { third_best = e }
      else f

  unfoldable pub update : WindowedFilter V → Entry V → WindowedFilter V
  update f e =
      if starts_over f e
      then reset f e
      else let g = recorded f e in
        if older e.time g.best g.window_length then promoted g e else spread g e

  -- the samples of a stream, one after the other
  pub update_all : WindowedFilter V → List (Entry V) → WindowedFilter V
  update_all f [] = f
  update_all f (e ∷ es) = update_all (update f e) es
