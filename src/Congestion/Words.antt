-- ===== src/Congestion/Words.antt =====
-- Go's 64-bit integers, as protocol/tuic/congestion uses them for `congestion.ByteCount`,
-- `time.Duration` and `Bandwidth`, and its times, numbers of nanoseconds. An integer is the number below 2 ^ 64 with the same 64 bits, so that a negative
-- one is 2 ^ 63 or more; conversions between the three types change nothing.
use outbound.Prelude.{ltb, leb, if◌then◌else◌, ℕ, ◌+◌, ◌-◌, ◌*◌, ◌/◌, ◌%◌, ◌^◌, ◌≤◌, ◌<◌, min}
use outbound.Prelude.{◌≡◌, Bool, arith}

abbrev pub word : ℕ
word = 2 ^ 64

abbrev pub half : ℕ
half = 2 ^ 63

abbrev pub add64 : ℕ → ℕ → ℕ
add64 a b = (a + b) % word

abbrev pub sub64 : ℕ → ℕ → ℕ
sub64 a b = (a + (word - b)) % word

abbrev pub mul64 : ℕ → ℕ → ℕ
mul64 a b = (a * b) % word

-- A signed integer, moved up by 2 ^ 63: the order is that of the natural numbers.
abbrev pub signed : ℕ → ℕ
signed a = (a + half) % word

abbrev pub less : ℕ → ℕ → Bool
less a b = ltb (signed a) (signed b)

-- Go's signed division rounds towards 0; `d` is positive.
abbrev pub signed_div : ℕ → ℕ → ℕ
signed_div a d = if ltb a half then a / d else (word - (word - a) / d) % word

-- Go's `min` and `max` of signed integers
abbrev pub signed_min : ℕ → ℕ → ℕ
signed_min a b = if less b a then b else a

abbrev pub signed_max : ℕ → ℕ → ℕ
signed_max a b = if less a b then b else a

-- `t.Sub(u)` stops at the ends of the 64-bit integers.
abbrev pub sub_time : ℕ → ℕ → ℕ
sub_time t u = if leb u t then min (t - u) (half - 1) else word - min (u - t) half

-- `t.Add(d)`
abbrev pub add_time : ℕ → ℕ → ℕ
add_time t d = if ltb d half then t + d else t - (word - d)

-- A number below 2 ^ 63 stands for itself.
abbrev pub IsSmall : ℕ → Type 0
IsSmall a = a < half

pub less_small : (a b : ℕ) → IsSmall a → IsSmall b → less a b ≡ ltb a b
less_small a b h k = ground arith

pub sub64_small : (a b : ℕ) → b ≤ a → IsSmall a → sub64 a b ≡ a - b
sub64_small a b h k = omega (arith, h, k)

pub add64_small : (a b : ℕ) → IsSmall (a + b) → add64 a b ≡ a + b
add64_small a b h = omega (arith, h)

pub signed_small : (a b : ℕ) → IsSmall b → signed a ≤ signed b → IsSmall a → a ≤ b
signed_small a b k h l = omega (arith, k, h, l)
