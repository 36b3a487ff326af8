-- ===== src/Congestion/Brutal/Sum.antt =====
-- The five slots of brutal.go add up to the last five seconds.
use outbound.Prelude.{ltb, if◌then◌else◌, ℕ, zero, suc, ◌+◌, ◌-◌, ◌%◌, ◌≤◌, ◌<◌, ◌≡◌, refl, sym}
use outbound.Prelude.{ap, ◌∙◌, Bool, true, false, List, arith}
use outbound.Congestion.Words.{word, add64}
use outbound.Congestion.Brutal.{PktInfo, sum_recent}
use outbound.Congestion.Brutal.Window.{in_second, in_last, recent, recent_lem, Tracks}

if_step :
    (t : Bool) (p c rest : ℕ)
    → rest ≡ p % word
    → (if t then rest else add64 rest c) ≡ (p + (if t then 0 else c)) % word
if_step true p c rest e = omega (arith, e)
if_step false p c rest e = omega (arith, e)

five :
    (r : ℕ → ℕ) (a : ℕ)
    → a < 5
    → r a + r ((a + 4) % 5) + r ((a + 3) % 5) + r ((a + 2) % 5) + r ((a + 1) % 5)
      ≡ r 0 + r 1 + r 2 + r 3 + r 4
five r zero h = omega arith
five r (suc zero) h = omega arith
five r (suc (suc zero)) h = omega arith
five r (suc (suc (suc zero))) h = omega arith
five r (suc (suc (suc (suc zero)))) h = omega arith
five r (suc (suc (suc (suc (suc a))))) h = absurd (omega (arith, h))

last_five :
    (a b c d e v w x y z : ℕ)
    → v ≡ a
    → w ≡ b
    → x ≡ c
    → y ≡ d
    → z ≡ e
    → (v + w + x + y + z) % word ≡ add64 (add64 (add64 (add64 (add64 0 e) d) c) b) a
last_five a b c d e v w x y z h i j k l = omega (arith, h, i, j, k, l)

module _ (count : PktInfo → ℕ) where
  plain : (ℕ → PktInfo) → ℕ → ℕ → ℕ
  plain slots now zero = 0
  plain slots now (suc n) = plain slots now n + recent count (slots n) now

  sum_recent-plain :
      (slots : ℕ → PktInfo) (now n : ℕ) → sum_recent slots count now n ≡ plain slots now n % word
  unfolding sum_recent plain
  sum_recent-plain slots now zero = refl
  sum_recent-plain slots now (suc n) =
      let rest = sum_recent-plain slots now n in
      if_step (ltb ((slots n).timestamp + 5) now) (plain slots now n) (count (slots n)) _ rest

  sum_plain :
      (log : List (ℕ × ℕ)) (now : ℕ) (slots : ℕ → PktInfo)
      → sum_recent slots count now 5
        ≡ (recent count (slots 0) now
            + recent count (slots 1) now
            + recent count (slots 2) now
            + recent count (slots 3) now
            + recent count (slots 4) now)
          % word
  unfolding plain
  sum_plain log now slots = sum_recent-plain slots now 5 ∙ ap (λ x. x % word) (omega arith)

  -- The sum over the slots is that over the last five seconds.
  pub sum_lem :
      (log : List (ℕ × ℕ)) (now : ℕ) (slots : ℕ → PktInfo)
      → Tracks count log now slots
      → 10 ≤ now
      → (slots (now % 5)).timestamp ≡ now
      → sum_recent slots count now 5 ≡ in_last log now 5
  unfolding sum_recent
  sum_lem log now slots (u, h) old present =
      let r : ℕ → ℕ = λ j. recent count (slots j) now in
      let at : (s : ℕ)
          → 0 < s
          → s ≤ now
          → now < s + 5
          → (s ≡ now → (slots (s % 5)).timestamp ≡ now)
          → r (s % 5) ≡ in_second log s =
        λ s p k l e.
          recent_lem count log now s (slots (s % 5)) (h (s % 5) (omega arith)) (omega (arith, old))
            p k l e in
      let e0 = at now (omega (arith, old)) (omega arith) (omega arith) (λ e. present) in
      let e1 =
        at (now - 1) (omega (arith, old)) (omega arith) (omega arith)
          (λ e. absurd (omega (arith, e, old))) in
      let e2 =
        at (now - 1 - 1) (omega (arith, old)) (omega arith) (omega arith)
          (λ e. absurd (omega (arith, e, old))) in
      let e3 =
        at (now - 1 - 1 - 1) (omega (arith, old)) (omega arith) (omega arith)
          (λ e. absurd (omega (arith, e, old))) in
      let e4 =
        at (now - 1 - 1 - 1 - 1) (omega (arith, old)) (omega arith) (omega (arith, old))
          (λ e. absurd (omega (arith, e, old))) in
      sum_plain log now slots
      ∙ ap (λ x. x % word) (sym (five r (now % 5) (omega arith)))
      ∙ last_five (in_second log now) (in_second log (now - 1)) (in_second log (now - 1 - 1))
          (in_second log (now - 1 - 1 - 1)) (in_second log (now - 1 - 1 - 1 - 1)) _ _ _ _ _ e0
          (ap r (omega (arith, old)) ∙ e1) (ap r (omega (arith, old)) ∙ e2)
          (ap r (omega (arith, old)) ∙ e3) (ap r (omega (arith, old)) ∙ e4)
