-- ===== src/Congestion/Brutal/Window.antt =====
-- The slots of brutal.go hold the counts of the latest seconds.
use outbound.Prelude.{ltb, ◌==◌, if◌then◌else◌, Bool-cases, if_cases, ℕ, zero, suc, ◌+◌, ◌-◌, ◌%◌}
use outbound.Prelude.{◌≤◌, ◌<◌, ◌≡◌, refl, sym, ap, ◌∙◌, ◌≢◌, ◌⊎◌, inl, inr, true, false, List}
use outbound.Prelude.{[], ◌∷◌, arith}
use outbound.Congestion.Words.{add64}
use outbound.Congestion.Brutal.{PktInfo, counted_in, put_slot}
use mathlib.Core.Path.{subst}

-- The events so far, the last one first: the second, and the number of packets.
abbrev pub in_second : List (ℕ × ℕ) → ℕ → ℕ
in_second [] s = 0
in_second ((t, n) ∷ log) s = if t == s then add64 (in_second log s) n else in_second log s

-- the packets of the last `n` seconds, up to `now`
abbrev pub in_last : List (ℕ × ℕ) → ℕ → ℕ → ℕ
in_last log now zero = 0
in_last log now (suc n) = add64 (in_last log (now - 1) n) (in_second log now)

in_second_hit :
    (log : List (ℕ × ℕ)) (t n s : ℕ)
    → (t == s) ≡ true
    → in_second ((t, n) ∷ log) s ≡ add64 (in_second log s) n
in_second_hit log t n s e = rw e refl

in_second_miss :
    (log : List (ℕ × ℕ)) (t n s : ℕ)
    → (t == s) ≡ false
    → in_second ((t, n) ∷ log) s ≡ in_second log s
in_second_miss log t n s e = rw e refl

apart : (t s j : ℕ) → ((s % 5 ≡ j) ⊎ (s ≡ 0)) → t % 5 ≢ j → 0 < t → (t == s) ≡ false
apart t s j (inl c) other p = elim (Bool-cases (t == s)) [
  | inl e ↦ absurd (other (ap (λ x. x % 5) (ground (arith, e)) ∙ c))
  | inr e ↦ e
]
apart t s j (inr z) other p = ground (arith, z, p)

-- No event is later than `now`.
abbrev pub Until : ℕ → List (ℕ × ℕ) → Type 0
Until now [] = Unit {0}
Until now ((t, n) ∷ log) = (t ≤ now) × Until now log

none_later : (log : List (ℕ × ℕ)) (now s : ℕ) → Until now log → now < s → in_second log s ≡ 0
none_later [] now s h k = refl
none_later ((t, n) ∷ log) now s (h, rest) k =
    let other : (t == s) ≡ false = ground (arith, h, k) in rw other (none_later log now s rest k)

Until-later : (log : List (ℕ × ℕ)) (now t : ℕ) → Until now log → now ≤ t → Until t log
Until-later [] now t h k = tt
Until-later ((u, n) ∷ log) now t (h, rest) k = (omega (arith, h, k), Until-later log now t rest k)

earlier :
    (t s now : ℕ)
    → ((t % 5 ≡ s % 5) ⊎ (t ≡ 0))
    → t ≤ now
    → 5 < now
    → 0 < s
    → s < now
    → now < s + 5
    → (t == s) ≡ false
    → (t < s) × (t + 5 < now)
earlier t s now (inl c) h old p k l e =
    let other : t ≢ s = λ x. absurd (ground (arith, e, x)) in
    (omega (arith, c, h, k, l, other), omega (arith, c, h, k, l, other))
earlier t s now (inr z) h old p k l e = (omega (arith, z, p), omega (arith, z, old))

module _ (count : PktInfo → ℕ) where
  -- Slot `j` has the counts of the latest second of the log that belongs to it.
  abbrev pub Holds : List (ℕ × ℕ) → ℕ → ℕ → PktInfo → Type 0
  Holds log now j i =
      ((i.timestamp % 5 ≡ j) ⊎ (i.timestamp ≡ 0))
      × (i.timestamp ≤ now)
      × (count i ≡ in_second log i.timestamp)
      × ((s : ℕ) → s % 5 ≡ j → i.timestamp < s → in_second log s ≡ 0)

  -- what `updateAckRate` reads of a slot
  abbrev pub recent : PktInfo → ℕ → ℕ
  recent i now = if ltb (i.timestamp + 5) now then 0 else count i

  -- It is the count of the second `s`, which is one of the last five; if it is the present one, an
  -- event of it has been noted.
  pub recent_lem :
      (log : List (ℕ × ℕ)) (now s : ℕ) (i : PktInfo)
      → Holds log now (s % 5) i
      → 5 < now
      → 0 < s
      → s ≤ now
      → now < s + 5
      → (s ≡ now → i.timestamp ≡ now)
      → recent i now ≡ in_second log s
  recent_lem log now s i (class, before, counts, latest) old positive h k present =
      elim (Bool-cases (i.timestamp == s)) [
        | inl e ↦
            let young : ltb (i.timestamp + 5) now ≡ false = ground (arith, e, k) in
            rw young (counts ∙ ap (in_second log) (ground (arith, e)))
        | inr e ↦
            let not_now : s < now = ground (arith, e, h, present) in
            let (past, gone) = earlier i.timestamp s now class before old positive not_now k e in
            let too_old : ltb (i.timestamp + 5) now ≡ true = ground (arith, gone) in
            rw too_old (sym (latest s refl past))
      ]

  -- Noting an event of the second `t` in its slot.
  noted :
      (log : List (ℕ × ℕ)) (now t acks losses n : ℕ) (i : PktInfo)
      → ((i : PktInfo)
          → count (record i {
            ack_count = add64 i.ack_count acks;
            loss_count = add64 i.loss_count losses;
          })
            ≡ add64 (count i) n)
      → count (record { timestamp = t; ack_count = acks; loss_count = losses }) ≡ add64 0 n
      → Until now log
      → now ≤ t
      → Holds log now (t % 5) i
      → Holds ((t, n) ∷ log) t (t % 5) (counted_in i t acks losses)
        × ((counted_in i t acks losses).timestamp ≡ t)
  unfolding counted_in
  noted log now t acks losses n i grows fresh h k (class, before, counts, latest) =
      let Q : PktInfo → Type 0 = λ x. Holds ((t, n) ∷ log) t (t % 5) x × (x.timestamp ≡ t) in
      if_cases Q (i.timestamp == t)
        (λ e.
          let same : i.timestamp ≡ t = ground (arith, e) in
          let hit : (t == i.timestamp) ≡ true = ground (arith, e) in
          (
            (
              class,
              omega (arith, same),
              grows i ∙ ap (λ c. add64 c n) counts ∙ sym (in_second_hit log t n i.timestamp hit),
              λ s c lt. in_second_miss log t n s (ground (arith, same, lt)) ∙ latest s c lt,
            ),
            same,
          ))
        (λ e.
          let new : i.timestamp < t = ground (arith, e, before, k) in
          let first : in_second log t ≡ 0 = latest t refl new in
          (
            (
              inl refl,
              omega arith,
              fresh ∙ sym (in_second_hit log t n t (ground arith) ∙ ap (λ c. add64 c n) first),
              λ s c lt.
                  in_second_miss log t n s (ground (arith, lt))
                  ∙ none_later log now s h (omega (arith, k, lt)),
            ),
            refl,
          ))

  -- The other slots keep what they have.
  kept :
      (log : List (ℕ × ℕ)) (now t n j : ℕ) (i : PktInfo)
      → Until now log
      → now ≤ t
      → 0 < t
      → t % 5 ≢ j
      → Holds log now j i
      → Holds ((t, n) ∷ log) t j i
  kept log now t n j i h k positive other (class, before, counts, latest) = (
    class,
    omega (arith, before, k),
    counts ∙ sym (in_second_miss log t n i.timestamp (apart t i.timestamp j class other positive)),
    λ s c lt. in_second_miss log t n s (apart t s j (inl c) other positive) ∙ latest s c lt,
  )

  -- Every slot has what belongs to it, and that of the present second has an event of it.
  abbrev pub Tracks : List (ℕ × ℕ) → ℕ → (ℕ → PktInfo) → Type 0
  Tracks log now slots = Until now log × ((j : ℕ) → j < 5 → Holds log now j (slots j))

  pub put_slot-Tracks :
      (log : List (ℕ × ℕ)) (now t acks losses n : ℕ) (slots : ℕ → PktInfo)
      → ((i : PktInfo)
          → count (record i {
            ack_count = add64 i.ack_count acks;
            loss_count = add64 i.loss_count losses;
          })
            ≡ add64 (count i) n)
      → count (record { timestamp = t; ack_count = acks; loss_count = losses }) ≡ add64 0 n
      → Tracks log now slots
      → now ≤ t
      → 0 < t
      → let slots' = put_slot slots (t % 5) (counted_in (slots (t % 5)) t acks losses) in
        Tracks ((t, n) ∷ log) t slots' × ((slots' (t % 5)).timestamp ≡ t)
  unfolding put_slot
  put_slot-Tracks log now t acks losses n slots grows fresh (u, h) k p =
      let i = slots (t % 5) in
      let x = counted_in i t acks losses in
      let new = noted log now t acks losses n i grows fresh u k (h (t % 5) (omega arith)) in
      let hit : (t % 5 == t % 5) ≡ true = ground arith in
      (
        (
          (omega arith, Until-later log now t u k),
          λ j lt.
              if_cases (Holds ((t, n) ∷ log) t j) (j == t % 5)
                (λ e. subst (λ j. Holds ((t, n) ∷ log) t j x) (ground (arith, e)) new.0)
                (λ e.
                  kept log now t n j (slots j) u k p (λ q. absurd (ground (arith, e, q))) (h j lt)),
        ),
        rw hit new.1,
      )
