-- ===== src/Congestion/Sampler/Points/Choice.antt =====
-- Which candidate `chooseA0Point` picks, and which ones it leaves.
use outbound.Prelude.{ltb, ◌==◌, if◌then◌else◌, Bool-cases, Option-cases, length, get_elem?, drop}
use outbound.Prelude.{get_elem?_of_lt, ℕ, zero, suc, ◌+◌, ◌-◌, ◌/◌, ◌≤◌, ◌<◌, ◌≡◌, refl, ap, ◌∙◌}
use outbound.Prelude.{inl, inr, Bool, true, false, Option, none, some, List, arith}
use outbound.Congestion.Words.{less}
use outbound.Congestion.RingBuffer.Laws.Queue.{contents, IsValid, length-contents, is_empty_iff}
use outbound.Congestion.RingBuffer.Laws.Queue.{offset-contents, front-contents, back-contents}
use outbound.Congestion.RingBuffer.Laws.Resize.{pop_front_lem}
use outbound.Congestion.Sampler.Points.{AckPoint, no_point, pop_fronts, pop_shrinking}
use outbound.Congestion.Sampler.Points.{first_beyond, choose_a0_point}
use outbound.Congestion.RingBuffer.{RingBuffer, len, offset, is_empty, front, back}
use mathlib.Core.Path.{subst}

-- The candidate at `j` has more bytes acknowledged than `total`.
abbrev pub beyond : List AckPoint → ℕ → ℕ → Bool
beyond ps total j = elim (get_elem? ps j) [ none ↦ false | some p ↦ less total p.total_bytes_acked ]

-- No candidate from `i` on and before `k` has more bytes acknowledged.
abbrev pub NoneBeyond : List AckPoint → ℕ → ℕ → ℕ → Type 0
NoneBeyond ps total i k = (j : ℕ) → i ≤ j → j < k → beyond ps total j ≡ false

-- What the search from `i` on finds.
abbrev Found : List AckPoint → ℕ → ℕ → Option ℕ → Type 0
Found ps total i none = NoneBeyond ps total i (length ps)
Found ps total i (some k) =
    (i ≤ k) × (k < length ps) × (beyond ps total k ≡ true) × NoneBeyond ps total i k

module _ (r : RingBuffer AckPoint) (total : ℕ) (v : IsValid r) where
  skipped-Found :
      (i : ℕ) (o : Option ℕ)
      → beyond (contents r) total i ≡ false
      → Found (contents r) total (suc i) o
      → Found (contents r) total i o
  skipped-Found i none b h = λ j k l. elim (Bool-cases (j == i)) [
    | inl e ↦ subst (λ x. beyond (contents r) total x ≡ false) {x = i} {y = j} (ground arith) b
    | inr e ↦ h j (ground arith) l
  ]
  skipped-Found i (some m) b h = (
    omega (arith, h.0),
    h.1,
    h.2,
    λ j k l. elim (Bool-cases (j == i)) [
      | inl e ↦ subst (λ x. beyond (contents r) total x ≡ false) {x = i} {y = j} (ground arith) b
      | inr e ↦ h.3 j (ground arith) l
    ],
  )

  first_beyond_lem :
      (n i : ℕ)
      → i + n ≡ length (contents r)
      → Found (contents r) total i (first_beyond r total n i)
  unfolding first_beyond
  first_beyond_lem zero i h = λ j k l. absurd (omega (arith, h, k, l))
  first_beyond_lem (suc n) i h =
      let (p, e) = get_elem?_of_lt (contents r) i (omega (arith, h)) in
      let here = offset-contents r i v ∙ e in
      let rest = first_beyond_lem n (suc i) (omega (arith, h)) in
      let value : beyond (contents r) total i ≡ less total p.total_bytes_acked =
        rw (beyond, e) refl in
      elim (Bool-cases (less total p.total_bytes_acked)) [
        | inl b ↦
            rw (first_beyond, here, b)
              (omega arith, omega (arith, h), value ∙ b, λ j k l. absurd (omega (arith, k, l)))
        | inr b ↦
            rw (first_beyond, here, b)
              (skipped-Found i (first_beyond r total n (suc i)) (value ∙ b) rest)
      ]

pop_fronts_lem :
    (r : RingBuffer AckPoint) (n : ℕ)
    → IsValid r
    → n ≤ length (contents r)
    → IsValid (pop_fronts r n) × (contents (pop_fronts r n) ≡ drop n (contents r))
unfolding pop_fronts
pop_fronts_lem r zero v h = (v, refl)
pop_fronts_lem r (suc n) v h =
    let (x, s, e, w, c) = pop_front_lem no_point r v (omega (arith, h, length-contents r v)) in
    let rest = pop_fronts_lem s n w (omega (arith, h, ap length c)) in rw (pop_fronts, e, c) rest

half_step : (l k : ℕ) → k < l - 1 → (l - k) / 2 ≡ suc ((l - 1 - suc k) / 2)
half_step l k h = omega (arith, h)

half_end : (l k : ℕ) → l - 1 ≤ k → (l - k) / 2 ≡ 0
half_end l k h = omega (arith, h)

pop_shrinking_lem :
    (fuel : ℕ) (r : RingBuffer AckPoint) (k : ℕ)
    → IsValid r
    → 0 < len r
    → len r ≤ fuel
    → IsValid (pop_shrinking fuel r k)
      × (contents (pop_shrinking fuel r k) ≡ drop ((len r - k) / 2) (contents r))
unfolding pop_shrinking
pop_shrinking_lem zero r k v l h = absurd (omega (arith, l, h))
pop_shrinking_lem (suc fuel) r k v l h =
    let (x, s, e, w, c) = pop_front_lem no_point r v l in
    let n : len s ≡ len r - 1 =
      omega (arith, length-contents r v, length-contents s w, ap length c, l) in
    elim (Bool-cases (ltb k (len r - 1))) [
      | inl b ↦
          let rest =
            pop_shrinking_lem fuel s (suc k) w (ground (arith, n, b)) (omega (arith, n, h)) in
          rw (pop_shrinking, e, b, half_step (len r) k (ground (arith, b)), c)
            (rest.0, rest.1 ∙ ap (λ m. drop ((m - suc k) / 2) (contents s)) n)
      | inr b ↦ rw (pop_shrinking, e, b, half_end (len r) k (ground (arith, b))) (v, refl)
    ]

-- What `chooseA0Point` answers: the last candidate before the first later one with more bytes
-- acknowledged, which stands at `k`.
abbrev pub Chosen : List AckPoint → ℕ → ℕ → Option AckPoint → Type 0
Chosen ps total k answer =
    (k < length ps)
    × (answer ≡ get_elem? ps k)
    × NoneBeyond ps total 1 (suc k)
    × ((suc k < length ps) → beyond ps total (suc k) ≡ true)

-- The candidates that are left: the chosen one is the first of them, but where it is the last
-- candidate of all only half of those before it are gone.
abbrev pub left_from : ℕ → List AckPoint → List AckPoint
left_from k ps = drop (if suc k == length ps then length ps / 2 else k) ps

-- What `chooseA0Point` promises of its answer and of the ring after it.
abbrev pub Promised : List AckPoint → ℕ → Option AckPoint × RingBuffer AckPoint → Type 0
Promised ps total (answer, r) =
    (k : ℕ) × Chosen ps total k answer × IsValid r × (contents r ≡ left_from k ps)

module _ (r : RingBuffer AckPoint) (total : ℕ) (v : IsValid r) where
  none_later :
      1 < length (contents r)
      → NoneBeyond (contents r) total 1 (length (contents r))
      → Promised (contents r) total (back r, pop_shrinking (len r) r 0)
  none_later h a =
      let ps = contents r in
      let k = length ps - 1 in
      let n = length-contents r v in
      let all : suc k ≡ length ps = omega (arith, h) in
      let last : (suc k == length ps) ≡ true = ground (arith, all) in
      let (w, c) = pop_shrinking_lem (len r) r 0 v (omega (arith, n, h)) (omega arith) in
      (
        k,
        (
          omega (arith, h),
          back-contents r v,
          λ j b l. a j b (omega (arith, l, all)),
          λ l. absurd (omega (arith, l, all)),
        ),
        w,
        c
            ∙ ap (λ m. drop m ps) {y = if suc k == length ps then length ps / 2 else k}
                (rw (last, n) (omega arith)),
      )

  one_later :
      (i : ℕ)
      → Found (contents r) total 1 (some i)
      → Promised (contents r) total (offset r (i - 1), pop_fronts r (i - 1))
  one_later i (from, inside, later, before) =
      let ps = contents r in
      let k = i - 1 in
      let next : suc k ≡ i = omega (arith, from) in
      let inner : (suc k == length ps) ≡ false = ground (arith, next, inside) in
      let (w, c) = pop_fronts_lem r k v (omega (arith, inside)) in
      (
        k,
        (
          omega (arith, inside),
          offset-contents r k v,
          λ j b l. before j b (omega (arith, l, next)),
          λ l. ap (beyond ps total) next ∙ later,
        ),
        w,
        c
            ∙ ap (λ m. drop m ps) {y = if suc k == length ps then length ps / 2 else k}
                (rw inner refl),
      )

  only_one : length (contents r) ≡ 1 → Promised (contents r) total (front r, r)
  only_one h = (
    0,
    (
      omega (arith, h),
      front-contents r v,
      λ j b l. absurd (omega (arith, b, l)),
      λ l. absurd (omega (arith, l, h)),
    ),
    v,
    rw h refl,
  )

  -- The candidates are a valid ring that is not empty: `chooseA0Point` answers the last candidate
  -- such that no candidate up to it, the first one aside, has more bytes acknowledged than `total`.
  -- Where a candidate stands behind it, it becomes the front; where it is the last one, half of the
  -- candidates leave.
  pub choose_a0_point_lem :
      0 < length (contents r) → Promised (contents r) total (choose_a0_point r total)
  unfolding choose_a0_point
  choose_a0_point_lem h =
      let n = length-contents r v in
      let some_left : is_empty r ≡ false = is_empty_iff r v ∙ ground (arith, n, h) in
      let found = first_beyond_lem r total v (len r - 1) 1 (omega (arith, n, h)) in
      elim (Bool-cases (len r == 1)) [
        | inl b ↦ rw (some_left, b) (only_one (ground (arith, n, b)))
        | inr b ↦ elim (Option-cases (first_beyond r total (len r - 1) 1)) [
          | inl e ↦
              rw (some_left, b, e)
                (none_later (ground (arith, n, b, h)) (subst (Found (contents r) total 1) e found))
          | inr (i, e) ↦
              rw (some_left, b, e) (one_later i (subst (Found (contents r) total 1) e found))
        ]
      ]
