-- ===== src/Congestion/Pacer/Laws.antt =====
-- What the token bucket of common/pacer.go promises, while the bandwidth stays the same and no product
-- overflows.
use outbound.Prelude.{leb, ◌==◌, if◌then◌else◌, leb→le, Bool-cases, ℕ, ◌+◌, ◌-◌, ◌*◌, ◌/◌, ◌%◌}
use outbound.Prelude.{◌^◌, ◌≤◌, ◌<◌, ◌≡◌, refl, sym, ap, ◌∙◌, ◌≢◌, inl, inr, true, false, List}
use outbound.Prelude.{[], ◌∷◌, arith}
use outbound.Congestion.Words.{word, add64, sub64, mul64, signed, less, signed_div, signed_min}
use outbound.Congestion.Words.{signed_max, sub_time, add_time, IsSmall}
use outbound.Congestion.Pacer.{Pacer, second, max_burst_size, grown_budget, budget, sent_packet}
use outbound.Congestion.Pacer.{time_until_send}
use mathlib.Core.Path.{subst}
use native.Mathlib.Nat.{mul-le-mul_left, mul-add}

-- The bytes that the time from `t` to `now` is worth.
abbrev pub worth : ℕ → ℕ → ℕ → ℕ
worth bandwidth t now = bandwidth * (now - t) / second

grown_small :
    (b x : ℕ)
    → b < 2 ^ 62
    → IsSmall x
    → (if less (add64 b (signed_div (x % word) second)) 0
        then 2 ^ 62 - 1
        else add64 b (signed_div (x % word) second))
      ≡ b + x / second
grown_small b x h k =
    let whole : x % word ≡ x = omega (arith, k) in
    let part : signed_div x second ≡ x / second = ground (arith, k) in
    let sum : add64 b (x / second) ≡ b + x / second = omega (arith, h, k) in
    let positive : less (b + x / second) 0 ≡ false = ground (arith, h, k) in
    rw (whole, part, sum, positive) refl

elapsed_lem : (t now : ℕ) → t ≤ now → now < 2 ^ 62 → sub_time now t ≡ now - t
elapsed_lem t now h k = ground (arith, h, k)

burst_small :
    (x size : ℕ) → IsSmall (10 * size) → signed size ≤ signed (signed_max x (mul64 10 size))
burst_small x size h = ground (arith, h)

enough :
    (size burst grown : ℕ)
    → size < 2 ^ 62
    → signed size ≤ signed burst
    → size ≤ grown
    → IsSmall grown
    → less (signed_min burst grown) size ≡ false
enough size burst grown h k l m = ground (arith, h, k, l, m)

covered : (size left x y : ℕ) → (size - left) * second ≤ x → x ≤ y → size ≤ left + y / second
covered size left x y h k = omega (arith, h, k)

spent :
    (burst grown size : ℕ)
    → signed size ≤ signed (signed_min burst grown)
    → IsSmall size
    → IsSmall grown
    → (if less (signed_min burst grown) size then 0 else sub64 (signed_min burst grown) size) + size
      ≤ grown
spent burst grown size h k l = ground (arith, h, k, l)

worth_add :
    (bandwidth t u v : ℕ)
    → t ≤ u
    → u ≤ v
    → worth bandwidth t u + worth bandwidth u v ≤ worth bandwidth t v
worth_add bandwidth t u v h k =
    let sum : bandwidth * (v - t) ≡ bandwidth * (u - t) + bandwidth * (v - u) =
      ap (λ d. bandwidth * d) (omega (arith, h, k)) ∙ mul-add bandwidth (u - t) (v - u) in
    omega (arith, sum)

later : (t m x now : ℕ) → m < 2 ^ 62 → x < 2 ^ 62 → add_time t (signed_max m x) ≤ now → x ≤ now - t
later t m x now h k l = ground (arith, h, k, l)

module _ (min_pacing_delay : ℕ) where
  -- A pacer that has sent, at `now`, with no overflow up to then.
  abbrev pub Runs : Pacer → ℕ → ℕ → Type 0
  Runs p bandwidth now =
      (p.last_sent_time ≢ 0)
      × (p.last_sent_time ≤ now)
      × (now < 2 ^ 62)
      × (p.budget_at_last_sent < 2 ^ 62)
      × IsSmall (bandwidth * (now - p.last_sent_time))

  grown_budget_lem :
      (p : Pacer) (bandwidth now : ℕ)
      → Runs p bandwidth now
      → grown_budget min_pacing_delay p bandwidth now
        ≡ p.budget_at_last_sent + worth bandwidth p.last_sent_time now
  unfolding grown_budget
  grown_budget_lem p bandwidth now (sent, before, small, bounded, product) =
      rw (grown_budget, elapsed_lem p.last_sent_time now before small)
        (grown_small p.budget_at_last_sent (bandwidth * (now - p.last_sent_time)) bounded product)

  -- The budget is the growth, up to a maximum that is worth ten packets at least.
  budget_lem :
      (p : Pacer) (bandwidth now : ℕ)
      → Runs p bandwidth now
      → let grown = p.budget_at_last_sent + worth bandwidth p.last_sent_time now in
        (budget min_pacing_delay p bandwidth now
          ≡ signed_min (max_burst_size min_pacing_delay p bandwidth) grown)
  unfolding budget
  budget_lem p bandwidth now h =
      let known : (p.last_sent_time == 0) ≡ false = ground (arith, h.0) in
      rw (known, grown_budget_lem p bandwidth now h) refl

  burst_lem :
      (p : Pacer) (bandwidth : ℕ)
      → IsSmall (10 * p.max_datagram_size)
      → signed p.max_datagram_size ≤ signed (max_burst_size min_pacing_delay p bandwidth)
  unfolding max_burst_size
  burst_lem p bandwidth h = burst_small _ p.max_datagram_size h

  until_lem :
      (pause : ℕ → ℕ → ℕ) (p : Pacer) (bandwidth : ℕ)
      → p.budget_at_last_sent < p.max_datagram_size
      → p.max_datagram_size < 2 ^ 62
      → time_until_send min_pacing_delay pause p bandwidth
        ≡ add_time p.last_sent_time (
            signed_max min_pacing_delay
              (pause (p.max_datagram_size - p.budget_at_last_sent) bandwidth))
  unfolding time_until_send
  until_lem pause p bandwidth h k =
      let short : less p.budget_at_last_sent p.max_datagram_size ≡ true = ground (arith, h, k) in
      let missing : sub64 p.max_datagram_size p.budget_at_last_sent
          ≡ p.max_datagram_size - p.budget_at_last_sent =
        omega (arith, h, k) in
      rw (time_until_send, short, missing) refl

  -- A pacer that runs at a constant bandwidth has, from the time that `TimeUntilSend` names on, the
  -- budget of a packet of the maximal size. The pause that it computes in float64 is long enough for
  -- the bytes that are missing, and no product overflows.
  pub pacer_progress :
      (pause : ℕ → ℕ → ℕ) (p : Pacer) (bandwidth now : ℕ)
      → Runs p bandwidth now
      → IsSmall (10 * p.max_datagram_size)
      → min_pacing_delay < 2 ^ 62
      → pause (p.max_datagram_size - p.budget_at_last_sent) bandwidth < 2 ^ 62
      → (p.max_datagram_size - p.budget_at_last_sent) * second
        ≤ bandwidth * pause (p.max_datagram_size - p.budget_at_last_sent) bandwidth
      → time_until_send min_pacing_delay pause p bandwidth ≤ now
      → less (budget min_pacing_delay p bandwidth now) p.max_datagram_size ≡ false
  pacer_progress pause p bandwidth now h small short bound long waited =
      let size = p.max_datagram_size in
      let left = p.budget_at_last_sent in
      let grown = left + worth bandwidth p.last_sent_time now in
      let reached : size ≤ grown = elim (Bool-cases (leb size left)) [
        | inl e ↦ omega (arith, leb→le size left e)
        | inr e ↦
            let less_left : left < size = ground (arith, e) in
            let until = until_lem pause p bandwidth less_left (omega (arith, small)) in
            let wait = pause (size - left) bandwidth in
            let passed : wait ≤ now - p.last_sent_time =
              later p.last_sent_time min_pacing_delay wait now short bound
                (subst (λ x. x ≤ now) until waited) in
            covered size left (bandwidth * wait) (bandwidth * (now - p.last_sent_time)) long
              (mul-le-mul_left bandwidth passed)
      ] in
      rw (budget_lem p bandwidth now h) (
        enough size (max_burst_size min_pacing_delay p bandwidth) grown (omega (arith, small))
          (burst_lem p bandwidth small) reached (omega (arith, h.3, h.4)))

  -- the packets of a run, each with the time of its sending and its size
  pub send_all : Pacer → ℕ → List (ℕ × ℕ) → Pacer
  send_all p bandwidth [] = p
  send_all p bandwidth ((t, size) ∷ ps) =
      send_all (sent_packet min_pacing_delay p bandwidth t size) bandwidth ps

  -- Each packet is sent at a time not before the last one, within the budget of that time.
  abbrev pub Paced : Pacer → ℕ → List (ℕ × ℕ) → Type 0
  Paced p bandwidth [] = Unit {0}
  Paced p bandwidth ((t, size) ∷ ps) =
      Runs p bandwidth t
      × (signed size ≤ signed (budget min_pacing_delay p bandwidth t))
      × IsSmall size
      × Paced (sent_packet min_pacing_delay p bandwidth t size) bandwidth ps

  abbrev pub total : List (ℕ × ℕ) → ℕ
  total [] = 0
  total ((t, size) ∷ ps) = size + total ps

  sent_lem :
      (p : Pacer) (bandwidth t size : ℕ)
      → Runs p bandwidth t
      → signed size ≤ signed (budget min_pacing_delay p bandwidth t)
      → IsSmall size
      → let q = sent_packet min_pacing_delay p bandwidth t size in
        (q.budget_at_last_sent + size ≤ p.budget_at_last_sent + worth bandwidth p.last_sent_time t)
        × (q.last_sent_time ≡ t)
  unfolding sent_packet
  sent_lem p bandwidth t size h k l = (
    subst
        (λ x.
          (if less x size then 0 else sub64 x size) + size
          ≤ p.budget_at_last_sent + worth bandwidth p.last_sent_time t)
        (sym (budget_lem p bandwidth t h))
        (spent (max_burst_size min_pacing_delay p bandwidth)
          (p.budget_at_last_sent + worth bandwidth p.last_sent_time t) size
          (subst (λ x. signed size ≤ signed x) (budget_lem p bandwidth t h) k) l
          (omega (arith, h.3, h.4))),
    refl,
  )

  -- Packets that are sent within the budget at a constant bandwidth, with no overflow: their sizes and
  -- the budget that is left are together no more than the budget at first and what the time from
  -- the packet before the run to the last one of it is worth. So the pacer never lets the rate exceed
  -- the bandwidth by more than the budget at first.
  pub pacer_rate :
      (p : Pacer) (bandwidth : ℕ) (ps : List (ℕ × ℕ))
      → Paced p bandwidth ps
      → let q = send_all p bandwidth ps in
        (q.budget_at_last_sent + total ps
          ≤ p.budget_at_last_sent + worth bandwidth p.last_sent_time q.last_sent_time)
        × (p.last_sent_time ≤ q.last_sent_time)
  unfolding send_all
  pacer_rate p bandwidth [] h = (omega arith, omega arith)
  pacer_rate p bandwidth ((t, size) ∷ ps) (h, k, l, rest) =
      let s = sent_packet min_pacing_delay p bandwidth t size in
      let q = send_all s bandwidth ps in
      let (one, at) = sent_lem p bandwidth t size h k l in
      let (more, after) = pacer_rate s bandwidth ps rest in
      let more' =
        subst
          (λ x.
            q.budget_at_last_sent + total ps
            ≤ s.budget_at_last_sent + worth bandwidth x q.last_sent_time)
          at more in
      let after' : t ≤ q.last_sent_time = subst (λ x. x ≤ q.last_sent_time) at after in
      (
        omega
            (arith, one, more', worth_add bandwidth p.last_sent_time t q.last_sent_time h.1 after'),
        omega (arith, h.1, after'),
      )
