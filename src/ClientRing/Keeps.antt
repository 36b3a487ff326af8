-- ===== src/ClientRing/Keeps.antt =====
-- A dial of clientring.go ends, and leaves a ring.
use outbound.Prelude.{Option-cases, if_holds, option_holds, length, length-append, ℕ, suc, ◌+◌}
use outbound.Prelude.{◌<◌, ◌≡◌, refl, sym, ap, ◌∙◌, inl, inr, Bool, Option, none, some, List, []}
use outbound.Prelude.{◌∷◌, ◌++◌, arith}
use outbound.ClientRing.{Node, Ring, Walked, ended, nil_value, out_of_fuel, tried_first, left_at}
use outbound.ClientRing.{find, insert_after_current, get_new, try_next, try_next_context}
use outbound.ClientRing.Order.{Distinct, Chain, order-Chain}
use outbound.ClientRing.Walk.{scan, walk-scan}
use outbound.ClientRing.Operations.{IsRing, insert_after_current-IsRing, find_split}
use mathlib.Core.Path.{subst}

module _ {A E : Type 0} (f : Node A → Option E) (is_failover : E → Bool) (done : ℕ → Bool)
    (new_client : A) where
  -- The walk ends, and what it leaves is a ring.
  abbrev Keeps : Walked A E → Type 0
  Keeps (ended err r cur tried) = IsRing (record r { current = cur })
  Keeps nil_value = ⊥
  Keeps out_of_fuel = ⊥

  Keeps-tried_first : (e : ℕ) (w : Walked A E) → Keeps w → Keeps (tried_first e w)
  Keeps-tried_first e (ended err r cur tried) h = h
  Keeps-tried_first e nil_value h = h
  Keeps-tried_first e out_of_fuel h = h

  at-IsRing :
      (r : Ring A) (n : Node A)
      → IsRing r
      → find n.elem r.ring ≡ some n
      → IsRing (record r { current = some n.elem })
  at-IsRing r n h q = record {
    distinct = h.distinct;
    used = h.used;
    current_in = λ e p. (n, ap (λ i. find i r.ring) (ground (arith, p)) ∙ q);
  }

  get_new-Keeps :
      (r : Ring A) (k : ℕ) → IsRing r → Keeps (get_new f is_failover done new_client r r.current k)
  unfolding get_new insert_after_current
  get_new-Keeps r k h =
      if_holds Keeps (done k) h
        (if_holds Keeps r.closed h (insert_after_current-IsRing r new_client h))

  scan-Keeps :
      (r : Ring A) (stop k : ℕ) (n : Node A) (ms : List (Node A))
      → IsRing r
      → Chain r.ring stop n ms
      → Keeps (scan f is_failover done new_client r n ms k)
  unfolding scan
  scan-Keeps r stop k n [] h c =
      let at = at-IsRing r n h c.0 in
      if_holds Keeps (done k) at (
        Keeps-tried_first n.elem _ (
          option_holds Keeps (f n) at λ err.
            if_holds Keeps (done (k + 1)) at
              (if_holds Keeps (is_failover err) (get_new-Keeps r (k + 2) h) h)))
  scan-Keeps r stop k n (m ∷ ms) h c =
      let at = at-IsRing r n h c.0 in
      if_holds Keeps (done k) at (
        Keeps-tried_first n.elem _ (
          option_holds Keeps (f n) at
            λ err. if_holds Keeps (done (k + 1)) at (scan-Keeps r stop (k + 2) m ms h c.3)))

  -- The dial ends, and leaves a ring at the position where the walk has ended.
  abbrev pub Ends : Walked A E → Type 0
  Ends (ended err r cur tried) = IsRing r × (r.current ≡ cur)
  Ends nil_value = ⊥
  Ends out_of_fuel = ⊥

  left_at-Ends : (w : Walked A E) → Keeps w → Ends (left_at w)
  left_at-Ends (ended err r cur tried) h = (h, refl)
  left_at-Ends nil_value h = elim h [ ]
  left_at-Ends out_of_fuel h = elim h [ ]

  abbrev walked : ℕ → Ring A → Option ℕ → Walked A E
  walked fuel r cur = try_next f is_failover done new_client fuel r cur 0

  unplaced-Keeps :
      (r : Ring A) (fuel : ℕ) → IsRing r → r.current ≡ none → Keeps (walked (suc fuel) r none)
  unfolding try_next
  unplaced-Keeps r fuel h q =
      if_holds Keeps (done 0) (subst (λ cur. IsRing (record r { current = cur })) q h) (
        subst (λ cur. Keeps (get_new f is_failover done new_client r cur 1)) q
          (get_new-Keeps r 1 h))

  walked-Keeps : (r : Ring A) → IsRing r → Keeps (walked (length r.ring + 1) r r.current)
  walked-Keeps r h =
      let more : suc (length r.ring) ≡ length r.ring + 1 = omega arith in
      elim (Option-cases r.current) [
        | inl q ↦
            subst (λ fuel. Keeps (walked fuel r r.current)) more
              (subst (λ cur. Keeps (walked (suc (length r.ring)) r cur)) (sym q)
                (unplaced-Keeps r (length r.ring) h q))
        | inr (e, q) ↦
            let (c, found) = h.current_in e q in
            let (xs, ys, split, i) = find_split e r.ring c found in
            let at : r.current ≡ some c.elem = q ∙ ap some (sym i) in
            let chain : Chain r.ring c.elem c (ys ++ xs) =
              subst (λ ns. Chain ns c.elem c (ys ++ xs)) (sym split)
                (order-Chain xs ys c (subst Distinct split h.distinct)) in
            let fuel : length (ys ++ xs) < length r.ring + 1 =
              omega (arith, ap length split, length-append xs (c ∷ ys), length-append ys xs) in
            subst Keeps
              (sym (
                ap (walked (length r.ring + 1) r) at
                ∙ walk-scan f is_failover done new_client r (length r.ring + 1) c.elem 0 c
                    (ys ++ xs) at chain fuel))
              (scan-Keeps r c.elem 0 c (ys ++ xs) h chain)
      ]

  pub try_next_context-Ends :
      (r : Ring A) → IsRing r → Ends (try_next_context f is_failover done new_client r)
  unfolding try_next_context
  try_next_context-Ends r h = if_holds Ends r.closed (h, refl) (left_at-Ends _ (walked-Keeps r h))
