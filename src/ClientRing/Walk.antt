-- ===== src/ClientRing/Walk.antt =====
-- The walk of clientring.go against its description on the list of the clients in order.
use outbound.Prelude.{if◌then◌else◌, length, length-append, All, ℕ, zero, suc, ◌+◌, ◌<◌, ◌≡◌}
use outbound.Prelude.{refl, sym, ap, ◌∙◌, Bool, true, false, Option, none, some, List, [], ◌∷◌}
use outbound.Prelude.{◌++◌, arith}
use outbound.ClientRing.{Node, Ring, DialError, context_ended, client_closed, attempt_failed}
use outbound.ClientRing.{Walked, ended, tried_first, verdict, left_at, insert_after}
use outbound.ClientRing.{insert_after_current, get_new, fail_over, try_next, try_next_context}
use outbound.ClientRing.Order.{Distinct, elems, Chain, insert_after-middle, order-Chain}
use mathlib.Core.Path.{subst}

module _ {A E : Type 0} (f : Node A → Option E) (is_failover : E → Bool) (done : ℕ → Bool)
    (new_client : A) where
  -- A walk along a list of clients: no positions, no ring to go around.
  unfoldable pub scan : Ring A → Node A → List (Node A) → ℕ → Walked A E
  scan r n [] k =
      if done k
      then ended (some context_ended) r (some n.elem) []
      else tried_first n.elem (elim (f n) [
        | none ↦ ended none r (some n.elem) []
        | some err ↦
            if done (k + 1)
            then ended (some (attempt_failed err)) r (some n.elem) []
            else if is_failover err
            then get_new f is_failover done new_client r r.current (k + 2)
            else ended (some (attempt_failed err)) r r.current []
      ])
  scan r n (m ∷ ms) k =
      let rest = scan r m ms (k + 2) in
      if done k
      then ended (some context_ended) r (some n.elem) []
      else tried_first n.elem (elim (f n) [
        | none ↦ ended none r (some n.elem) []
        | some err ↦
            if done (k + 1) then ended (some (attempt_failed err)) r (some n.elem) [] else rest
      ])

  abbrev pub walk : ℕ → Ring A → Option ℕ → ℕ → Walked A E
  walk = try_next f is_failover done new_client

  pub walk-scan :
      (r : Ring A) (fuel stop k : ℕ) (n : Node A) (ms : List (Node A))
      → r.current ≡ some stop
      → Chain r.ring stop n ms
      → length ms < fuel
      → walk fuel r (some n.elem) k ≡ scan r n ms k
  unfolding try_next scan fail_over
  walk-scan r zero stop k n ms c h l = absurd (omega arith)
  walk-scan r (suc fuel) stop k n [] c h l = ground (arith, c, h.0, h.1)
  walk-scan r (suc fuel) stop k n (m ∷ ms) c h l =
      let ih = walk-scan r fuel stop (k + 2) m ms c h.3 (omega arith) in
      ground (arith, c, h.0, h.1, h.2, ih)

  -- The elements of distinct handles, from the current one around: the walk of `TryNextContext`
  -- ends, on one attempt for each client at most, with what the walk along that list ends with.
  pub walk_lem :
      (r : Ring A) (xs ys : List (Node A)) (c : Node A)
      → Distinct r.ring
      → r.closed ≡ false
      → r.ring ≡ xs ++ (c ∷ ys)
      → r.current ≡ some c.elem
      → try_next_context f is_failover done new_client r ≡ left_at (scan r c (ys ++ xs) 0)
  unfolding try_next_context
  walk_lem r xs ys c d o e cur =
      let chain : Chain r.ring c.elem c (ys ++ xs) =
        subst (λ ns. Chain ns c.elem c (ys ++ xs)) (sym e)
          (order-Chain xs ys c (subst Distinct e d)) in
      let fuel : length (ys ++ xs) < length r.ring + 1 =
        omega (arith, ap length e, length-append xs (c ∷ ys), length-append ys xs) in
      let w = walk-scan r (length r.ring + 1) c.elem 0 c (ys ++ xs) cur chain fuel in
      ap
        (λ b.
          if b
          then ended (some client_closed) r r.current []
          else left_at (walk (length r.ring + 1) r r.current 0))
        o
      ∙ ap left_at (ap (λ at. walk (length r.ring + 1) r at 0) cur ∙ w)

  -- What a walk comes to in which every client before it fails and the context lasts.
  abbrev tried_all : List (Node A) → Walked A E → Walked A E
  tried_all [] w = w
  tried_all (n ∷ ns) w = tried_first n.elem (tried_all ns w)

  abbrev Fails : Node A → Type 0
  Fails n = (err : E) × (f n ≡ some err)

  abbrev FailsOver : Node A → Type 0
  FailsOver n = (err : E) × (f n ≡ some err) × (is_failover err ≡ true)

  scan_reaches :
      (r : Ring A) (n b : Node A) (ms bs : List (Node A)) (k : ℕ)
      → ((i : ℕ) → done i ≡ false)
      → All Fails (n ∷ ms)
      → f b ≡ none
      → scan r n (ms ++ (b ∷ bs)) k ≡ tried_all (n ∷ ms) (ended none r (some b.elem) (b.elem ∷ []))
  unfolding scan
  scan_reaches r n b [] [] k last h g = ground (arith, last k, last (k + 1), last (k + 2), h.0.1, g)
  scan_reaches r n b [] (b' ∷ bs) k last h g =
      ground (arith, last k, last (k + 1), last (k + 2), h.0.1, g)
  scan_reaches r n b (m ∷ ms) bs k last h g =
      ground (arith, last k, last (k + 1), h.0.1, scan_reaches r m b ms bs (k + 2) last h.1 g)

  scan_exhausts :
      (r : Ring A) (n : Node A) (ms : List (Node A)) (k : ℕ)
      → ((i : ℕ) → done i ≡ false)
      → r.closed ≡ false
      → All FailsOver (n ∷ ms)
      → scan r n ms k ≡ tried_all (n ∷ ms) (get_new f is_failover done new_client r r.current 0)
  unfolding scan get_new
  scan_exhausts r n [] k last o h =
      ground (arith, o, last k, last (k + 1), last (k + 2), last 0, h.0.1, h.0.2)
  scan_exhausts r n (m ∷ ms) k last o h =
      ground (arith, last k, last (k + 1), h.0.1, scan_exhausts r m ms (k + 2) last o h.1)

  tried_all-ended :
      (ns : List (Node A)) (err : Option (DialError E)) (r : Ring A) (cur : Option ℕ)
      (tried : List ℕ)
      → tried_all ns (ended err r cur tried) ≡ ended err r cur (elems ns ++ tried)
  tried_all-ended [] err r cur tried = refl
  tried_all-ended (n ∷ ns) err r cur tried =
      ap (tried_first n.elem) (tried_all-ended ns err r cur tried)

  -- The current client fails, and in the order of the ring `b` is the first that does not: each
  -- client before it is tried once, `b` becomes the current one, and the ring is as it was. What the
  -- errors were does not count.
  pub first_success :
      (r : Ring A) (xs ys ms bs : List (Node A)) (c b : Node A)
      → Distinct r.ring
      → r.closed ≡ false
      → r.ring ≡ xs ++ (c ∷ ys)
      → r.current ≡ some c.elem
      → ((i : ℕ) → done i ≡ false)
      → ys ++ xs ≡ ms ++ (b ∷ bs)
      → All Fails (c ∷ ms)
      → f b ≡ none
      → try_next_context f is_failover done new_client r
        ≡ ended none
            (record r { current = some b.elem })
            (some b.elem)
            (elems (c ∷ ms) ++ (b.elem ∷ []))
  first_success r xs ys ms bs c b d o e cur last split h g =
      walk_lem r xs ys c d o e cur
      ∙ ap (λ (l : List (Node A)). left_at (scan r c l 0)) split
      ∙ ap left_at (
          scan_reaches r c b ms bs 0 last h g
          ∙ tried_all-ended (c ∷ ms) none r (some b.elem) (b.elem ∷ []))

  get_new_lem :
      (r : Ring A) (xs ys : List (Node A)) (c : Node A)
      → Distinct r.ring
      → r.closed ≡ false
      → r.ring ≡ xs ++ (c ∷ ys)
      → r.current ≡ some c.elem
      → done 0 ≡ false
      → let new : Node A = record { elem = r.unused; client = new_client } in
        get_new f is_failover done new_client r r.current 0
        ≡ ended
            (verdict (f new))
            (record r {
              ring = xs ++ (c ∷ (new ∷ ys));
              current = some r.unused;
              unused = r.unused + 1;
            })
            (some r.unused)
            (r.unused ∷ [])
  unfolding get_new insert_after_current
  get_new_lem r xs ys c d o e cur last =
      let new : Node A = record { elem = r.unused; client = new_client } in
      let placed : insert_after new c.elem r.ring ≡ xs ++ (c ∷ (new ∷ ys)) =
        ap (insert_after new c.elem) e ∙ insert_after-middle xs ys c new (subst Distinct e d) in
      ground (arith, o, cur, last, placed)

  -- Every client fails with an error that asks for the next one: all are tried, in the order of the
  -- ring from the current one, then a new client, which stands behind the current one, is the
  -- current one from then on, and decides the result.
  pub exhausted_ring :
      (r : Ring A) (xs ys : List (Node A)) (c : Node A)
      → Distinct r.ring
      → r.closed ≡ false
      → r.ring ≡ xs ++ (c ∷ ys)
      → r.current ≡ some c.elem
      → ((i : ℕ) → done i ≡ false)
      → All FailsOver (c ∷ (ys ++ xs))
      → let new : Node A = record { elem = r.unused; client = new_client } in
        try_next_context f is_failover done new_client r
        ≡ ended
            (verdict (f new))
            (record r {
              ring = xs ++ (c ∷ (new ∷ ys));
              current = some r.unused;
              unused = r.unused + 1;
            })
            (some r.unused)
            (elems (c ∷ (ys ++ xs)) ++ (r.unused ∷ []))
  exhausted_ring r xs ys c d o e cur last h =
      walk_lem r xs ys c d o e cur
      ∙ ap left_at (
          scan_exhausts r c (ys ++ xs) 0 last o h
          ∙ ap (tried_all (c ∷ (ys ++ xs))) (get_new_lem r xs ys c d o e cur (last 0))
          ∙ tried_all-ended (c ∷ (ys ++ xs)) _ _ (some r.unused) (r.unused ∷ []))
