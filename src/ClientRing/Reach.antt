-- ===== src/ClientRing/Reach.antt =====
-- The states that a ring of clientring.go can reach.
use outbound.Prelude.{if◌then◌else◌, length, ℕ, suc, ◌+◌, ◌≡◌, refl, ap, ap₂, ◌∙◌, Bool, true}
use outbound.Prelude.{false, Option, none, some, List, [], ◌∷◌, ◌++◌, append-nil, arith}
use outbound.ClientRing.{Node, Ring, DialError, client_closed, Walked, ended, nil_value}
use outbound.ClientRing.{out_of_fuel, is_elem, verdict, left_at, front, find, next, remove_elem}
use outbound.ClientRing.{insert_after_current, new_ring, passive_remove, close, get_new, try_next}
use outbound.ClientRing.{try_next_context}
use outbound.ClientRing.Order.{Distinct, find-middle, remove_elem-middle}
use outbound.ClientRing.Operations.{IsRing, passive_remove-IsRing}
use outbound.ClientRing.Keeps.{Ends, try_next_context-Ends}
use mathlib.Core.Path.{subst}

-- One operation of a ring: a dial that ends, the removal of a client that has closed, `Close`.
pub data Step {A E : Type 0} (is_failover : E → Bool) : Ring A → Ring A → Type 0 where
  dialed :
      {r r' : Ring A} (f : Node A → Option E) (done : ℕ → Bool) (new_client : A)
      (err : Option (DialError E)) (cur : Option ℕ) (tried : List ℕ)
      → try_next_context f is_failover done new_client r ≡ ended err r' cur tried
      → Step is_failover r r'
  removed : {r : Ring A} (e : ℕ) → Step is_failover r (passive_remove r e)
  torn_down : {r : Ring A} → Step is_failover r (close r).0

-- The rings that operations make of a new one.
pub data Reachable {A E : Type 0} (is_failover : E → Bool) : Ring A → Type 0 where
  fresh : Reachable is_failover new_ring
  after :
      {r r' : Ring A} → Reachable is_failover r → Step is_failover r r' → Reachable is_failover r'

module _ {A E : Type 0} (is_failover : E → Bool) where
  Step-IsRing : {r r' : Ring A} → Step is_failover r r' → IsRing r → IsRing r'
  Step-IsRing {r} (dialed f done new_client err cur tried e) h =
      (subst (Ends f is_failover done new_client) e
        (try_next_context-Ends f is_failover done new_client r h)).0
  Step-IsRing {r} (removed e) h = passive_remove-IsRing r e h
  Step-IsRing torn_down h =
      unfold close in
      record { distinct = tt; used = tt; current_in = λ e p. absurd (ground (arith, p)) }

  -- In every reachable ring no element stands twice, none is still unused, and the current one is
  -- in the list.
  pub Reachable-IsRing : {r : Ring A} → Reachable is_failover r → IsRing r
  unfolding new_ring
  Reachable-IsRing fresh = record {
    distinct = tt;
    used = tt;
    current_in = λ e p. absurd (ground (arith, p));
  }
  Reachable-IsRing (after h s) = Step-IsRing s (Reachable-IsRing h)

  dial_result :
      (f : Node A → Option E) (done : ℕ → Bool) (new_client : A) (w : Walked A E)
      → Ends f is_failover done new_client w
      → (err : Option (DialError E)) × (r' : Ring A) × (cur : Option ℕ) × (tried : List ℕ) × (w
          ≡ ended err r' cur tried)
  dial_result f done new_client (ended err r cur tried) h = (err, r, cur, tried, refl)
  dial_result f done new_client nil_value h = elim h [ ]
  dial_result f done new_client out_of_fuel h = elim h [ ]

  -- In every ring that operations can make of a new one, a dial ends, whatever the clients answer
  -- and whenever the context ends: the walk finds a node at every position and comes around.
  pub dial_ends :
      {r : Ring A}
      → Reachable is_failover r
      → (f : Node A → Option E) (done : ℕ → Bool) (new_client : A)
      → (err : Option (DialError E)) × (r' : Ring A) × (cur : Option ℕ) × (tried : List ℕ)
        × (try_next_context f is_failover done new_client r ≡ ended err r' cur tried)
  dial_ends {r} h f done new_client =
      dial_result f done new_client (try_next_context f is_failover done new_client r)
        (try_next_context-Ends f is_failover done new_client r (Reachable-IsRing h))

gone_last :
    {A : Type 0} (r : Ring A) (xs : List (Node A)) (c : Node A)
    → IsRing r
    → r.ring ≡ xs ++ (c ∷ [])
    → r.current ≡ some c.elem
    → passive_remove r c.elem ≡ record r { ring = xs; current = none }
unfolding passive_remove front
gone_last {A} r xs c h e cur =
    let d : Distinct (xs ++ (c ∷ [])) = subst Distinct e h.distinct in
    let m = find-middle xs [] c d in
    let found : find c.elem r.ring ≡ some c = ap (find c.elem) e ∙ m.0 in
    let nothing : next c.elem r.ring ≡ none = ap (next c.elem) e ∙ m.1 in
    let left : remove_elem c.elem r.ring ≡ xs =
      ap (remove_elem c.elem) e ∙ remove_elem-middle xs [] c d ∙ append-nil xs in
    let here : is_elem r.current (some c.elem) ≡ true = ground (arith, cur) in
    rw (passive_remove, found)
      (ap₂ (λ (l : List (Node A)) (at : Option ℕ). record r { ring = l; current = at }) left
        (ap (λ b. if b then next c.elem r.ring else r.current) here ∙ nothing))

module _ {A E : Type 0} (f : Node A → Option E) (is_failover : E → Bool) (done : ℕ → Bool)
    (new_client : A) where
  unplaced :
      (r : Ring A) (fuel : ℕ)
      → r.closed ≡ false
      → ((i : ℕ) → done i ≡ false)
      → let new : Node A = record { elem = r.unused; client = new_client } in
        try_next f is_failover done new_client (suc fuel) (record r { current = none }) none 0
        ≡ ended
            (verdict (f new))
            (record r {
              ring = r.ring ++ (new ∷ []);
              current = some r.unused;
              unused = r.unused + 1;
            })
            (some r.unused)
            (r.unused ∷ [])
  unfolding try_next get_new insert_after_current
  unplaced r fuel o last = ground (arith, o, last 0, last 1)

-- The current client closes and stands last in the list: no client is current then, and the next
-- dial makes a new client without a try of those that are left.
pub removed_last :
    {A E : Type 0} (f : Node A → Option E) (is_failover : E → Bool) (done : ℕ → Bool)
    (new_client : A) (r : Ring A) (xs : List (Node A)) (c : Node A)
    → IsRing r
    → r.closed ≡ false
    → r.ring ≡ xs ++ (c ∷ [])
    → r.current ≡ some c.elem
    → ((i : ℕ) → done i ≡ false)
    → let new : Node A = record { elem = r.unused; client = new_client } in
      ((passive_remove r c.elem).ring ≡ xs)
      × (try_next_context f is_failover done new_client (passive_remove r c.elem)
          ≡ ended
              (verdict (f new))
              (record r { ring = xs ++ (new ∷ []); current = some r.unused; unused = r.unused + 1 })
              (some r.unused)
              (r.unused ∷ []))
unfolding try_next_context
removed_last {A} {E} f is_failover done new_client r xs c h o e cur last =
    let left : Ring A = record r { ring = xs; current = none } in
    let gone = gone_last r xs c h e cur in
    let more : length xs + 1 ≡ suc (length xs) = omega arith in
    (
      ap (λ (q : Ring A). q.ring) gone,
      ap (try_next_context f is_failover done new_client) gone
          ∙ ap
              (λ b.
                if b
                then ended (some client_closed) left none []
                else left_at (try_next f is_failover done new_client (length xs + 1) left none 0))
              o
          ∙ ap (λ fuel. left_at (try_next f is_failover done new_client fuel left none 0)) more
          ∙ ap left_at
              (unplaced f is_failover done new_client (record r { ring = xs }) (length xs) o last),
    )
