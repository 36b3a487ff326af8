-- ===== src/ClientRing.antt =====
-- protocol/infra/clientring/clientring.go: the ring of clients that a dial walks. The `list.List` is
-- the list of its nodes; an element is a number that is never used twice, and an element whose
-- `Value` is nil is one that is no longer in the list. The permit is held from one operation's begin
-- to its end, so an operation is a function on the ring.
pub mod Order
pub mod Walk
pub mod Operations
pub mod Keeps
pub mod Reach
mod Tests
use outbound.Prelude.{◌==◌, if◌then◌else◌, length, ℕ, zero, suc, ◌+◌, Bool, true, false, Option}
use outbound.Prelude.{none, some, List, [], ◌∷◌, ◌++◌, map}

pub record Node (A : Type 0) : Type 0 where
  pub elem : ℕ
  pub client : A

pub record Ring (A : Type 0) : Type 0 where
  pub closed : Bool
  pub ring : List (Node A)
  pub current : Option ℕ
  pub unused : ℕ

-- What `TryNext` returns: its two own errors, and those of an attempt.
pub data DialError (E : Type 0) : Type 0 where
  context_ended client_closed : DialError E
  attempt_failed : E → DialError E

-- One walk: its error, none if a client was dialed, the ring and the position after it, and the
-- elements tried, in order. `nil_value` is the panic on an element without a node, and
-- `out_of_fuel` is no result of the code.
pub data Walked (A E : Type 0) : Type 0 where
  ended : Option (DialError E) → Ring A → Option ℕ → List ℕ → Walked A E
  nil_value out_of_fuel : Walked A E

abbrev pub tried_first : {A E : Type 0} → ℕ → Walked A E → Walked A E
tried_first e (ended err r cur tried) = ended err r cur (e ∷ tried)
tried_first e nil_value = nil_value
tried_first e out_of_fuel = out_of_fuel

abbrev pub is_elem : Option ℕ → Option ℕ → Bool
is_elem none none = true
is_elem (some a) (some b) = a == b
is_elem none (some b) = false
is_elem (some a) none = false

abbrev pub verdict : {E : Type 0} → Option E → Option (DialError E)
verdict none = none
verdict (some err) = some (attempt_failed err)

-- `r.current = newCurrent`
abbrev pub left_at : {A E : Type 0} → Walked A E → Walked A E
left_at (ended err r cur tried) = ended err (record r { current = cur }) cur tried
left_at nil_value = nil_value
left_at out_of_fuel = out_of_fuel

module _ {A : Type 0} where
  unfoldable pub front : List (Node A) → Option ℕ
  front [] = none
  front (n ∷ ns) = some n.elem

  unfoldable pub find : ℕ → List (Node A) → Option (Node A)
  find e [] = none
  find e (n ∷ ns) = if n.elem == e then some n else find e ns

  -- `elem.Next()`
  unfoldable pub next : ℕ → List (Node A) → Option ℕ
  next e [] = none
  next e (n ∷ ns) = if n.elem == e then front ns else next e ns

  -- the next element, or the first one behind the last
  unfoldable pub next_around : ℕ → List (Node A) → Option ℕ
  next_around e ns = elim (next e ns) [ none ↦ front ns | some e' ↦ some e' ]

  -- `list.InsertAfter`
  unfoldable pub insert_after : Node A → ℕ → List (Node A) → List (Node A)
  insert_after new e [] = []
  insert_after new e (n ∷ ns) =
      let rest = insert_after new e ns in if n.elem == e then n ∷ new ∷ ns else n ∷ rest

  unfoldable pub remove_elem : ℕ → List (Node A) → List (Node A)
  remove_elem e [] = []
  remove_elem e (n ∷ ns) = let rest = remove_elem e ns in if n.elem == e then ns else n ∷ rest

  -- `insertAfterCurrent`, and `getNew` sets the current element to the new one.
  unfoldable pub insert_after_current : Ring A → A → Ring A
  insert_after_current r client =
      let new : Node A = record { elem = r.unused; client = client } in
      record r {
        ring = elim r.current [ none ↦ r.ring ++ (new ∷ []) | some e ↦ insert_after new e r.ring ];
        current = some r.unused;
        unused = r.unused + 1;
      }

  unfoldable pub new_ring : Ring A
  new_ring = record { closed = false; ring = []; current = none; unused = 0 }

  unfoldable pub passive_remove : Ring A → ℕ → Ring A
  passive_remove r e = elim (find e r.ring) [
    | none ↦ r
    | some n ↦ record r {
      ring = remove_elem e r.ring;
      current = if is_elem r.current (some e) then next e r.ring else r.current;
    }
  ]

  -- `Close`, with the clients that it closes.
  unfoldable pub close : Ring A → Ring A × List A
  close r =
      (record r { closed = true; ring = []; current = none }, map (λ (n : Node A). n.client) r.ring)

-- A client's dial `f` returns an error or none; `done k` is what the check of the context number `k`
-- sees; `is_failover` is `IsFailoverError`, which asks another package.
module _ {A E : Type 0} (f : Node A → Option E) (is_failover : E → Bool) (done : ℕ → Bool)
    (new_client : A) where
  -- from the label `getNew`
  unfoldable pub get_new : Ring A → Option ℕ → ℕ → Walked A E
  get_new r cur k =
      if done k
      then ended (some context_ended) r cur []
      else if r.closed
      then ended (some client_closed) r cur []
      else let r' = insert_after_current r new_client in
        ended (verdict (f (record { elem = r.unused; client = new_client }))) r' (some r.unused)
          (r.unused ∷ [])

  -- `tryNext` behind a failed attempt: `nxt` is the position, `rest` the walk from there.
  unfoldable pub fail_over : Ring A → E → Option ℕ → ℕ → Walked A E → Walked A E
  fail_over r err nxt k rest =
      if is_elem nxt r.current
      then (if is_failover err then get_new r nxt k else ended (some (attempt_failed err)) r nxt [])
      else rest

  unfoldable pub try_next : ℕ → Ring A → Option ℕ → ℕ → Walked A E
  try_next zero r cur k = out_of_fuel
  try_next (suc fuel) r cur k = if done k then ended (some context_ended) r cur [] else elim cur [
    | none ↦ get_new r none (k + 1)
    | some e ↦ elim (find e r.ring) [
      | none ↦ nil_value
      | some n ↦ tried_first e (elim (f n) [
        | none ↦ ended none r (some e) []
        | some err ↦
            if done (k + 1)
            then ended (some (attempt_failed err)) r (some e) []
            else let nxt = next_around e r.ring in
              fail_over r err nxt (k + 2) (try_next fuel r nxt (k + 2))
      ])
    ]
  ]

  -- `TryNextContext` once it has the permit: the walk leaves its position as the current one.
  unfoldable pub try_next_context : Ring A → Walked A E
  try_next_context r =
      if r.closed
      then ended (some client_closed) r r.current []
      else left_at (try_next (length r.ring + 1) r r.current 0)
