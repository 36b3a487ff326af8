-- ===== src/ClientRing/Tests.antt =====
-- A ring of three clients, which are numbers; an error is a number, too.
use outbound.Prelude.{◌==◌, if◌then◌else◌, ℕ, ◌≡◌, refl, Bool, true, false, Option, none, some}
use outbound.Prelude.{List, [], ◌∷◌, ◌++◌, arith}
use outbound.ClientRing.{Node, Ring, DialError, attempt_failed, ended, verdict, front, find, next}
use outbound.ClientRing.{next_around, insert_after_current, new_ring, passive_remove, get_new}
use outbound.ClientRing.{fail_over, try_next, try_next_context}
use outbound.ClientRing.Order.{Distinct, elems}
use outbound.ClientRing.Walk.{first_success, exhausted_ring}
use outbound.ClientRing.Operations.{IsRing}
use outbound.ClientRing.Reach.{dialed, Reachable, fresh, after, dial_ends, removed_last}

abbrev node : ℕ → ℕ → Node ℕ
node e x = record { elem = e; client = x }

abbrev three : Ring ℕ
three = record {
  closed = false;
  ring = node 0 50 ∷ node 1 51 ∷ node 2 52 ∷ [];
  current = some 1;
  unused = 3;
}

three-Distinct : Distinct three.ring
three-Distinct = (
  ((λ e. omega (arith, e)), ((λ e. omega (arith, e)), tt)),
  (((λ e. omega (arith, e)), tt), (tt, tt)),
)

-- only client 50 answers
abbrev only_50 : Node ℕ → Option ℕ
only_50 n = if n.client == 50 then none else some 7

abbrev nobody : Node ℕ → Option ℕ
nobody n = some 7

abbrev any_error : ℕ → Bool
any_error err = true

abbrev never : ℕ → Bool
never k = false

dialed_50 :
    try_next_context only_50 any_error never 60 three
    ≡ ended none (record three { current = some 0 }) (some 0) (1 ∷ 2 ∷ 0 ∷ [])
unfolding try_next_context try_next fail_over find next next_around front
dialed_50 = refl

first_success_example :
    try_next_context only_50 any_error never 60 three
    ≡ ended none
        (record three { current = some 0 })
        (some 0)
        (elems (node 1 51 ∷ node 2 52 ∷ []) ++ (0 ∷ []))
first_success_example =
    first_success only_50 any_error never 60 three (node 0 50 ∷ []) (node 2 52 ∷ [])
      (node 2 52 ∷ []) [] (node 1 51) (node 0 50) three-Distinct refl refl refl (λ i. refl) refl
      ((7, refl), ((7, refl), tt)) refl

exhausted_ring_example :
    try_next_context nobody any_error never 60 three
    ≡ ended
        (verdict (nobody (node 3 60)))
        (record three {
          ring = node 0 50 ∷ node 1 51 ∷ node 3 60 ∷ node 2 52 ∷ [];
          current = some 3;
          unused = 4;
        })
        (some 3)
        (elems (node 1 51 ∷ node 2 52 ∷ node 0 50 ∷ []) ++ (3 ∷ []))
exhausted_ring_example =
    exhausted_ring nobody any_error never 60 three (node 0 50 ∷ []) (node 2 52 ∷ []) (node 1 51)
      three-Distinct refl refl refl (λ i. refl)
      ((7, refl, refl), ((7, refl, refl), ((7, refl, refl), tt)))

abbrev one : Ring ℕ
one = record { closed = false; ring = node 0 60 ∷ []; current = some 0; unused = 1 }

one_dialed :
    try_next_context nobody any_error never 60 new_ring
    ≡ ended (some (attempt_failed 7)) one (some 0) (0 ∷ [])
unfolding try_next_context try_next get_new insert_after_current new_ring
one_dialed = refl

one-Reachable : Reachable {E = ℕ} any_error one
one-Reachable =
    after fresh (dialed nobody never 60 (some (attempt_failed 7)) (some 0) (0 ∷ []) one_dialed)

dial_ends_example :
    (err : Option (DialError ℕ)) × (r' : Ring ℕ) × (cur : Option ℕ) × (tried : List ℕ)
    × (try_next_context only_50 any_error never 61 one ≡ ended err r' cur tried)
dial_ends_example = dial_ends any_error one-Reachable only_50 never 61

abbrev at_last : Ring ℕ
at_last = record three { current = some 2 }

at_last-IsRing : IsRing at_last
unfolding find
at_last-IsRing = record {
  distinct = three-Distinct;
  used = (omega arith, (omega arith, (omega arith, tt)));
  current_in = λ e p. (node 2 52, ground (arith, p));
}

removed_last_example :
    ((passive_remove at_last 2).ring ≡ node 0 50 ∷ node 1 51 ∷ [])
    × (try_next_context only_50 any_error never 60 (passive_remove at_last 2)
        ≡ ended
            (verdict (only_50 (node 3 60)))
            (record at_last {
              ring = node 0 50 ∷ node 1 51 ∷ node 3 60 ∷ [];
              current = some 3;
              unused = 4;
            })
            (some 3)
            (3 ∷ []))
removed_last_example =
    removed_last only_50 any_error never 60 at_last (node 0 50 ∷ node 1 51 ∷ []) (node 2 52)
      at_last-IsRing refl refl refl (λ i. refl)
