-- ===== src/ClientRing/Operations.antt =====
-- What a ring of clientring.go is, and its insertions and removals.
use outbound.Prelude.{◌==◌, Bool-cases, Option-cases, All, All-imp, ℕ, ◌+◌, ◌<◌, ◌≡◌, refl, ap}
use outbound.Prelude.{◌∙◌, ◌≢◌, inl, inr, some, List, [], ◌∷◌, ◌++◌, arith}
use outbound.ClientRing.{Node, Ring, is_elem, front, find, next, insert_after, remove_elem}
use outbound.ClientRing.{insert_after_current, passive_remove}
use outbound.ClientRing.Order.{Distinct}

module _ {A : Type 0} where
  -- No element twice, none that is still unused, and the current element is in the list.
  pub record IsRing (r : Ring A) : Type 0 where
    pub distinct : Distinct r.ring
    pub used : All (λ (n : Node A). n.elem < r.unused) r.ring
    pub current_in : (e : ℕ) → r.current ≡ some e → (n : Node A) × (find e r.ring ≡ some n)

  All-insert_after :
      (P : Node A → Type 0) (new : Node A) (e : ℕ) (ns : List (Node A))
      → P new
      → All P ns
      → All P (insert_after new e ns)
  unfolding insert_after
  All-insert_after P new e [] p h = tt
  All-insert_after P new e (n ∷ ns) p h = elim (Bool-cases (n.elem == e)) [
    | inl q ↦ rw q (h.0, (p, h.1))
    | inr q ↦ rw q (h.0, All-insert_after P new e ns p h.1)
  ]

  Distinct-insert_after :
      (new : Node A) (e : ℕ) (ns : List (Node A))
      → All (λ (n : Node A). n.elem < new.elem) ns
      → Distinct ns
      → Distinct (insert_after new e ns)
  unfolding insert_after
  Distinct-insert_after new e [] h d = tt
  Distinct-insert_after new e (n ∷ ns) h d =
      let fresh : All (λ (m : Node A). new.elem ≢ m.elem) ns =
        All-imp {P = λ (m : Node A). m.elem < new.elem} {Q = λ (m : Node A). new.elem ≢ m.elem}
          (λ m l q. omega (arith, l, q)) ns h.1 in
      let other : n.elem ≢ new.elem = λ q. omega (arith, h.0, q) in
      elim (Bool-cases (n.elem == e)) [
        | inl q ↦ rw q ((other, d.0), (fresh, d.1))
        | inr q ↦ rw q (
          All-insert_after (λ (m : Node A). n.elem ≢ m.elem) new e ns other d.0,
          Distinct-insert_after new e ns h.1 d.1,
        )
      ]

  find-insert_after :
      (new n : Node A) (e : ℕ) (ns : List (Node A))
      → All (λ (m : Node A). m.elem < new.elem) ns
      → find e ns ≡ some n
      → find new.elem (insert_after new e ns) ≡ some new
  unfolding find insert_after
  find-insert_after new n e [] h q = absurd (ground (arith, q))
  find-insert_after new n e (m ∷ ns) h q = ground (arith, h.0, q, find-insert_after new n e ns h.1)

  All-append :
      (P : Node A → Type 0) (xs ys : List (Node A)) → All P xs → All P ys → All P (xs ++ ys)
  All-append P [] ys h k = k
  All-append P (x ∷ xs) ys h k = (h.0, All-append P xs ys h.1 k)

  Distinct-append :
      (new : Node A) (ns : List (Node A))
      → All (λ (n : Node A). n.elem < new.elem) ns
      → Distinct ns
      → Distinct (ns ++ (new ∷ []))
  Distinct-append new [] h d = (tt, tt)
  Distinct-append new (n ∷ ns) h d = (
    All-append (λ (m : Node A). n.elem ≢ m.elem) ns (new ∷ []) d.0
        ((λ q. omega (arith, h.0, q)), tt),
    Distinct-append new ns h.1 d.1,
  )

  find-append :
      (new : Node A) (ns : List (Node A))
      → All (λ (m : Node A). m.elem < new.elem) ns
      → find new.elem (ns ++ (new ∷ [])) ≡ some new
  unfolding find
  find-append new [] h = ground arith
  find-append new (m ∷ ns) h = ground (arith, h.0, find-append new ns h.1)

  weaker-used :
      (k : ℕ) (ns : List (Node A))
      → All (λ (n : Node A). n.elem < k) ns
      → All (λ (n : Node A). n.elem < k + 1) ns
  weaker-used k ns h =
      All-imp {P = λ (n : Node A). n.elem < k} {Q = λ (n : Node A). n.elem < k + 1}
        (λ n l. omega (arith, l)) ns h

  -- A new client behind the current one.
  pub insert_after_current-IsRing :
      (r : Ring A) (client : A) → IsRing r → IsRing (insert_after_current r client)
  unfolding insert_after_current
  insert_after_current-IsRing r client h =
      let new : Node A = record { elem = r.unused; client = client } in
      elim (Option-cases r.current) [
        | inl q ↦ rw q (record {
          distinct = Distinct-append new r.ring h.used h.distinct;
          used =
              All-append (λ (n : Node A). n.elem < r.unused + 1) r.ring (new ∷ [])
                (weaker-used r.unused r.ring h.used) (omega arith, tt);
          current_in = λ e p. (
            new,
            ap (λ i. find i (r.ring ++ (new ∷ []))) (ground (arith, p))
                ∙ find-append new r.ring h.used,
          );
        })
        | inr (c, q) ↦
            let (n, found) = h.current_in c q in
            rw q (record {
              distinct = Distinct-insert_after new c r.ring h.used h.distinct;
              used =
                  All-insert_after (λ (n : Node A). n.elem < r.unused + 1) new c r.ring
                    (omega arith) (weaker-used r.unused r.ring h.used);
              current_in = λ e p. (
                new,
                ap (λ i. find i (insert_after new c r.ring)) (ground (arith, p))
                    ∙ find-insert_after new n c r.ring h.used found,
              );
            })
      ]

  All-remove_elem :
      (P : Node A → Type 0) (e : ℕ) (ns : List (Node A)) → All P ns → All P (remove_elem e ns)
  unfolding remove_elem
  All-remove_elem P e [] h = tt
  All-remove_elem P e (n ∷ ns) h = elim (Bool-cases (n.elem == e)) [
    | inl q ↦ rw q h.1
    | inr q ↦ rw q (h.0, All-remove_elem P e ns h.1)
  ]

  Distinct-remove_elem : (e : ℕ) (ns : List (Node A)) → Distinct ns → Distinct (remove_elem e ns)
  unfolding remove_elem
  Distinct-remove_elem e [] d = tt
  Distinct-remove_elem e (n ∷ ns) d = elim (Bool-cases (n.elem == e)) [
    | inl q ↦ rw q d.1
    | inr q ↦
        rw q (
          All-remove_elem (λ (m : Node A). n.elem ≢ m.elem) e ns d.0,
          Distinct-remove_elem e ns d.1,
        )
  ]

  find-remove_elem : (e i : ℕ) (ns : List (Node A)) → e ≢ i → find i (remove_elem e ns) ≡ find i ns
  unfolding find remove_elem
  find-remove_elem e i [] h = refl
  find-remove_elem e i (n ∷ ns) h = ground (arith, h, find-remove_elem e i ns h)

  -- What stands behind an element that leaves is still there, and another element.
  next_in :
      (e i : ℕ) (ns : List (Node A))
      → Distinct ns
      → next e ns ≡ some i
      → (e ≢ i) × ((n : Node A) × (find i ns ≡ some n))
  unfolding next find front
  next_in e i [] d h = absurd (ground (arith, h))
  next_in e i (n ∷ []) d h = absurd (ground (arith, h))
  next_in e i (n ∷ (m ∷ ns)) d h = elim (Bool-cases (n.elem == e)) [
    | inl q ↦ (ground (arith, q, h, d.0.0), (m, ground (arith, q, h, d.0.0)))
    | inr q ↦
        let (ne, (k, found)) = next_in e i (m ∷ ns) d.1 (ground (arith, q, h)) in
        elim (Bool-cases (n.elem == i)) [
          | inl p ↦ (ne, (n, ground (arith, p)))
          | inr p ↦ (ne, (k, ground (arith, p, found)))
        ]
  ]

  pub passive_remove-IsRing : (r : Ring A) (e : ℕ) → IsRing r → IsRing (passive_remove r e)
  unfolding passive_remove
  passive_remove-IsRing r e h = elim (Option-cases (find e r.ring)) [
    | inl q ↦ rw (passive_remove, q) h
    | inr (n, q) ↦
        rw (passive_remove, q)
          (record {
            distinct = Distinct-remove_elem e r.ring h.distinct;
            used = All-remove_elem (λ (m : Node A). m.elem < r.unused) e r.ring h.used;
            current_in = elim (Bool-cases (is_elem r.current (some e))) [
              | inl same ↦ λ i p.
                  let (ne, (m, found)) = next_in e i r.ring h.distinct (ground (arith, same, p)) in
                  (m, find-remove_elem e i r.ring ne ∙ found)
              | inr other ↦ λ i p.
                  let cur : r.current ≡ some i = ground (arith, other, p) in
                  let (m, found) = h.current_in i cur in
                  (m, find-remove_elem e i r.ring (λ w. ground (arith, cur, other, w)) ∙ found)
            ];
          })
  ]

  pub find_split :
      (e : ℕ) (ns : List (Node A)) (n : Node A)
      → find e ns ≡ some n
      → (xs : List (Node A)) × (ys : List (Node A)) × (ns ≡ xs ++ (n ∷ ys)) × (n.elem ≡ e)
  unfolding find
  find_split e [] n h = absurd (ground (arith, h))
  find_split e (m ∷ ns) n h = elim (Bool-cases (m.elem == e)) [
    | inl q ↦
        let same : m ≡ n = ground (arith, q, h) in
        ([], ns, ap (λ (k : Node A). k ∷ ns) same, ground (arith, q, h))
    | inr q ↦
        let (xs, ys, p, i) = find_split e ns n (ground (arith, q, h)) in
        (m ∷ xs, ys, ap (λ (l : List (Node A)). m ∷ l) p, i)
  ]
