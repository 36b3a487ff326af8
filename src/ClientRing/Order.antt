-- ===== src/ClientRing/Order.antt =====
-- The circular order of a ring.
use outbound.Prelude.{All, ℕ, ◌≡◌, refl, sym, ap, ◌∙◌, ◌≢◌, none, some, List, [], ◌∷◌, ◌++◌, map}
use outbound.Prelude.{append_assoc, arith}
use outbound.ClientRing.{Node, front, find, next, next_around, insert_after, remove_elem}
use mathlib.Core.Path.{subst}

module _ {A : Type 0} where
  -- No element twice.
  abbrev pub Distinct : List (Node A) → Type 0
  Distinct [] = Unit
  Distinct (n ∷ ns) = All (λ (m : Node A). n.elem ≢ m.elem) ns × Distinct ns

  -- From the current element on, and around: `order c xs ys` for the ring `xs ++ (c ∷ ys)`.
  abbrev pub order : Node A → List (Node A) → List (Node A) → List (Node A)
  order c xs ys = c ∷ (ys ++ xs)

  abbrev pub elems : List (Node A) → List ℕ
  elems = map (λ (n : Node A). n.elem)

  -- Each node of the list is followed by the next one around the ring, and the last one by `stop`.
  abbrev pub Chain : List (Node A) → ℕ → Node A → List (Node A) → Type 0
  Chain ns stop n [] = (find n.elem ns ≡ some n) × (next_around n.elem ns ≡ some stop)
  Chain ns stop n (m ∷ ms) =
      (find n.elem ns ≡ some n)
      × (next_around n.elem ns ≡ some m.elem)
      × (m.elem ≢ stop)
      × Chain ns stop m ms

  All-middle :
      (P : Node A → Type 0) (xs ys : List (Node A)) (n : Node A) → All P (xs ++ (n ∷ ys)) → P n
  All-middle P [] ys n h = h.0
  All-middle P (x ∷ xs) ys n h = All-middle P xs ys n h.1

  pub find-middle :
      (xs ys : List (Node A)) (n : Node A)
      → Distinct (xs ++ (n ∷ ys))
      → (find n.elem (xs ++ (n ∷ ys)) ≡ some n) × (next n.elem (xs ++ (n ∷ ys)) ≡ front ys)
  unfolding find next
  find-middle [] ys n h = ground arith
  find-middle (x ∷ xs) ys n h =
      ground
        (arith, All-middle (λ (m : Node A). x.elem ≢ m.elem) xs ys n h.0, find-middle xs ys n h.1)

  pub insert_after-middle :
      (xs ys : List (Node A)) (n new : Node A)
      → Distinct (xs ++ (n ∷ ys))
      → insert_after new n.elem (xs ++ (n ∷ ys)) ≡ xs ++ (n ∷ (new ∷ ys))
  unfolding insert_after
  insert_after-middle [] ys n new h = ground arith
  insert_after-middle (x ∷ xs) ys n new h = ground (
    arith,
    All-middle (λ (m : Node A). x.elem ≢ m.elem) xs ys n h.0,
    insert_after-middle xs ys n new h.1,
  )

  pub remove_elem-middle :
      (xs ys : List (Node A)) (n : Node A)
      → Distinct (xs ++ (n ∷ ys))
      → remove_elem n.elem (xs ++ (n ∷ ys)) ≡ xs ++ ys
  unfolding remove_elem
  remove_elem-middle [] ys n h = ground arith
  remove_elem-middle (x ∷ xs) ys n h = ground (
    arith,
    All-middle (λ (m : Node A). x.elem ≢ m.elem) xs ys n h.0,
    remove_elem-middle xs ys n h.1,
  )

  Distinct-pair :
      (xs ys zs : List (Node A)) (m n : Node A)
      → Distinct (xs ++ (m ∷ (ys ++ (n ∷ zs))))
      → m.elem ≢ n.elem
  Distinct-pair [] ys zs m n h = All-middle (λ (k : Node A). m.elem ≢ k.elem) ys zs n h.0
  Distinct-pair (x ∷ xs) ys zs m n h = Distinct-pair xs ys zs m n h.1

  Chain-wrapped :
      (ns pre mid post : List (Node A)) (n c : Node A)
      → Distinct ns
      → ns ≡ pre ++ (n ∷ (mid ++ (c ∷ post)))
      → Chain ns c.elem n mid
  unfolding next_around front
  Chain-wrapped ns pre [] post n c d e =
      let f = find-middle pre (c ∷ post) n (subst Distinct e d) in rw e (f.0, ground (arith, f.1))
  Chain-wrapped ns pre (m ∷ mid) post n c d e =
      let f = find-middle pre (m ∷ (mid ++ (c ∷ post))) n (subst Distinct e d) in
      let e' : ns ≡ (pre ++ (n ∷ [])) ++ (m ∷ (mid ++ (c ∷ post))) =
        e ∙ sym (append_assoc pre (n ∷ []) (m ∷ (mid ++ (c ∷ post)))) in
      let around : next_around n.elem (pre ++ (n ∷ (m ∷ (mid ++ (c ∷ post))))) ≡ some m.elem =
        ground (arith, f.1) in
      (
        ap (find n.elem) e ∙ f.0,
        ap (next_around n.elem) e ∙ around,
        Distinct-pair (pre ++ (n ∷ [])) mid post m c (subst Distinct e' d),
        Chain-wrapped ns (pre ++ (n ∷ [])) mid post m c d e',
      )

  -- Behind the last node stand the nodes before `c`.
  Chain-last :
      (ns xs ys : List (Node A)) (n c : Node A)
      → Distinct ns
      → ns ≡ xs ++ (c ∷ ys)
      → find n.elem ns ≡ some n
      → next n.elem ns ≡ none
      → Chain ns c.elem n xs
  unfolding next_around front
  Chain-last ns [] ys n c d e f g = (f, ground (arith, g, ap front e))
  Chain-last ns (x ∷ xs) ys n c d e f g = (
    f,
    ground (arith, g, ap front e),
    Distinct-pair [] xs ys x c (subst Distinct e d),
    Chain-wrapped ns [] xs ys x c d e,
  )

  Chain-suffix :
      (ns xs ys pre post : List (Node A)) (n c : Node A)
      → Distinct ns
      → ns ≡ xs ++ (c ∷ ys)
      → ns ≡ pre ++ (n ∷ post)
      → All (λ (m : Node A). c.elem ≢ m.elem) post
      → Chain ns c.elem n (post ++ xs)
  unfolding next_around front
  Chain-suffix ns xs ys pre [] n c d e e' h =
      let f = find-middle pre [] n (subst Distinct e' d) in
      Chain-last ns xs ys n c d e (ap (find n.elem) e' ∙ f.0) (ap (next n.elem) e' ∙ f.1)
  Chain-suffix ns xs ys pre (m ∷ post) n c d e e' h =
      let f = find-middle pre (m ∷ post) n (subst Distinct e' d) in
      let around : next_around n.elem (pre ++ (n ∷ (m ∷ post))) ≡ some m.elem =
        ground (arith, f.1) in
      (
        ap (find n.elem) e' ∙ f.0,
        ap (next_around n.elem) e' ∙ around,
        (λ q. h.0 (sym q)),
        Chain-suffix ns xs ys (pre ++ (n ∷ [])) post m c d e
            (e' ∙ sym (append_assoc pre (n ∷ []) (m ∷ post))) h.1,
      )

  Distinct-after :
      (xs ys : List (Node A)) (c : Node A)
      → Distinct (xs ++ (c ∷ ys))
      → All (λ (m : Node A). c.elem ≢ m.elem) ys
  Distinct-after [] ys c d = d.0
  Distinct-after (x ∷ xs) ys c d = Distinct-after xs ys c d.1

  -- Going around from `c` one meets the nodes behind it, those before it, and then `c` again.
  pub order-Chain :
      (xs ys : List (Node A)) (c : Node A)
      → Distinct (xs ++ (c ∷ ys))
      → Chain (xs ++ (c ∷ ys)) c.elem c (ys ++ xs)
  order-Chain xs ys c d =
      Chain-suffix (xs ++ (c ∷ ys)) xs ys xs ys c c d refl refl (Distinct-after xs ys c d)
