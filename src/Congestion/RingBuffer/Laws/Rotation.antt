-- ===== src/Congestion/RingBuffer/Laws/Rotation.antt =====
-- A circular array read from an index on, and Go's `copy` into a fresh array.
use outbound.Prelude.{ℕ, suc, ◌+◌, ◌-◌, ◌≤◌, ◌<◌, ◌≡◌, sym, ap, ap₂, ◌∙◌, arith}
use outbound.Prelude.{List, [], ◌∷◌, ◌++◌, append-nil, append_assoc, some}
use outbound.Prelude.{length, get_elem?, set, take, drop, replicate, length-append, length-drop}
use outbound.Prelude.{length-take, length-replicate}
use outbound.Prelude.{get_elem?-append_left, get_elem?-append_right, get_elem?-drop, get_elem?-take}
use outbound.Prelude.{set-append_left, set-append_right, set-drop, set-take, take-set_after}
use outbound.Prelude.{drop-set_before, take-append_exact, drop-append_exact, take_all, drop_all}
use outbound.Prelude.{drop-replicate, drop-step, take-set_next}
use outbound.Congestion.RingBuffer.{copy, copy_at}

module _ {ℓ} {A : Type ℓ} where
  abbrev pub rotate : ℕ → List A → List A
  rotate h xs = drop h xs ++ take h xs

  pub length-rotate : (h : ℕ) (xs : List A) → length (rotate h xs) ≡ length xs
  length-rotate h xs =
      omega (arith, length-append (drop h xs) (take h xs), length-drop h xs, length-take h xs)

  pub get_elem?-rotate_near :
      (h i : ℕ) (xs : List A) → h + i < length xs → get_elem? (rotate h xs) i ≡ get_elem? xs (h + i)
  get_elem?-rotate_near h i xs lt =
      get_elem?-append_left (drop h xs) (take h xs) i (omega (arith, length-drop h xs))
      ∙ get_elem?-drop h xs i

  pub get_elem?-rotate_far :
      (h i j : ℕ) (xs : List A)
      → h ≤ length xs
      → h + i ≡ length xs + j
      → j < h
      → get_elem? (rotate h xs) i ≡ get_elem? xs j
  get_elem?-rotate_far h i j xs le e lt =
      let at : i ≡ length (drop h xs) + j = omega (arith, length-drop h xs) in
      rw at (get_elem?-append_right (drop h xs) (take h xs) j ∙ get_elem?-take h xs j lt)

  pub set-rotate_near :
      (h i : ℕ) (xs : List A) (v : A)
      → h + i < length xs
      → set (rotate h xs) i v ≡ rotate h (set xs (h + i) v)
  set-rotate_near h i xs v lt =
      set-append_left (drop h xs) (take h xs) i v (omega (arith, length-drop h xs))
      ∙ ap₂ ◌++◌ (set-drop h xs i v) (sym (take-set_after h xs (h + i) v (omega arith)))

  pub set-rotate_far :
      (h i j : ℕ) (xs : List A) (v : A)
      → h ≤ length xs
      → h + i ≡ length xs + j
      → j < h
      → set (rotate h xs) i v ≡ rotate h (set xs j v)
  set-rotate_far h i j xs v le e lt =
      let at : i ≡ length (drop h xs) + j = omega (arith, length-drop h xs) in
      rw at (
        set-append_right (drop h xs) (take h xs) j v
        ∙ ap₂ ◌++◌ (sym (drop-set_before h xs j v lt)) (set-take h xs j v))

  pub rotate-length : (xs : List A) → rotate (length xs) xs ≡ rotate 0 xs
  rotate-length xs =
      ap₂ ◌++◌ (drop_all (length xs) xs (omega arith)) (take_all (length xs) xs (omega arith))
      ∙ sym (append-nil xs)

  -- What stands behind the head, when the head's element is known.
  pub rotate-step :
      (h : ℕ) (xs : List A) (x v : A)
      → get_elem? xs h ≡ some x
      → h < length xs
      → (rotate h xs ≡ x ∷ (drop (suc h) xs ++ take h xs))
        × (rotate (suc h) (set xs h v) ≡ (drop (suc h) xs ++ take h xs) ++ (v ∷ []))
  rotate-step h xs x v e lt = (
    ap (λ t. t ++ take h xs) (drop-step h xs x e),
    ap₂ ◌++◌ (drop-set_before (suc h) xs h v (omega arith)) (take-set_next h xs v lt)
        ∙ sym (append_assoc (drop (suc h) xs) (take h xs) (v ∷ [])),
  )

  -- `copy` into zeros keeps the rest of the zeros.
  pub copy-replicate :
      (k : ℕ) (z : A) (src : List A)
      → length src ≤ k
      → copy (replicate k z) src ≡ src ++ replicate (k - length src) z
  copy-replicate k z src le =
      ap₂ ◌++◌ (take_all (length (replicate k z)) src (omega (arith, length-replicate k z)))
        (drop-replicate (length src) k z)

  pub copy_at-append :
      (n : ℕ) (front back src : List A)
      → length front ≡ n
      → copy_at n (front ++ back) src ≡ front ++ copy back src
  copy_at-append n front back src e =
      ap₂ (λ s t. s ++ copy t src) (take-append_exact n front back e)
        (drop-append_exact n front back e)

  -- Two copies, one behind the other, lay both sources out in order.
  pub copy-two :
      (k n : ℕ) (z : A) (front back : List A)
      → length front ≡ n
      → n + length back ≤ k
      → copy_at n (copy (replicate k z) front) back
        ≡ (front ++ back) ++ replicate (k - n - length back) z
  copy-two k n z front back e le =
      ap (λ t. copy_at n t back) (copy-replicate k z front (omega arith))
      ∙ copy_at-append n front (replicate (k - length front) z) back e
      ∙ ap (λ t. front ++ t) (copy-replicate (k - length front) z back (omega arith))
      ∙ sym (append_assoc front back (replicate (k - length front - length back) z))
      ∙ ap (λ t. (front ++ back) ++ replicate (k - t - length back) z) e
