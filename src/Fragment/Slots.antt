-- ===== src/Fragment/Slots.antt =====
-- A slice of fragment pointers, some of them nil, that fills up with the fragments `xs` of one
-- message in any order.
use outbound.Prelude.{length, get_elem?, set, length-append, replicate, ℕ, zero, suc, ◌+◌, ◌≤◌}
use outbound.Prelude.{◌<◌, ◌≡◌, refl, ap, ap₂, ◌∙◌, ◌≢◌, Option, none, some, List, [], ◌∷◌, ◌++◌}
use outbound.Prelude.{map, arith}

module _ {A : Type 0} where
  abbrev pub present : List (Option A) → ℕ
  present [] = 0
  present (none ∷ s) = present s
  present (some x ∷ s) = suc (present s)

  -- Every filled slot holds the fragment of its index.
  abbrev pub Fits : List (Option A) → List A → Type 0
  Fits [] [] = Unit
  Fits [] (x ∷ xs) = ⊥
  Fits (o ∷ s) [] = ⊥
  Fits (none ∷ s) (x ∷ xs) = Fits s xs
  Fits (some y ∷ s) (x ∷ xs) = (y ≡ x) × Fits s xs

module _ {A : Type 0} where
  pub present-le : (s : List (Option A)) → present s ≤ length s
  present-le [] = omega arith
  present-le (none ∷ s) = omega (arith, present-le s)
  present-le (some x ∷ s) = omega (arith, present-le s)

  pub present-set :
      (s : List (Option A)) (j : ℕ) (x : A)
      → get_elem? s j ≡ some none
      → present (set s j (some x)) ≡ suc (present s)
  present-set [] j x h = cc
  present-set (none ∷ s) zero x h = refl
  present-set (some y ∷ s) zero x h = cc
  present-set (none ∷ s) (suc j) x h = present-set s j x h
  present-set (some y ∷ s) (suc j) x h = ap suc (present-set s j x h)

  pub Fits-set :
      (s : List (Option A)) (xs : List A) (j : ℕ) (x : A)
      → Fits s xs
      → get_elem? xs j ≡ some x
      → Fits (set s j (some x)) xs
  Fits-set [] [] j x f h = cc
  Fits-set [] (y ∷ ys) j x f h = absurd f
  Fits-set (o ∷ s) [] j x f h = cc
  Fits-set (none ∷ s) (y ∷ ys) zero x f h = (cc, f)
  Fits-set (some z ∷ s) (y ∷ ys) zero x f h = (cc, f.1)
  Fits-set (none ∷ s) (y ∷ ys) (suc j) x f h = Fits-set s ys j x f h
  Fits-set (some z ∷ s) (y ∷ ys) (suc j) x f h = (f.0, Fits-set s ys j x f.1 h)

  pub Fits-length : (s : List (Option A)) (xs : List A) → Fits s xs → length s ≡ length xs
  Fits-length [] [] f = refl
  Fits-length [] (y ∷ ys) f = absurd f
  Fits-length (o ∷ s) [] f = absurd f
  Fits-length (none ∷ s) (y ∷ ys) f = ap suc (Fits-length s ys f)
  Fits-length (some z ∷ s) (y ∷ ys) f = ap suc (Fits-length s ys f.1)

  pub Fits-replicate : (xs : List A) → Fits (replicate (length xs) none) xs
  Fits-replicate [] = tt
  Fits-replicate (x ∷ xs) = Fits-replicate xs

  pub get_elem?-replicate : (n j : ℕ) (x : A) → j < n → get_elem? (replicate n x) j ≡ some x
  get_elem?-replicate zero j x h = absurd (omega arith)
  get_elem?-replicate (suc n) zero x h = refl
  get_elem?-replicate (suc n) (suc j) x h = get_elem?-replicate n j x (omega arith)

  -- Full slots are the fragments.
  pub Fits-full :
      (s : List (Option A)) (xs : List A) → Fits s xs → present s ≡ length s → s ≡ map some xs
  Fits-full [] [] f h = refl
  Fits-full [] (y ∷ ys) f h = absurd f
  Fits-full (o ∷ s) [] f h = absurd f
  Fits-full (none ∷ s) (y ∷ ys) f h = absurd (omega (arith, present-le s))
  Fits-full (some z ∷ s) (y ∷ ys) f h =
      ap₂ (λ a t. some a ∷ t) f.0 (Fits-full s ys f.1 (omega arith))

  pub full_slot : (xs : List A) (j : ℕ) → get_elem? (map some xs) j ≢ some none
  full_slot [] j h = cc
  full_slot (x ∷ xs) zero h = cc
  full_slot (x ∷ xs) (suc j) h = full_slot xs j h

  pub lt_of_get_elem? : (xs : List A) (j : ℕ) (x : A) → get_elem? xs j ≡ some x → j < length xs
  lt_of_get_elem? [] j x h = cc
  lt_of_get_elem? (y ∷ ys) zero x h = omega arith
  lt_of_get_elem? (y ∷ ys) (suc j) x h = omega (arith, lt_of_get_elem? ys j x h)

module _ {A : Type 0} (content : A → List ℕ) where
  -- the bytes that the filled slots hold, and how many they are
  abbrev pub joined : List (Option A) → List ℕ
  joined [] = []
  joined (none ∷ s) = joined s
  joined (some x ∷ s) = content x ++ joined s

  abbrev pub weight : List (Option A) → ℕ
  weight [] = 0
  weight (none ∷ s) = weight s
  weight (some x ∷ s) = length (content x) + weight s

  abbrev pub all_content : List A → List ℕ
  all_content [] = []
  all_content (x ∷ xs) = content x ++ all_content xs

  pub weight-set :
      (s : List (Option A)) (j : ℕ) (x : A)
      → get_elem? s j ≡ some none
      → weight (set s j (some x)) ≡ weight s + length (content x)
  weight-set [] j x h = cc
  weight-set (none ∷ s) zero x h = omega arith
  weight-set (some y ∷ s) zero x h = cc
  weight-set (none ∷ s) (suc j) x h = weight-set s j x h
  weight-set (some y ∷ s) (suc j) x h = omega (arith, weight-set s j x h)

  pub weight-joined : (s : List (Option A)) → length (joined s) ≡ weight s
  weight-joined [] = refl
  weight-joined (none ∷ s) = weight-joined s
  weight-joined (some x ∷ s) = omega (arith, length-append (content x) (joined s), weight-joined s)

  pub joined-map : (xs : List A) → joined (map some xs) ≡ all_content xs
  joined-map [] = refl
  joined-map (x ∷ xs) = ap (λ t. content x ++ t) (joined-map xs)

  pub weight-replicate : (n : ℕ) → weight (replicate n none) ≡ 0
  weight-replicate zero = refl
  weight-replicate (suc n) = weight-replicate n

  pub joined-full :
      (s : List (Option A)) (xs : List A)
      → Fits s xs
      → present s ≡ length s
      → joined s ≡ all_content xs
  joined-full s xs f h = ap joined (Fits-full s xs f h) ∙ joined-map xs

module _ (A : Type 0) where
  pub present-replicate : (n : ℕ) → present {A = A} (replicate n none) ≡ 0
  present-replicate zero = refl
  present-replicate (suc n) = present-replicate n
