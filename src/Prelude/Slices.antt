-- ===== src/Prelude/Slices.antt =====
-- Reading, cutting and writing lists: what `get_elem?`, `set`, `take`, `drop` and `++` do to one
-- another.
use Prim.Native.Nat.{ℕ, zero, suc, ◌+◌, ◌-◌, ◌≤◌, ◌<◌}
use mathlib.Core.Path.{◌≡◌, refl, sym, ap, ◌∙◌}
use mathlib.Core.List.{List, [], ◌∷◌, ◌++◌}
use mathlib.Core.Option.{none, some}
use native.Mathlib.Omega.{arith}
use outbound.Prelude.Lists.{
  length, get_elem?, set, take, drop, replicate, All, length-take, take_all, drop_all,
}

module _ {ℓ} {A : Type ℓ} where
  pub get_elem?-append_left :
      (xs ys : List A) (i : ℕ) → i < length xs → get_elem? (xs ++ ys) i ≡ get_elem? xs i
  get_elem?-append_left [] ys i h = absurd (omega arith)
  get_elem?-append_left (x ∷ xs) ys zero h = refl
  get_elem?-append_left (x ∷ xs) ys (suc i) h = get_elem?-append_left xs ys i (omega arith)

  pub get_elem?-append_right :
      (xs ys : List A) (i : ℕ) → get_elem? (xs ++ ys) (length xs + i) ≡ get_elem? ys i
  get_elem?-append_right [] ys i = ap (get_elem? ys) (omega arith)
  get_elem?-append_right (x ∷ xs) ys i =
      let e : suc (length xs) + i ≡ suc (length xs + i) = omega arith in
      rw e (get_elem?-append_right xs ys i)

  pub get_elem?-drop :
      (n : ℕ) (xs : List A) (i : ℕ) → get_elem? (drop n xs) i ≡ get_elem? xs (n + i)
  get_elem?-drop zero xs i = ap (get_elem? xs) (omega arith)
  get_elem?-drop (suc n) [] i = refl
  get_elem?-drop (suc n) (x ∷ xs) i =
      let e : suc n + i ≡ suc (n + i) = omega arith in rw e (get_elem?-drop n xs i)

  pub get_elem?-take :
      (n : ℕ) (xs : List A) (i : ℕ) → i < n → get_elem? (take n xs) i ≡ get_elem? xs i
  get_elem?-take zero xs i h = absurd (omega arith)
  get_elem?-take (suc n) [] i h = refl
  get_elem?-take (suc n) (x ∷ xs) zero h = refl
  get_elem?-take (suc n) (x ∷ xs) (suc i) h = get_elem?-take n xs i (omega arith)

  pub set-append_left :
      (xs ys : List A) (i : ℕ) (v : A) → i < length xs → set (xs ++ ys) i v ≡ set xs i v ++ ys
  set-append_left [] ys i v h = absurd (omega arith)
  set-append_left (x ∷ xs) ys zero v h = refl
  set-append_left (x ∷ xs) ys (suc i) v h =
      ap (λ t. x ∷ t) (set-append_left xs ys i v (omega arith))

  pub set-append_right :
      (xs ys : List A) (i : ℕ) (v : A) → set (xs ++ ys) (length xs + i) v ≡ xs ++ set ys i v
  set-append_right [] ys i v = ap (λ k. set ys k v) (omega arith)
  set-append_right (x ∷ xs) ys i v =
      let e : suc (length xs) + i ≡ suc (length xs + i) = omega arith in
      rw e (ap (λ t. x ∷ t) (set-append_right xs ys i v))

  pub take-set_next :
      (n : ℕ) (xs : List A) (v : A)
      → n < length xs
      → take (suc n) (set xs n v) ≡ take n xs ++ (v ∷ [])
  take-set_next n [] v h = absurd (omega arith)
  take-set_next zero (x ∷ xs) v h = refl
  take-set_next (suc n) (x ∷ xs) v h = ap (λ t. x ∷ t) (take-set_next n xs v (omega arith))

  pub drop-set_before :
      (n : ℕ) (xs : List A) (i : ℕ) (v : A) → i < n → drop n (set xs i v) ≡ drop n xs
  drop-set_before zero xs i v h = absurd (omega arith)
  drop-set_before (suc n) [] i v h = refl
  drop-set_before (suc n) (x ∷ xs) zero v h = refl
  drop-set_before (suc n) (x ∷ xs) (suc i) v h = drop-set_before n xs i v (omega arith)

  pub take-set_after :
      (n : ℕ) (xs : List A) (i : ℕ) (v : A) → n ≤ i → take n (set xs i v) ≡ take n xs
  take-set_after zero xs i v h = refl
  take-set_after (suc n) [] i v h = refl
  take-set_after (suc n) (x ∷ xs) zero v h = absurd (omega arith)
  take-set_after (suc n) (x ∷ xs) (suc i) v h =
      ap (λ t. x ∷ t) (take-set_after n xs i v (omega arith))

  pub set-drop :
      (n : ℕ) (xs : List A) (i : ℕ) (v : A) → set (drop n xs) i v ≡ drop n (set xs (n + i) v)
  set-drop zero xs i v = ap (λ k. set xs k v) (add_zero_left i)
    where
      add_zero_left : (k : ℕ) → k ≡ 0 + k
      add_zero_left k = omega arith
  set-drop (suc n) [] i v = refl
  set-drop (suc n) (x ∷ xs) i v =
      let e : suc n + i ≡ suc (n + i) = omega arith in rw e (set-drop n xs i v)

  pub set-take : (n : ℕ) (xs : List A) (i : ℕ) (v : A) → set (take n xs) i v ≡ take n (set xs i v)
  set-take zero xs i v = refl
  set-take (suc n) [] i v = refl
  set-take (suc n) (x ∷ xs) zero v = refl
  set-take (suc n) (x ∷ xs) (suc i) v = ap (λ t. x ∷ t) (set-take n xs i v)

  pub drop-replicate : (n k : ℕ) (a : A) → drop n (replicate k a) ≡ replicate (k - n) a
  drop-replicate zero k a = ap (λ t. replicate t a) (sub_zero k)
    where
      sub_zero : (k : ℕ) → k ≡ k - 0
      sub_zero k = omega arith
  drop-replicate (suc n) zero a = ap (λ t. replicate t a) (sub_zero n)
    where
      sub_zero : (k : ℕ) → 0 ≡ 0 - suc k
      sub_zero k = omega arith
  drop-replicate (suc n) (suc k) a =
      let e : suc k - suc n ≡ k - n = omega arith in rw e (drop-replicate n k a)

  pub drop-step :
      (n : ℕ) (xs : List A) (x : A) → get_elem? xs n ≡ some x → drop n xs ≡ x ∷ drop (suc n) xs
  drop-step n [] x h = cc
  drop-step zero (y ∷ xs) x h = cc
  drop-step (suc n) (y ∷ xs) x h = drop-step n xs x h

  pub get_elem?_of_lt : (xs : List A) (i : ℕ) → i < length xs → (x : A) × (get_elem? xs i ≡ some x)
  get_elem?_of_lt [] i h = absurd (omega arith)
  get_elem?_of_lt (x ∷ xs) zero h = (x, refl)
  get_elem?_of_lt (x ∷ xs) (suc i) h = get_elem?_of_lt xs i (omega arith)

  pub get_elem?_past : (xs : List A) (i : ℕ) → length xs ≤ i → get_elem? xs i ≡ none
  get_elem?_past [] i h = refl
  get_elem?_past (x ∷ xs) zero h = absurd (omega arith)
  get_elem?_past (x ∷ xs) (suc i) h = get_elem?_past xs i (omega arith)

  pub take-append_past :
      (n : ℕ) (xs ys : List A) → length xs ≤ n → take n (xs ++ ys) ≡ xs ++ take (n - length xs) ys
  take-append_past n [] ys h = ap (λ k. take k ys) (sub_zero n)
    where
      sub_zero : (k : ℕ) → k ≡ k - 0
      sub_zero k = omega arith
  take-append_past zero (x ∷ xs) ys h = absurd (omega arith)
  take-append_past (suc n) (x ∷ xs) ys h =
      let e : suc n - suc (length xs) ≡ n - length xs = omega arith in
      rw e (ap (λ t. x ∷ t) (take-append_past n xs ys (omega arith)))

  pub take-take_le : (m n : ℕ) (xs : List A) → m ≤ n → take m (take n xs) ≡ take m xs
  take-take_le zero n xs h = refl
  take-take_le (suc m) zero xs h = absurd (omega arith)
  take-take_le (suc m) (suc n) [] h = refl
  take-take_le (suc m) (suc n) (x ∷ xs) h = ap (λ t. x ∷ t) (take-take_le m n xs (omega arith))

  pub drop-take : (n m : ℕ) (xs : List A) → drop n (take (n + m) xs) ≡ take m (drop n xs)
  drop-take zero m xs = ap (λ k. take k xs) (zero_left m)
    where
      zero_left : (k : ℕ) → 0 + k ≡ k
      zero_left k = omega arith
  drop-take (suc n) m [] =
      drop_all (suc n) (take (suc n + m) []) (omega (arith, length-take {A = A} (suc n + m) []))
      ∙ sym (take_all m [] (omega arith))
  drop-take (suc n) m (x ∷ xs) =
      let e : suc n + m ≡ suc (n + m) = omega arith in rw e (drop-take n m xs)

  pub drop-drop : (n m : ℕ) (xs : List A) → drop n (drop m xs) ≡ drop (m + n) xs
  drop-drop n zero xs = ap (λ k. drop k xs) (zero_left n)
    where
      zero_left : (k : ℕ) → k ≡ 0 + k
      zero_left k = omega arith
  drop-drop n (suc m) [] = drop_all n [] (omega arith) ∙ sym (drop_all (suc m + n) [] (omega arith))
  drop-drop n (suc m) (x ∷ xs) =
      let e : suc m + n ≡ suc (m + n) = omega arith in rw e (drop-drop n m xs)

  pub All-imp {κ μ} :
      {P : A → Type κ} {Q : A → Type μ}
      → ((x : A) → P x → Q x)
      → (xs : List A) → All P xs
      → All Q xs
  All-imp f [] h = tt
  All-imp f (x ∷ xs) h = (f x h.0, All-imp f xs h.1)
