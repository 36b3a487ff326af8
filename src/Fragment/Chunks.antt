-- ===== src/Fragment/Chunks.antt =====
-- The loop that both fragmenters run over a payload: chunks of `size` bytes, the last one shorter.
-- A round takes at least one byte, so the length of the payload is fuel enough.
use outbound.Prelude.{ltb, Bool-cases, length, take, drop, take-append-drop, length-take}
use outbound.Prelude.{length-drop, All, ℕ, zero, suc, ◌+◌, ◌-◌, ◌/◌, ◌≤◌, ◌<◌, min, ◌≡◌, refl}
use outbound.Prelude.{sym, ap, ◌∙◌, ◌⊎◌, inl, inr, true, false, List, [], ◌∷◌, ◌++◌, arith}
use native.Mathlib.Nat.{div-eq-sub-div, div-eq_of_lt}

unfoldable pub chunks : ℕ → ℕ → List ℕ → List (List ℕ)
chunks fuel size [] = []
chunks zero size (b ∷ bs) = []
chunks (suc fuel) size (b ∷ bs) =
    take (min (length (b ∷ bs)) size) (b ∷ bs)
    ∷ chunks fuel size (drop (min (length (b ∷ bs)) size) (b ∷ bs))

abbrev pub flat : List (List ℕ) → List ℕ
flat [] = []
flat (c ∷ cs) = c ++ flat cs

-- the number of chunks that both fragmenters compute beforehand
abbrev pub chunk_count : ℕ → ℕ → ℕ
chunk_count n size = (n + size - 1) / size

module _ (size : ℕ) (pos : 0 < size) where
  pub flat-chunks : (fuel : ℕ) (xs : List ℕ) → length xs ≤ fuel → flat (chunks fuel size xs) ≡ xs
  unfolding chunks
  flat-chunks fuel [] h = refl
  flat-chunks zero (b ∷ bs) h = absurd (omega arith)
  flat-chunks (suc fuel) (b ∷ bs) h =
      let n : ℕ = min (length (b ∷ bs)) size in
      ap (λ t. take n (b ∷ bs) ++ t)
        (flat-chunks fuel (drop n (b ∷ bs)) (omega (arith, length-drop n (b ∷ bs))))
      ∙ take-append-drop n (b ∷ bs)

  pub chunks-All :
      (fuel : ℕ) (xs : List ℕ)
      → length xs ≤ fuel
      → All (λ c. (0 < length c) × (length c ≤ size)) (chunks fuel size xs)
  unfolding chunks
  chunks-All fuel [] h = tt
  chunks-All zero (b ∷ bs) h = absurd (omega arith)
  chunks-All (suc fuel) (b ∷ bs) h =
      let n : ℕ = min (length (b ∷ bs)) size in
      (
        omega (arith, length-take n (b ∷ bs)),
        chunks-All fuel (drop n (b ∷ bs)) (omega (arith, length-drop n (b ∷ bs))),
      )

  count_step : (n : ℕ) → 0 < n → chunk_count n size ≡ suc (chunk_count (n - min n size) size)
  count_step n h =
      let first : chunk_count n size ≡ (n + size - 1 - size) / size + 1 =
        div-eq-sub-div pos (omega arith) in
      first ∙ rest (Bool-cases (ltb n size))
    where
      rest :
          (ltb n size ≡ true) ⊎ (ltb n size ≡ false)
          → (n + size - 1 - size) / size + 1 ≡ suc (chunk_count (n - min n size) size)
      rest (inl e) = omega (
        arith,
        div-eq_of_lt {n = n + size - 1 - size} {m = size} (ground arith),
        div-eq_of_lt {n = n - min n size + size - 1} {m = size} (ground arith),
      )
      rest (inr e) =
          let same : n + size - 1 - size ≡ n - min n size + size - 1 = ground arith in
          omega (arith, ap (λ (k : ℕ). k / size) same)

  -- The loop makes as many chunks as the count says.
  pub length-chunks :
      (fuel : ℕ) (xs : List ℕ)
      → length xs ≤ fuel
      → length (chunks fuel size xs) ≡ chunk_count (length xs) size
  unfolding chunks
  length-chunks fuel [] h = sym (div-eq_of_lt {n = 0 + size - 1} {m = size} (omega arith))
  length-chunks zero (b ∷ bs) h = absurd (omega arith)
  length-chunks (suc fuel) (b ∷ bs) h =
      let n : ℕ = min (length (b ∷ bs)) size in
      omega (
        arith,
        count_step (length (b ∷ bs)) (omega arith),
        length-chunks fuel (drop n (b ∷ bs)) (omega (arith, length-drop n (b ∷ bs))),
        ap (λ (k : ℕ). chunk_count k size) (length-drop n (b ∷ bs)),
      )
