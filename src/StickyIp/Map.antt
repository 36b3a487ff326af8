-- ===== src/StickyIp/Map.antt =====
-- A Go map with text keys as an association list: the first entry of a key counts.
use outbound.Prelude.{if◌then◌else◌, ◌≡◌, refl, Bool, Option, none, some, List, [], ◌∷◌}
use outbound.Prelude.{arith}
use Prim.Native.String.{String}
use text.Mathlib.Text.{◌==◌ as str_eq}
use text.Mathlib.TextEquality.{eq_iff}

module _ {ℓ} {V : Type ℓ} where
  unfoldable pub lookup : String → List (String × V) → Option V
  lookup k [] = none
  lookup k ((j, v) ∷ m) = if str_eq j k then some v else lookup k m

  -- An assignment to a key replaces its value, or adds the key.
  unfoldable pub insert : String → V → List (String × V) → List (String × V)
  insert key new [] = (key, new) ∷ []
  insert key new ((i, w) ∷ m) = if str_eq i key then (key, new) ∷ m else (i, w) ∷ insert key new m

  unfoldable pub erase : String → List (String × V) → List (String × V)
  erase k [] = []
  erase k ((j, v) ∷ m) = let rest = erase k m in if str_eq j k then rest else (j, v) ∷ rest

  -- `delete` of every entry that fails a test, in one pass over the map
  unfoldable pub keep_if : (V → Bool) → List (String × V) → List (String × V)
  keep_if p [] = []
  keep_if p ((j, v) ∷ m) = let rest = keep_if p m in if p v then (j, v) ∷ rest else rest

  -- No key stands twice.
  abbrev pub IsMap : List (String × V) → Type ℓ
  IsMap [] = Unit
  IsMap ((j, v) ∷ m) = (lookup j m ≡ none) × IsMap m

  pub lookup-insert :
      (key other : String) (new : V) (m : List (String × V))
      → lookup other (insert key new m) ≡ (if str_eq key other then some new else lookup other m)
  unfolding lookup insert
  lookup-insert key other new [] = refl
  lookup-insert key other new ((i, w) ∷ m) =
      ground (arith, lookup-insert key other new m, eq_iff i other, eq_iff i key, eq_iff key other)

  pub lookup-erase :
      (k j : String) (m : List (String × V))
      → lookup j (erase k m) ≡ (if str_eq k j then none else lookup j m)
  unfolding lookup erase
  lookup-erase k j [] = ground arith
  lookup-erase k j ((i, w) ∷ m) =
      ground (arith, eq_iff k j, eq_iff i k, eq_iff i j, lookup-erase k j m)

  -- The test applied to what a lookup finds.
  abbrev pub filtered : (V → Bool) → Option V → Option V
  filtered p none = none
  filtered p (some v) = if p v then some v else none

  lookup-keep_if-none :
      (p : V → Bool) (j : String) (m : List (String × V))
      → lookup j m ≡ none
      → lookup j (keep_if p m) ≡ none
  unfolding lookup keep_if
  lookup-keep_if-none p j [] h = refl
  lookup-keep_if-none p j ((i, w) ∷ m) h = ground (arith, lookup-keep_if-none p j m)

  pub lookup-keep_if :
      (p : V → Bool) (j : String) (m : List (String × V))
      → IsMap m
      → lookup j (keep_if p m) ≡ filtered p (lookup j m)
  unfolding lookup keep_if
  lookup-keep_if p j [] h = refl
  lookup-keep_if p j ((i, w) ∷ m) h =
      ground (arith, eq_iff i j, lookup-keep_if p j m h.1, lookup-keep_if-none p j m)

  pub insert-IsMap : (k : String) (v : V) (m : List (String × V)) → IsMap m → IsMap (insert k v m)
  unfolding lookup insert
  insert-IsMap k v [] h = (refl, tt)
  insert-IsMap k v ((i, w) ∷ m) h =
      ground (arith, eq_iff i k, eq_iff k i, lookup-insert k i v m, insert-IsMap k v m h.1)

  pub keep_if-IsMap : (p : V → Bool) (m : List (String × V)) → IsMap m → IsMap (keep_if p m)
  unfolding keep_if
  keep_if-IsMap p [] h = tt
  keep_if-IsMap p ((i, w) ∷ m) h = ground (arith, lookup-keep_if-none p i m, keep_if-IsMap p m h.1)
