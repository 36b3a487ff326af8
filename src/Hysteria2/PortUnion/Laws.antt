-- ===== src/Hysteria2/PortUnion/Laws.antt =====
-- `Normalize` keeps the ports and separates the ranges.
use outbound.Prelude.{ltb, leb, if◌then◌else◌, Bool-cases, ℕ, ◌+◌, ◌≤◌, ◌<◌, ◌≡◌, refl, ap, ◌∙◌}
use outbound.Prelude.{inl, inr, Bool, false, ◌&&◌, ◌||◌, List, [], ◌∷◌, arith}
use outbound.Hysteria2.PortUnion.{PortRange, before, insert_range, sort_ranges, merge, merge_all}
use outbound.Hysteria2.PortUnion.{normalize}

-- Whether a port is in one of the ranges.
unfoldable pub covers : ℕ → List PortRange → Bool
covers p [] = false
covers p (r ∷ u) = let rest = covers p u in (leb r.first p && leb p r.last) || rest

-- The first range starts behind `e` and a port more.
abbrev pub Behind : ℕ → List PortRange → Type 0
Behind e [] = Unit
Behind e (r ∷ u) = e + 1 < r.first

-- Between two neighbours there is a port of neither.
abbrev pub Apart : List PortRange → Type 0
Apart [] = Unit
Apart (r ∷ u) = Behind r.last u × Apart u

-- The ranges start in order, from `a` on.
abbrev Ordered : ℕ → List PortRange → Type 0
Ordered a [] = Unit
Ordered a (r ∷ u) = (a ≤ r.first) × Ordered r.first u

covers-insert_range :
    (p : ℕ) (r : PortRange) (u : List PortRange) → covers p (insert_range r u) ≡ covers p (r ∷ u)
unfolding covers insert_range
covers-insert_range p r [] = refl
covers-insert_range p r (s ∷ u) = ground (arith, covers-insert_range p r u)

covers-sort_ranges : (p : ℕ) (u : List PortRange) → covers p (sort_ranges u) ≡ covers p u
unfolding covers sort_ranges
covers-sort_ranges p [] = refl
covers-sort_ranges p (r ∷ u) =
    covers-insert_range p r (sort_ranges u)
    ∙ ap (λ b. (leb r.first p && leb p r.last) || b) (covers-sort_ranges p u)

Ordered-insert_range :
    (a : ℕ) (r : PortRange) (u : List PortRange)
    → a ≤ r.first
    → Ordered a u
    → Ordered a (insert_range r u)
unfolding insert_range before
Ordered-insert_range a r [] h k = (h, tt)
Ordered-insert_range a r (s ∷ u) h k = elim (Bool-cases (before s r)) [
  | inl e ↦ rw e (k.0, Ordered-insert_range s.first r u (ground (arith, e)) k.1)
  | inr e ↦ rw e (h, (ground (arith, e), k.1))
]

Ordered-sort_ranges : (u : List PortRange) → Ordered 0 (sort_ranges u)
unfolding sort_ranges
Ordered-sort_ranges [] = tt
Ordered-sort_ranges (r ∷ u) =
    Ordered-insert_range 0 r (sort_ranges u) (omega arith) (Ordered-sort_ranges u)

abbrev extended : PortRange → PortRange → PortRange
extended r c = if ltb r.last c.last then record r { last = c.last } else r

extended_lem : (r c : PortRange) → ((extended r c).first ≡ r.first) × (r.last ≤ (extended r c).last)
extended_lem r c = ground arith

weaker-Ordered : (a b : ℕ) (u : List PortRange) → a ≤ b → Ordered b u → Ordered a u
weaker-Ordered a b [] h k = tt
weaker-Ordered a b (r ∷ u) h k = (omega (arith, k.0), k.1)

-- Two ranges that touch are one range.
covers-extended :
    (p : ℕ) (r c : PortRange) (u : List PortRange)
    → r.first ≤ c.first
    → c.first ≤ r.last + 1
    → covers p (extended r c ∷ u) ≡ covers p (r ∷ c ∷ u)
unfolding covers
covers-extended p r c u h k = ground arith

covers-merge :
    (p : ℕ) (r : PortRange) (u : List PortRange)
    → Ordered r.first u
    → covers p (merge r u) ≡ covers p (r ∷ u)
unfolding covers merge
covers-merge p r [] h = refl
covers-merge p r (c ∷ u) h = elim (Bool-cases (leb c.first (r.last + 1))) [
  | inl e ↦
      let le : (extended r c).first ≤ c.first = omega (arith, extended_lem r c, h.0) in
      rw e (
        covers-merge p (extended r c) u (weaker-Ordered (extended r c).first c.first u le h.1)
        ∙ covers-extended p r c u h.0 (ground (arith, e)))
  | inr e ↦ rw e (ap (λ b. (leb r.first p && leb p r.last) || b) (covers-merge p c u h.1))
]

Behind-merge : (e : ℕ) (r : PortRange) (u : List PortRange) → e + 1 < r.first → Behind e (merge r u)
unfolding merge
Behind-merge e r [] h = h
Behind-merge e r (c ∷ u) h = elim (Bool-cases (leb c.first (r.last + 1))) [
  | inl b ↦ rw b (Behind-merge e (extended r c) u (omega (arith, extended_lem r c, h)))
  | inr b ↦ rw b h
]

Apart-merge : (r : PortRange) (u : List PortRange) → Apart (merge r u)
unfolding merge
Apart-merge r [] = (tt, tt)
Apart-merge r (c ∷ u) = elim (Bool-cases (leb c.first (r.last + 1))) [
  | inl b ↦ rw b (Apart-merge (extended r c) u)
  | inr b ↦ rw b (Behind-merge r.last c u (ground (arith, b)), Apart-merge c u)
]

covers-merge_all :
    (p : ℕ) (u : List PortRange)
    → Ordered 0 u
    → (covers p (merge_all u) ≡ covers p u) × Apart (merge_all u)
unfolding merge_all
covers-merge_all p [] h = (refl, tt)
covers-merge_all p (r ∷ u) h = (covers-merge p r u h.1, Apart-merge r u)

-- The normal form of a union has the same ports, and between two neighbouring ranges, which stand
-- in ascending order, there is a port that neither of them has.
pub normalize_lem :
    (u : List PortRange) (p : ℕ) → (covers p (normalize u) ≡ covers p u) × Apart (normalize u)
unfolding normalize
normalize_lem u p =
    let m = covers-merge_all p (sort_ranges u) (Ordered-sort_ranges u) in
    (m.0 ∙ covers-sort_ranges p u, m.1)
