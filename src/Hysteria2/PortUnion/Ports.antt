-- ===== src/Hysteria2/PortUnion/Ports.antt =====
-- What `ParsePortUnion` accepts, and the ports that `Ports` lists.
use outbound.Prelude.{ltb, leb, ◌==◌, if◌then◌else◌, Bool-cases, if_holds, All, ℕ, zero, suc, ◌+◌}
use outbound.Prelude.{◌-◌, ◌≤◌, ◌≡◌, refl, ◌∙◌, inl, inr, Bool, false, ◌&&◌, ◌||◌, Option, none}
use outbound.Prelude.{some, List, [], ◌∷◌, ◌++◌, arith}
use outbound.Wire.{◌>>=◌, Bytes}
use outbound.Hysteria2.PortUnion.{PortRange, before, insert_range, sort_ranges, merge, merge_all}
use outbound.Hysteria2.PortUnion.{normalize, split, contains, digits, parse_uint16, between}
use outbound.Hysteria2.PortUnion.{range_of, parse_range, parse_ranges, is_wildcard}
use outbound.Hysteria2.PortUnion.{parse_port_union, ports_from, ports}
use outbound.Hysteria2.PortUnion.Laws.{covers, Behind, Apart, normalize_lem}
use mathlib.Core.Path.{subst}

abbrev pub IsRange : PortRange → Type 0
IsRange r = (r.first ≤ r.last) × (r.last ≤ 65535)

All-insert_range :
    (r : PortRange) (u : List PortRange)
    → IsRange r
    → All IsRange u
    → All IsRange (insert_range r u)
unfolding insert_range
All-insert_range r [] h k = (h, tt)
All-insert_range r (s ∷ u) h k = elim (Bool-cases (before s r)) [
  | inl e ↦ rw e (k.0, All-insert_range r u h k.1)
  | inr e ↦ rw e (h, k)
]

All-sort_ranges : (u : List PortRange) → All IsRange u → All IsRange (sort_ranges u)
unfolding sort_ranges
All-sort_ranges [] h = tt
All-sort_ranges (r ∷ u) h = All-insert_range r (sort_ranges u) h.0 (All-sort_ranges u h.1)

All-merge :
    (r : PortRange) (u : List PortRange) → IsRange r → All IsRange u → All IsRange (merge r u)
unfolding merge
All-merge r [] h k = (h, tt)
All-merge r (c ∷ u) h k = elim (Bool-cases (leb c.first (r.last + 1))) [
  | inl e ↦ rw e (
      All-merge (if ltb r.last c.last then record r { last = c.last } else r) u
        (ground (arith, h, k.0)) k.1)
  | inr e ↦ rw e (h, All-merge c u k.0 k.1)
]

All-merge_all : (u : List PortRange) → All IsRange u → All IsRange (merge_all u)
unfolding merge_all
All-merge_all [] h = tt
All-merge_all (r ∷ u) h = All-merge r u h.0 h.1

All-normalize : (u : List PortRange) → All IsRange u → All IsRange (normalize u)
unfolding normalize
All-normalize u h = All-merge_all (sort_ranges u) (All-sort_ranges u h)

-- What holds of the result, if there is one.
abbrev Gives : {A : Type 0} → (A → Type 0) → Option A → Type 0
Gives P none = Unit
Gives P (some a) = P a

Gives-bind :
    {A B : Type 0} (P : A → Type 0) (Q : B → Type 0) (o : Option A) (f : A → Option B)
    → Gives P o
    → ((a : A) → P a → Gives Q (f a))
    → Gives Q (o >>= f)
Gives-bind P Q none f h k = tt
Gives-bind P Q (some a) f h k = k a h

Gives-anything : {A : Type 0} (o : Option A) → Gives (λ a. Unit {0}) o
Gives-anything none = tt
Gives-anything (some a) = tt

abbrev IsPort : ℕ → Type 0
IsPort n = n ≤ 65535

Gives-parse_uint16 : (s : Bytes) → Gives IsPort (parse_uint16 s)
unfolding parse_uint16
Gives-parse_uint16 [] = tt
Gives-parse_uint16 (c ∷ cs) =
    Gives-bind (λ n. Unit {0}) IsPort (digits 0 (c ∷ cs))
      (λ n. if ltb 65535 n then none else some n) (Gives-anything (digits 0 (c ∷ cs)))
      (λ n h. elim (Bool-cases (ltb 65535 n)) [
        | inl e ↦ rw e tt
        | inr e ↦ rw e (ground (arith, e))
      ])

between-IsRange : (a b : ℕ) → IsPort a → IsPort b → IsRange (between a b)
unfolding between
between-IsRange a b h k = ground (arith, h, k)

Gives-range_of : (ps : List Bytes) → Gives IsRange (range_of ps)
unfolding range_of
Gives-range_of [] = tt
Gives-range_of (a ∷ []) = tt
Gives-range_of (a ∷ b ∷ []) =
    Gives-bind IsPort IsRange (parse_uint16 a) _ (Gives-parse_uint16 a) (λ m h.
      Gives-bind IsPort IsRange (parse_uint16 b) _ (Gives-parse_uint16 b)
        (λ n k. between-IsRange m n h k))
Gives-range_of (a ∷ b ∷ c ∷ ps) = tt

Gives-parse_range : (s : Bytes) → Gives IsRange (parse_range s)
unfolding parse_range
Gives-parse_range s =
    if_holds (Gives IsRange) (contains s 45) (Gives-range_of (split 45 s)) (
      Gives-bind IsPort IsRange (parse_uint16 s) _ (Gives-parse_uint16 s) (λ n h. (omega arith, h)))

Gives-parse_ranges : (ss : List Bytes) → Gives (All IsRange) (parse_ranges ss)
unfolding parse_ranges
Gives-parse_ranges [] = tt
Gives-parse_ranges (s ∷ ss) =
    Gives-bind IsRange (All IsRange) (parse_range s) _ (Gives-parse_range s) (λ r h.
      Gives-bind (All IsRange) (All IsRange) (parse_ranges ss) _ (Gives-parse_ranges ss)
        (λ u k. (h, k)))

abbrev pub occurs : ℕ → List ℕ → Bool
occurs p [] = false
occurs p (x ∷ xs) = x == p || occurs p xs

occurs-append : (p : ℕ) (xs ys : List ℕ) → occurs p (xs ++ ys) ≡ (occurs p xs || occurs p ys)
occurs-append p [] ys = refl
occurs-append p (x ∷ xs) ys = ground (arith, occurs-append p xs ys)

occurs-ports_from : (p n i : ℕ) → occurs p (ports_from n i) ≡ (leb i p && ltb p (i + n))
unfolding ports_from
occurs-ports_from p zero i = ground arith
occurs-ports_from p (suc n) i = ground (arith, occurs-ports_from p n (i + 1))

occurs-ports : (p : ℕ) (u : List PortRange) → occurs p (ports u) ≡ covers p u
unfolding ports covers
occurs-ports p [] = refl
occurs-ports p (r ∷ u) =
    occurs-append p (ports_from (r.last + 1 - r.first) r.first) (ports u)
    ∙ ground (arith, occurs-ports p u, occurs-ports_from p (r.last + 1 - r.first) r.first)

-- The numbers ascend, from `a` on, none of them twice.
abbrev pub Rising : ℕ → List ℕ → Type 0
Rising a [] = Unit
Rising a (x ∷ xs) = (a ≤ x) × Rising (x + 1) xs

Rising-weaker : (a b : ℕ) (xs : List ℕ) → a ≤ b → Rising b xs → Rising a xs
Rising-weaker a b [] h k = tt
Rising-weaker a b (x ∷ xs) h k = (omega (arith, h, k.0), k.1)

Rising-ports_from :
    (a n i : ℕ) (xs : List ℕ) → a ≤ i → Rising (i + n) xs → Rising a (ports_from n i ++ xs)
unfolding ports_from
Rising-ports_from a zero i xs h k = Rising-weaker a (i + 0) xs (omega (arith, h)) k
Rising-ports_from a (suc n) i xs h k = (
  h,
  Rising-ports_from (i + 1) n (i + 1) xs (omega arith)
      (Rising-weaker (i + 1 + n) (i + suc n) xs (omega arith) k),
)

abbrev Starts : ℕ → List PortRange → Type 0
Starts a [] = Unit
Starts a (r ∷ u) = a ≤ r.first

Behind-Starts : (e : ℕ) (u : List PortRange) → Behind e u → Starts (e + 1) u
Behind-Starts e [] h = tt
Behind-Starts e (r ∷ u) h = omega (arith, h)

ranges-Starts : (u : List PortRange) → Starts 0 u
ranges-Starts [] = tt
ranges-Starts (r ∷ u) = omega arith

Rising-ports :
    (a : ℕ) (u : List PortRange) → Starts a u → All IsRange u → Apart u → Rising a (ports u)
unfolding ports
Rising-ports a [] s h k = tt
Rising-ports a (r ∷ u) s h k = Rising-ports_from a (r.last + 1 - r.first) r.first (ports u) s (
    Rising-weaker (r.first + (r.last + 1 - r.first)) (r.last + 1) (ports u) (omega (arith, h.0))
      (Rising-ports (r.last + 1) u (Behind-Starts r.last u k.0) h.1 k.1))

-- The string is not a wildcard and its parts are ranges: `ParsePortUnion` answers ranges that are
-- not empty and do not touch, and `Ports` of them lists the ports of the parts, and no others, in
-- ascending order and each of them once.
pub parse_port_union_lem :
    (s : Bytes) (raw : List PortRange)
    → is_wildcard s ≡ false
    → parse_ranges (split 44 s) ≡ some raw
    → (u : List PortRange) × (parse_port_union s ≡ some u)
      × Apart u
      × All IsRange u
      × Rising 0 (ports u)
      × ((p : ℕ) → occurs p (ports u) ≡ covers p raw)
unfolding parse_port_union
parse_port_union_lem s raw h e =
    let valid : All IsRange raw = subst (Gives (All IsRange)) e (Gives-parse_ranges (split 44 s)) in
    let u = normalize raw in
    let ranges = All-normalize raw valid in
    let apart = (normalize_lem raw 0).1 in
    (
      u,
      rw (parse_port_union, h, e) refl,
      apart,
      ranges,
      Rising-ports 0 u (ranges-Starts u) ranges apart,
      λ p. occurs-ports p u ∙ (normalize_lem raw p).0,
    )
