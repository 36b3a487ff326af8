-- ===== src/Hysteria2/PortUnion.antt =====
-- protocol/hysteria2/udphop/addr.go: `PortUnion`, its normal form, its parser and its ports.
-- `sort.Slice` with an order under which equal ranges are the same range is insertion sort here. A
-- string is the list of its bytes.
pub mod Laws
pub mod Ports
mod Tests
use outbound.Prelude.{ltb, leb, ◌==◌, if◌then◌else◌, ℕ, zero, suc, ◌+◌, ◌-◌, ◌*◌, Bool, true}
use outbound.Prelude.{false, ◌&&◌, ◌||◌, Option, none, some, List, [], ◌∷◌, ◌++◌}
use outbound.Wire.{Bytes, ◌>>=◌}

pub record PortRange : Type 0 where
  pub first : ℕ
  pub last : ℕ

-- the order that `Normalize` sorts by
unfoldable pub before : PortRange → PortRange → Bool
before a b = if a.first == b.first then ltb a.last b.last else ltb a.first b.first

unfoldable pub insert_range : PortRange → List PortRange → List PortRange
insert_range r [] = r ∷ []
insert_range r (s ∷ u) = let rest = insert_range r u in if before s r then s ∷ rest else r ∷ s ∷ u

unfoldable pub sort_ranges : List PortRange → List PortRange
sort_ranges [] = []
sort_ranges (r ∷ u) = insert_range r (sort_ranges u)

-- The loop of `Normalize`: `r` is the last range of `normalized`.
unfoldable pub merge : PortRange → List PortRange → List PortRange
merge r [] = r ∷ []
merge r (c ∷ u) =
    let joined = merge (if ltb r.last c.last then record r { last = c.last } else r) u in
    let apart = merge c u in if leb c.first (r.last + 1) then joined else r ∷ apart

unfoldable pub merge_all : List PortRange → List PortRange
merge_all [] = []
merge_all (r ∷ u) = merge r u

unfoldable pub normalize : List PortRange → List PortRange
normalize u = merge_all (sort_ranges u)

-- `strings.Split` at one byte
unfoldable pub split : ℕ → Bytes → List Bytes
split sep [] = [] ∷ []
split sep (c ∷ cs) =
    let rest = split sep cs in
    if c == sep then [] ∷ rest else elim rest [ [] ↦ (c ∷ []) ∷ [] | p ∷ ps ↦ (c ∷ p) ∷ ps ]

-- `strings.Contains` of one byte
unfoldable pub contains : Bytes → ℕ → Bool
contains [] b = false
contains (c ∷ cs) b = let rest = contains cs b in c == b || rest

-- `acc` is the number that the digits before give
unfoldable pub digits : ℕ → Bytes → Option ℕ
digits acc [] = some acc
digits acc (c ∷ cs) =
    let rest = digits (acc * 10 + (c - 48)) cs in if leb 48 c && leb c 57 then rest else none

-- `strconv.ParseUint(s, 10, 16)`
unfoldable pub parse_uint16 : Bytes → Option ℕ
parse_uint16 [] = none
parse_uint16 (c ∷ cs) = do n ← digits 0 (c ∷ cs); if ltb 65535 n then none else some n

-- a range from two numbers, whichever is the larger
pub between : ℕ → ℕ → PortRange
between a b = if ltb b a then record { first = b; last = a } else record { first = a; last = b }

-- a range from the parts of its string
pub range_of : List Bytes → Option PortRange
range_of [] = none
range_of (a ∷ []) = none
range_of (a ∷ b ∷ []) = do start ← parse_uint16 a; end ← parse_uint16 b; some (between start end)
range_of (a ∷ b ∷ c ∷ ps) = none

-- one round of the loop of `ParsePortUnion`
pub parse_range : Bytes → Option PortRange
parse_range s =
    if contains s 45
    then range_of (split 45 s)
    else (do port ← parse_uint16 s; some (record { first = port; last = port }))

pub parse_ranges : List Bytes → Option (List PortRange)
parse_ranges [] = some []
parse_ranges (s ∷ ss) = do r ← parse_range s; u ← parse_ranges ss; some (r ∷ u)

same_bytes : Bytes → Bytes → Bool
same_bytes [] [] = true
same_bytes [] (y ∷ ys) = false
same_bytes (x ∷ xs) [] = false
same_bytes (x ∷ xs) (y ∷ ys) = x == y && same_bytes xs ys

-- whether the string is "all" or "*"
pub is_wildcard : Bytes → Bool
is_wildcard s = same_bytes s (97 ∷ 108 ∷ 108 ∷ []) || same_bytes s (42 ∷ [])

pub parse_port_union : Bytes → Option (List PortRange)
parse_port_union s =
    if is_wildcard s
    then some (record { first = 0; last = 65535 } ∷ [])
    else elim (parse_ranges (split 44 s)) [ none ↦ none | some u ↦ some (normalize u) ]

-- `n` ports from `i` on; the loop counts in 32 bits, so that 65535 does not wrap around
pub ports_from : ℕ → ℕ → List ℕ
ports_from zero i = []
ports_from (suc n) i = i ∷ ports_from n (i + 1)

pub ports : List PortRange → List ℕ
ports [] = []
ports (r ∷ u) = ports_from (r.last + 1 - r.first) r.first ++ ports u
