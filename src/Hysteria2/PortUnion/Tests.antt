-- ===== src/Hysteria2/PortUnion/Tests.antt =====
-- The string "80,443-445,444".
use outbound.Prelude.{All, ℕ, ◌≡◌, refl, false, none, some, List, [], ◌∷◌}
use outbound.Hysteria2.PortUnion.{PortRange, split, contains, digits, parse_uint16, between}
use outbound.Hysteria2.PortUnion.{range_of, parse_range, parse_ranges, same_bytes, is_wildcard}
use outbound.Hysteria2.PortUnion.{parse_port_union, ports}
use outbound.Hysteria2.PortUnion.Laws.{covers, Apart}
use outbound.Hysteria2.PortUnion.Ports.{IsRange, occurs, Rising, parse_port_union_lem}

abbrev text : List ℕ
text = 56 ∷ 48 ∷ 44 ∷ 52 ∷ 52 ∷ 51 ∷ 45 ∷ 52 ∷ 52 ∷ 53 ∷ 44 ∷ 52 ∷ 52 ∷ 52 ∷ []

abbrev range : ℕ → ℕ → PortRange
range a b = record { first = a; last = b }

abbrev parts : List PortRange
parts = range 80 80 ∷ range 443 445 ∷ range 444 444 ∷ []

text_parsed : parse_ranges (split 44 text) ≡ some parts
unfolding parse_ranges parse_range range_of split contains parse_uint16 digits between
text_parsed = refl

not_wildcard : is_wildcard text ≡ false
unfolding is_wildcard same_bytes
not_wildcard = refl

parse_port_union_lem_example :
    (u : List PortRange) × (parse_port_union text ≡ some u)
    × Apart u
    × All IsRange u
    × Rising 0 (ports u)
    × ((p : ℕ) → occurs p (ports u) ≡ covers p parts)
parse_port_union_lem_example = parse_port_union_lem text parts not_wildcard text_parsed

-- "1-2-3" and "65536" are refused.
refused :
    (parse_port_union (49 ∷ 45 ∷ 50 ∷ 45 ∷ 51 ∷ []) ≡ none)
    × (parse_port_union (54 ∷ 53 ∷ 53 ∷ 51 ∷ 54 ∷ []) ≡ none)
unfolding parse_port_union is_wildcard same_bytes parse_ranges parse_range range_of split contains
    parse_uint16 digits
refused = (refl, refl)
