-- ===== src/Trojan/Tests.antt =====
-- The address 1.2.3.4 and a domain of 254 bytes.
use outbound.Prelude.{leb, ◌==◌, if◌then◌else◌, drop, replicate, ℕ, ◌+◌, ◌-◌, ◌≡◌, refl, Bool}
use outbound.Prelude.{◌&&◌, Option, none, some, [], ◌∷◌, ◌++◌, arith}
use outbound.Trojan.{type_ipv4, type_domain, Metadata, pack_to, unpack}
use outbound.Trojan.Laws.{unpack-pack_to}
use outbound.Trojan.Overwrite.{pack_to_overwrites}
use outbound.Wire.{Bytes, uint16}

-- No text is an address.
abbrev no_ip : Bytes → Option Bytes
no_ip text = none

abbrev domain : Bytes → Metadata
domain hostname = record { kind = type_domain; hostname = hostname; port = 443; cmd = 0 }

-- The library on addresses whose four numbers have one digit each: the text and the bytes.
abbrev one_digit : ℕ → Bool
one_digit c = leb 48 c && leb c 57

abbrev short_address : Bytes → Option Bytes
short_address (a ∷ x ∷ b ∷ y ∷ c ∷ z ∷ d ∷ []) =
    if one_digit a
      && one_digit b
      && one_digit c
      && one_digit d
      && (x == 46)
      && (y == 46)
      && (z == 46)
    then some ((a - 48) ∷ (b - 48) ∷ (c - 48) ∷ (d - 48) ∷ [])
    else none
short_address text = none

abbrev short_text : Bytes → Bytes
short_text (a ∷ b ∷ c ∷ d ∷ []) = (48 + a) ∷ 46 ∷ (48 + b) ∷ 46 ∷ (48 + c) ∷ 46 ∷ (48 + d) ∷ []
short_text a = []

abbrev address : Metadata
address = record {
  kind = type_ipv4;
  hostname = 49 ∷ 46 ∷ 50 ∷ 46 ∷ 51 ∷ 46 ∷ 52 ∷ [];
  port = 443;
  cmd = 0;
}

unpack-pack_to_example :
    (bytes : Bytes) × (pack_to short_address no_ip address (replicate 7 0) ≡ some (bytes, 7))
    × (unpack short_text (domain []) (bytes ++ (9 ∷ [])) ≡ some (address, 7, 9 ∷ []))
unpack-pack_to_example =
    unpack-pack_to short_address no_ip short_text (domain []) address (replicate 7 0) (9 ∷ [])
      (1, 2 ∷ 3 ∷ 4 ∷ [], refl, refl, refl) (omega arith) refl

pack_to_overwrites_example :
    (bytes : Bytes) × (pack_to no_ip no_ip (domain (replicate 254 97)) (replicate 258 0)
      ≡ some (bytes, 191))
    × (uint16 (drop 0 bytes) ≡ 443)
pack_to_overwrites_example =
    pack_to_overwrites no_ip no_ip 0 (domain (replicate 254 97)) (replicate 258 0) (omega arith)
      refl refl (omega arith) refl
