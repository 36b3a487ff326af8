-- ===== src/Tuic/Address/Reader.antt =====
-- `ReadAddress` of protocol.go against `readAddressFromStream` of packet_parse.go.
use outbound.Prelude.{ltb, ◌==◌, if◌then◌else◌, Bool-cases, length, take, drop, length-drop}
use outbound.Prelude.{take-take_le, drop-drop, ℕ, zero, suc, ◌+◌, ◌-◌, ◌%◌, ◌<◌, ◌≡◌, refl, ap}
use outbound.Prelude.{◌∙◌, ◌≢◌, inl, inr, Bool, true, false, ◌||◌, Option, none, some, [], ◌∷◌}
use outbound.Prelude.{◌++◌, arith}
use outbound.Wire.{◌>>=◌, Bytes, IsU16, put_u16, uint16, read_full, read_full-short}
use outbound.Wire.{read_full-enough, uint16-take, uint16-drop-take}
use outbound.Tuic.Address.{atyp_domain_name, atyp_ipv4, atyp_ipv6, atyp_none, Address}
use outbound.Tuic.Address.{write_address, stream_ip, stream_domain, read_address_from_stream}
use outbound.Tuic.Address.{Outcome, done, failed, panicked, read_port, read_domain, read_ip}
use outbound.Tuic.Address.{read_address}
use outbound.Tuic.Address.Laws.{IsAddress, ipv4, ipv6, domain, absent, stream_domain-append}
use outbound.Tuic.Address.Laws.{read-write_address}

-- The stream parser's answer as an answer of `ReadAddress`, which returns no address for `AtypNone`.
abbrev pub as_outcome : ℕ → Option (Address × Bytes) → Outcome (Option Address × Bytes)
as_outcome typ none = failed
as_outcome typ (some (a, r)) = done (if typ == atyp_none then none else some a, r)

-- Reading `n` bytes and then the port is reading `n + 2` bytes at once.
two_reads :
    (typ n : ℕ) (before : Bytes) (r : Bytes)
    → (typ == atyp_none) ≡ false
    → (elim (read_full n r) as (λ _. Outcome (Option Address × Bytes)) [
      | none ↦ failed
      | some (d, r') ↦ read_port typ (before ++ d) r'
    ])
      ≡ as_outcome typ (
          read_full (n + 2) r >>= λ b.
          some
            (record { kind = typ; bytes = before ++ take n b.0; port = uint16 (drop n b.0) }, b.1))
unfolding read_port
two_reads typ n before r h = elim (Bool-cases (ltb (length r) (n + 2))) [
  | inl e ↦ elim (Bool-cases (ltb (length r) n)) [
    | inl f ↦
        ground (arith, read_full-short n r (ground arith), read_full-short (n + 2) r (ground arith))
    | inr f ↦ ground (
      arith,
      read_full-enough n r (ground arith),
      read_full-short 2 (drop n r) (ground (arith, length-drop n r)),
      read_full-short (n + 2) r (ground arith),
    )
  ]
  | inr e ↦ ground (
    arith,
    read_full-enough n r (ground arith),
    read_full-enough 2 (drop n r) (ground (arith, length-drop n r)),
    read_full-enough (n + 2) r (ground arith),
    h,
    take-take_le n (n + 2) r (omega arith),
    uint16-drop-take n r,
    uint16-take (drop n r),
    drop-drop 2 n r,
  )
]

ip_same :
    (typ n : ℕ) (r : Bytes)
    → (typ == atyp_none) ≡ false
    → read_ip typ n r ≡ as_outcome typ (stream_ip typ n r)
unfolding read_ip stream_ip
ip_same typ n r h = two_reads typ n [] r h

domain_same :
    (n : ℕ) (r : Bytes) → n < 255 → read_domain 0 (n ∷ r) ≡ as_outcome 0 (stream_domain 0 (n ∷ r))
unfolding read_domain stream_domain
domain_same n r h =
    let small : (n + 1) % 256 ≡ n + 1 = omega arith in
    let test : (n + 1 == 0) ≡ false = ground arith in
    let back : n + 1 - 1 ≡ n = omega arith in rw (small, test, back) (two_reads 0 n (n ∷ []) r refl)

-- A domain name that is not 255 bytes long stands behind the type byte, or no domain name does.
abbrev pub NotLongest : Bytes → Type 0
NotLongest (zero ∷ n ∷ r) = n < 255
NotLongest r = Unit

-- The type byte is one of the four.
abbrev pub known_type : Bytes → Bool
known_type [] = true
known_type (typ ∷ r) =
    typ == atyp_ipv4 || typ == atyp_ipv6 || typ == atyp_domain_name || typ == atyp_none

abbrev pub first_byte : Bytes → ℕ
first_byte [] = 0
first_byte (b ∷ r) = b

-- On the four types, and short of a domain name of 255 bytes, `ReadAddress` accepts what the stream
-- parser accepts with the same result, but that it returns no address for `AtypNone`.
pub read_address_same :
    (msg : Bytes)
    → NotLongest msg
    → known_type msg ≡ true
    → read_address msg ≡ as_outcome (first_byte msg) (read_address_from_stream msg)
unfolding read_address read_address_from_stream
read_address_same [] h k = refl
read_address_same (zero ∷ []) h k = unfold read_domain stream_domain in refl
read_address_same (zero ∷ n ∷ r) h k = domain_same n r h
read_address_same (suc t ∷ r) h k = ground (arith, ip_same 1 4 r refl, ip_same 2 16 r refl)

-- `ReadAddress` panics on every domain name of 255 bytes, which the stream parser reads.
pub read_address_panics :
    (name : Bytes) (p : ℕ) (rest : Bytes)
    → length name ≡ 255
    → IsU16 p
    → (read_address (0 ∷ 255 ∷ ((name ++ put_u16 p) ++ rest)) ≡ panicked)
      × (read_address_from_stream (0 ∷ 255 ∷ ((name ++ put_u16 p) ++ rest))
          ≡ some (record { kind = 0; bytes = 255 ∷ name; port = p }, rest))
unfolding read_address read_domain read_address_from_stream
read_address_panics name p rest h k = (refl, rw (← h) (stream_domain-append name p rest k))

-- `ReadAddress` reads back what `WriteTo` lays out, but for an absent address and the longest name.
pub read-write_any :
    {c : Address} (rest : Bytes)
    → IsAddress c
    → c.kind ≢ 255
    → NotLongest (write_address c ++ rest)
    → read_address (write_address c ++ rest) ≡ done (some c, rest)
unfolding write_address
read-write_any rest (ipv4 a p h k) ne s =
    read_address_same (1 ∷ ((a ++ put_u16 p) ++ rest)) s refl
    ∙ ap (as_outcome 1) (read-write_address rest (ipv4 a p h k))
read-write_any rest (ipv6 a p h k) ne s =
    read_address_same (2 ∷ ((a ++ put_u16 p) ++ rest)) s refl
    ∙ ap (as_outcome 2) (read-write_address rest (ipv6 a p h k))
read-write_any rest (domain name p h k) ne s =
    read_address_same (0 ∷ length name ∷ ((name ++ put_u16 p) ++ rest)) s refl
    ∙ ap (as_outcome 0) (read-write_address rest (domain name p h k))
read-write_any rest absent ne s = absurd (ne refl)
