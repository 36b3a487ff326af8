-- ===== src/Tuic/Address/Laws.antt =====
-- The three readers of TUIC addresses agree, but for one length, and undo the writer.
use outbound.Prelude.{ltb, if◌then◌else◌, Bool-cases, length, length-append, take, drop}
use outbound.Prelude.{length-drop, take-append_exact, drop-append_exact, take-take_le, ℕ, suc}
use outbound.Prelude.{◌+◌, ◌<◌, ◌≡◌, refl, ap, inl, inr, false, Option, none, some, [], ◌∷◌, ◌++◌}
use outbound.Prelude.{arith}
use outbound.Wire.{Bytes, IsU16, put_u16, read_full-append, read_full-short, read_full-enough}
use outbound.Wire.{uint16-drop-take}
use outbound.Tuic.Address.{atyp_domain_name, atyp_ipv4, atyp_ipv6, atyp_none, Address}
use outbound.Tuic.Address.{write_address, bytes_len, slice_port, slice_domain}
use outbound.Tuic.Address.{read_address_from_slice, stream_ip, stream_domain}
use outbound.Tuic.Address.{read_address_from_stream}

-- The shapes that the protocol can carry: four and sixteen bytes, a name of at most 255 bytes
-- behind its length, or nothing.
pub data IsAddress : Address → Type 0 where
  ipv4 :
      (a : Bytes) (p : ℕ)
      → length a ≡ 4
      → IsU16 p
      → IsAddress (record { kind = atyp_ipv4; bytes = a; port = p })
  ipv6 :
      (a : Bytes) (p : ℕ)
      → length a ≡ 16
      → IsU16 p
      → IsAddress (record { kind = atyp_ipv6; bytes = a; port = p })
  domain :
      (name : Bytes) (p : ℕ)
      → length name < 256
      → IsU16 p
      → IsAddress (record { kind = atyp_domain_name; bytes = length name ∷ name; port = p })
  absent : IsAddress (record { kind = atyp_none; bytes = []; port = 0 })

-- What the slice parser answers, read as the stream parser's answer.
abbrev pub as_stream : Bytes → Option (Address × ℕ) → Option (Address × Bytes)
as_stream msg none = none
as_stream msg (some (a, n)) = some (a, drop n msg)

ip_agrees :
    (typ n : ℕ) (r : Bytes)
    → stream_ip typ n r
      ≡ as_stream
          (typ ∷ r)
          (if ltb (length r) (n + 2) then none else slice_port (typ ∷ r) typ (take n r) (suc n))
unfolding stream_ip slice_port
ip_agrees typ n r = elim (Bool-cases (ltb (length r) (n + 2))) [
  | inl e ↦ rw (e, read_full-short (n + 2) r (ground arith))
  | inr e ↦
      let enough : ltb (length (drop n r)) 2 ≡ false = ground (arith, length-drop n r) in
      let at : suc n + 2 ≡ suc (n + 2) = omega arith in
      rw (
        e,
        read_full-enough (n + 2) r (ground arith),
        enough,
        at,
        take-take_le n (n + 2) r (omega arith),
        uint16-drop-take n r,
      )
]

domain_agrees :
    (typ : ℕ) (r : Bytes) → stream_domain typ r ≡ as_stream (typ ∷ r) (slice_domain (typ ∷ r) typ r)
unfolding stream_domain slice_domain slice_port
domain_agrees typ [] = refl
domain_agrees typ (n ∷ r) = elim (Bool-cases (ltb (suc (length r)) (1 + n + 2))) [
  | inl e ↦ rw (e, read_full-short (n + 2) r (ground arith))
  | inr e ↦
      let at : 1 + (1 + n) ≡ suc (suc n) = omega arith in
      let end : suc (suc n) + 2 ≡ suc (suc (n + 2)) = omega arith in
      let enough : ltb (length (drop n r)) 2 ≡ false = ground (arith, length-drop n r) in
      rw (
        e,
        read_full-enough (n + 2) r (ground arith),
        at,
        enough,
        end,
        take-take_le n (n + 2) r (omega arith),
        uint16-drop-take n r,
      )
]

-- The stream parser and the slice parser accept the same inputs, with the same address, and the
-- count of the slice parser is what the stream parser has read.
pub read_address_agrees :
    (msg : Bytes) → read_address_from_stream msg ≡ as_stream msg (read_address_from_slice msg)
unfolding read_address_from_stream read_address_from_slice
read_address_agrees [] = refl
read_address_agrees (typ ∷ r) =
    ground (arith, ip_agrees typ 4 r, ip_agrees typ 16 r, domain_agrees typ r)

stream_ip-append :
    (typ n : ℕ) (a : Bytes) (p : ℕ) (rest : Bytes)
    → length a ≡ n
    → IsU16 p
    → stream_ip typ n ((a ++ put_u16 p) ++ rest)
      ≡ some (record { kind = typ; bytes = a; port = p }, rest)
unfolding stream_ip
stream_ip-append typ n a p rest h k =
    let whole : length (a ++ put_u16 p) ≡ n + 2 = omega (arith, length-append a (put_u16 p)) in
    rw
      (
        read_full-append (n + 2) (a ++ put_u16 p) rest whole,
        take-append_exact n a (put_u16 p) h,
        drop-append_exact n a (put_u16 p) h,
      )
      (ap (λ t. some (record { kind = typ; bytes = a; port = t }, rest)) (omega arith))

pub stream_domain-append :
    (name : Bytes) (p : ℕ) (rest : Bytes)
    → IsU16 p
    → stream_domain 0 (length name ∷ ((name ++ put_u16 p) ++ rest))
      ≡ some (record { kind = 0; bytes = length name ∷ name; port = p }, rest)
unfolding stream_domain
stream_domain-append name p rest k =
    let whole : length (name ++ put_u16 p) ≡ length name + 2 =
      omega (arith, length-append name (put_u16 p)) in
    rw
      (
        read_full-append (length name + 2) (name ++ put_u16 p) rest whole,
        take-append_exact (length name) name (put_u16 p) refl,
        drop-append_exact (length name) name (put_u16 p) refl,
      )
      (ap (λ t. some (record { kind = 0; bytes = length name ∷ name; port = t }, rest))
        (omega arith))

-- What `WriteToBytes` lays out, `readAddressFromStream` reads back, and leaves what follows.
pub read-write_address :
    {c : Address} (rest : Bytes)
    → IsAddress c
    → read_address_from_stream (write_address c ++ rest) ≡ some (c, rest)
unfolding read_address_from_stream write_address
read-write_address rest (ipv4 a p h k) = stream_ip-append 1 4 a p rest h k
read-write_address rest (ipv6 a p h k) = stream_ip-append 2 16 a p rest h k
read-write_address rest (domain name p h k) = stream_domain-append name p rest k
read-write_address rest absent = refl

-- `BytesLen` is the number of bytes written.
pub length-write_address : (c : Address) → length (write_address c) ≡ bytes_len c
unfolding write_address bytes_len
length-write_address c = ground (arith, length-append c.bytes (put_u16 c.port))
