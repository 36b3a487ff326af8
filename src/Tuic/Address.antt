-- ===== src/Tuic/Address.antt =====
-- The addresses of protocol/tuic/protocol.go, with the three readers of protocol.go and
-- packet_parse.go. A reader is the list of bytes that is left; `none` is an error.
pub mod Laws
pub mod Reader
use outbound.Prelude.{ltb, ◌==◌, if◌then◌else◌, length, take, drop, ℕ, suc, ◌+◌, ◌-◌, ◌%◌, Option}
use outbound.Prelude.{none, some, [], ◌∷◌, ◌++◌}
use outbound.Wire.{◌>>=◌, Bytes, put_u16, uint16, read_full, read_byte}

abbrev pub atyp_domain_name : ℕ
atyp_domain_name = 0

abbrev pub atyp_ipv4 : ℕ
atyp_ipv4 = 1

abbrev pub atyp_ipv6 : ℕ
atyp_ipv6 = 2

abbrev pub atyp_none : ℕ
atyp_none = 255

-- The fields `TYPE`, `ADDR` and `PORT` of `Address`. A domain stands in `bytes` with its length
-- byte in front.
pub record Address : Type 0 where
  pub kind : ℕ
  pub bytes : Bytes
  pub port : ℕ

-- `WriteToBytes` and `WriteTo`: what either lays out at the front of its buffer.
unfoldable pub write_address : Address → Bytes
write_address c = if c.kind == atyp_none then c.kind ∷ [] else c.kind ∷ (c.bytes ++ put_u16 c.port)

pub bytes_len : Address → ℕ
bytes_len c = if c.kind == atyp_none then 1 else 1 + length c.bytes + 2

-- `NewAddress` for a domain name: the length is cut to a byte.
pub new_domain_address : Bytes → ℕ → Address
new_domain_address hostname port = record {
  kind = atyp_domain_name;
  bytes = length hostname % 256 ∷ hostname;
  port = port;
}

-- the end of `readAddressFromSlice`: the port at `off`
slice_port : Bytes → ℕ → Bytes → ℕ → Option (Address × ℕ)
slice_port msg typ addr off =
    if ltb (length (drop off msg)) 2
    then none
    else some (record { kind = typ; bytes = addr; port = uint16 (drop off msg) }, off + 2)

slice_domain : Bytes → ℕ → Bytes → Option (Address × ℕ)
slice_domain msg typ [] = none
slice_domain msg typ (addr_len ∷ r) =
    if ltb (suc (length r)) (1 + addr_len + 2)
    then none
    else slice_port msg typ (addr_len ∷ take addr_len r) (1 + (1 + addr_len))

pub read_address_from_slice : Bytes → Option (Address × ℕ)
read_address_from_slice [] = none
read_address_from_slice (typ ∷ r) =
    if typ == atyp_ipv4
    then (if ltb (length r) (4 + 2) then none else slice_port (typ ∷ r) typ (take 4 r) (1 + 4))
    else if typ == atyp_ipv6
    then (if ltb (length r) (16 + 2) then none else slice_port (typ ∷ r) typ (take 16 r) (1 + 16))
    else if typ == atyp_domain_name
    then slice_domain (typ ∷ r) typ r
    else if typ == atyp_none
    then some (record { kind = typ; bytes = []; port = 0 }, 1)
    else none

-- an IP address and its port, read as one block by `readAddressFromStream`
pub stream_ip : ℕ → ℕ → Bytes → Option (Address × Bytes)
stream_ip typ n r = do
  (rest, r') ← read_full (n + 2) r
  some (record { kind = typ; bytes = take n rest; port = uint16 (drop n rest) }, r')

pub stream_domain : ℕ → Bytes → Option (Address × Bytes)
stream_domain typ r = do
  (addr_len, r') ← read_byte r
  (rest, r'') ← read_full (addr_len + 2) r'
  some (
    record {
      kind = typ;
      bytes = addr_len ∷ take addr_len rest;
      port = uint16 (drop addr_len rest);
    },
    r'',
  )

pub read_address_from_stream : Bytes → Option (Address × Bytes)
read_address_from_stream [] = none
read_address_from_stream (typ ∷ r) =
    if typ == atyp_ipv4
    then stream_ip typ 4 r
    else if typ == atyp_ipv6
    then stream_ip typ 16 r
    else if typ == atyp_domain_name
    then stream_domain typ r
    else if typ == atyp_none
    then some (record { kind = typ; bytes = []; port = 0 }, r)
    else none

-- The outcome of `ReadAddress`: a Go panic is not an error value.
pub data Outcome {ℓ} (A : Type ℓ) : Type ℓ where
  done : A → Outcome A
  failed : Outcome A
  panicked : Outcome A

-- the port that `ReadAddress` reads last
read_port : ℕ → Bytes → Bytes → Outcome (Option Address × Bytes)
read_port typ addr r = elim (read_full 2 r) [
  | none ↦ failed
  | some (p, r') ↦ done (some (record { kind = typ; bytes = addr; port = uint16 p }), r')
]

-- `make([]byte, addrLen+1)` adds in a byte: a length of 255 makes an empty slice, and the write of
-- its first element panics.
read_domain : ℕ → Bytes → Outcome (Option Address × Bytes)
read_domain typ [] = failed
read_domain typ (addr_len ∷ r) =
    if (addr_len + 1) % 256 == 0 then panicked else elim (read_full ((addr_len + 1) % 256 - 1) r) [
      | none ↦ failed
      | some (d, r') ↦ read_port typ (addr_len ∷ d) r'
    ]

read_ip : ℕ → ℕ → Bytes → Outcome (Option Address × Bytes)
read_ip typ n r = elim (read_full n r) [ none ↦ failed | some (a, r') ↦ read_port typ a r' ]

-- For `AtypNone` the early return leaves the named result nil: no error and no address. A type
-- byte that is none of the four goes on to the port.
pub read_address : Bytes → Outcome (Option Address × Bytes)
read_address [] = failed
read_address (typ ∷ r) =
    if typ == atyp_ipv4
    then read_ip typ 4 r
    else if typ == atyp_ipv6
    then read_ip typ 16 r
    else if typ == atyp_domain_name
    then read_domain typ r
    else if typ == atyp_none
    then done (none, r)
    else read_port typ [] r
