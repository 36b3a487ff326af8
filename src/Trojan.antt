-- ===== src/Trojan.antt =====
-- protocol/trojanc/addr.go: the address in front of a trojan request or packet. A buffer is the list
-- of its bytes; a write past its end panics, which is `none`. `net` is the parameters `to4`, `to16`
-- and `ip_string`: the 4 or 16 bytes of an address in text, `none` where there are none, and back.
pub mod Laws
pub mod Overwrite
mod Tests
use outbound.Prelude.{ltb, ◌==◌, if◌then◌else◌, length, get_or, take, drop, ℕ, ◌+◌, ◌-◌, ◌%◌}
use outbound.Prelude.{Option, none, some, [], ◌∷◌, ◌++◌}
use outbound.Wire.{Bytes, ◌>>=◌, put_u16, uint16, read_full}

pub data MetadataType : Type 0 where
  type_ipv4 type_msg type_domain type_ipv6 type_invalid : MetadataType

abbrev pub parse_metadata_type : ℕ → MetadataType
parse_metadata_type t =
    if t == 1
    then type_ipv4
    else if t == 2
    then type_msg
    else if t == 3
    then type_domain
    else if t == 4
    then type_ipv6
    else type_invalid

abbrev pub metadata_type_to_byte : MetadataType → ℕ
metadata_type_to_byte type_ipv4 = 1
metadata_type_to_byte type_msg = 2
metadata_type_to_byte type_domain = 3
metadata_type_to_byte type_ipv6 = 4
metadata_type_to_byte type_invalid = 0

pub record Metadata : Type 0 where
  pub kind : MetadataType
  pub hostname : Bytes
  pub port : ℕ
  pub cmd : ℕ

-- `Len`, by the type
abbrev pub metadata_len : MetadataType → Metadata → ℕ
metadata_len type_ipv4 m = 7
metadata_len type_ipv6 m = 19
metadata_len type_domain m = 4 + length m.hostname
metadata_len type_msg m = 2
metadata_len type_invalid m = 0

unfoldable pub put_at : ℕ → Bytes → Bytes → Option Bytes
put_at off xs dst =
    if ltb (length dst) (off + length xs)
    then none
    else some (take off dst ++ (xs ++ drop (off + length xs) dst))

-- `copy(dst[off:], xs)`, which stops at the end of `dst`
unfoldable pub copy_into : ℕ → Bytes → Bytes → Option Bytes
copy_into off xs dst = put_at off (take (length dst - off) xs) dst

-- the two address branches of `PackTo`, with `n` bytes of address
unfoldable pub pack_ip : ℕ → Option Bytes → ℕ → Bytes → Option (Bytes × ℕ)
pack_ip n ip port dst = do
  a ← ip
  d ← copy_into 1 (take n a) dst
  e ← put_at (1 + n) (put_u16 port) d
  some (e, 3 + n)

-- the domain branch: `dst[1]` and the sum with it are bytes; the length that is returned reads
-- `dst[1]` again, after the port is written
unfoldable pub pack_domain : Bytes → ℕ → Bytes → Option (Bytes × ℕ)
pack_domain hostname port dst =
    let l = length hostname % 256 in
    do
      c ← put_at 1 (l ∷ []) dst
      d ← copy_into 2 hostname c
      e ← put_at ((2 + l) % 256) (put_u16 port) d
      some (e, 4 + get_or e 1 0)

module _ (to4 to16 : Bytes → Option Bytes) where
  unfoldable pub pack_body : MetadataType → Metadata → Bytes → Option (Bytes × ℕ)
  pack_body type_ipv4 m dst = pack_ip 4 (to4 m.hostname) m.port dst
  pack_body type_ipv6 m dst = pack_ip 16 (to16 m.hostname) m.port dst
  pack_body type_domain m dst = pack_domain m.hostname m.port dst
  pack_body type_msg m dst = do d ← put_at 1 (m.cmd % 256 ∷ []) dst; some (d, 2)
  pack_body type_invalid m dst = some (dst, 0)

  -- `PackTo`, with the buffer after it
  unfoldable pub pack_to : Metadata → Bytes → Option (Bytes × ℕ)
  pack_to m dst = do d ← put_at 0 (metadata_type_to_byte m.kind ∷ []) dst; pack_body m.kind m d

-- `more` further bytes behind the first two, `head`, and what the buffer then holds
unfoldable pub read_more : ℕ → Bytes → Bytes → Option (Bytes × Bytes)
read_more more head r = do (x, t) ← read_full more r; some (head ++ x, t)

unfoldable pub unpack_domain : ℕ → Metadata → Bytes → Bytes → Option (Metadata × ℕ × Bytes)
unpack_domain l m head r = do
  (buf, t) ← read_more (2 + l) head r
  some (record m { hostname = take l (drop 2 buf); port = uint16 (drop (2 + l) buf) }, 4 + l, t)

module _ (ip_string : Bytes → Bytes) where
  unfoldable pub unpack_ip : ℕ → Metadata → Bytes → Bytes → Option (Metadata × ℕ × Bytes)
  unpack_ip n m head r = do
    (buf, t) ← read_more (n + 1) head r
    some (
      record m { hostname = ip_string (take n (drop 1 buf)); port = uint16 (drop (1 + n) buf) },
      3 + n,
      t,
    )

  -- the branches of `Unpack`
  unfoldable pub unpack_body :
      MetadataType → Metadata → Bytes → Bytes → Option (Metadata × ℕ × Bytes)
  unpack_body type_ipv4 m head r = unpack_ip 4 m head r
  unpack_body type_ipv6 m head r = unpack_ip 16 m head r
  unpack_body type_domain m head r = unpack_domain (get_or head 1 0) m head r
  unpack_body type_msg m head r = some (record m { cmd = get_or head 1 0 }, 2, r)
  unpack_body type_invalid m head r = none

  -- `Unpack` into `m`: the new fields, the number of bytes, and what is left of the stream; the
  -- fields after an error are left out
  unfoldable pub unpack : Metadata → Bytes → Option (Metadata × ℕ × Bytes)
  unpack m r = do
    (head, s) ← read_full 2 r
    let typ = parse_metadata_type (get_or head 0 0)
    unpack_body typ (record m { kind = typ }) head s
