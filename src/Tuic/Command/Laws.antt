-- ===== src/Tuic/Command/Laws.antt =====
-- Round trips and lengths of the commands of protocol/tuic/protocol.go.
use outbound.Prelude.{◌==◌, length, length-append, ◌+◌, ◌≡◌, refl, ◌≢◌, true, some, ◌++◌}
use outbound.Prelude.{append_assoc, arith}
use outbound.Wire.{Bytes, read_full-append}
use outbound.Tuic.Address.{write_address, done}
use outbound.Tuic.Address.Laws.{IsAddress, length-write_address}
use outbound.Tuic.Command.{authenticate_type, connect_type, write_head, read_head, Authenticate}
use outbound.Tuic.Command.{write_authenticate, read_authenticate_with_head, authenticate_len}
use outbound.Tuic.Command.{Dissociate, write_dissociate, dissociate_len, Connect, write_connect}
use outbound.Tuic.Command.{connect_len, read_connect_with_head}
use outbound.Tuic.Address.Reader.{NotLongest, read-write_any}

-- A client's Authenticate command is read back by the server: the head, then the rest of the
-- command, with a UUID of 16 and a token of 32 bytes, and what follows it is left.
pub read-write_authenticate :
    (c : Authenticate) (rest : Bytes)
    → c.head.kind ≡ authenticate_type
    → length c.uuid ≡ 16
    → length c.token ≡ 32
    → (read_head (write_authenticate c ++ rest) ≡ some (c.head, (c.uuid ++ c.token) ++ rest))
      × (read_authenticate_with_head c.head ((c.uuid ++ c.token) ++ rest) ≡ some (c, rest))
unfolding read_head write_authenticate write_head read_authenticate_with_head
read-write_authenticate c rest k u t = (
  refl,
  rw
      (
        append_assoc c.uuid c.token rest,
        read_full-append 16 c.uuid (c.token ++ rest) u,
        read_full-append 32 c.token rest t,
      )
      (ground arith),
)

-- `BytesLen` of Authenticate and Connect is what `WriteTo` writes; that of Dissociate is two more.
pub command_lengths :
    (a : Authenticate) (c : Connect) (d : Dissociate)
    → length a.uuid ≡ 16
    → length a.token ≡ 32
    → (length (write_authenticate a) ≡ authenticate_len a)
      × (length (write_connect c) ≡ connect_len c)
      × (length (write_dissociate d) + 2 ≡ dissociate_len d)
unfolding write_authenticate authenticate_len write_connect connect_len write_dissociate
    dissociate_len write_head
command_lengths a c d u t = (
  omega (arith, length-append a.uuid a.token),
  omega (arith, length-write_address c.addr),
  omega arith,
)

-- A client's Connect command is read back by the server, the head and then the address, if it has
-- an address, which is not a name of 255 bytes; what follows the command is left.
pub read-write_connect :
    (c : Connect) (rest : Bytes)
    → c.head.kind ≡ connect_type
    → IsAddress c.addr
    → c.addr.kind ≢ 255
    → NotLongest (write_address c.addr ++ rest)
    → (read_head (write_connect c ++ rest) ≡ some (c.head, write_address c.addr ++ rest))
      × (read_connect_with_head c.head (write_address c.addr ++ rest)
          ≡ done (c.head, some c.addr, rest))
unfolding read_head write_connect write_head read_connect_with_head
read-write_connect c rest k v a s =
    let test : (c.head.kind == connect_type) ≡ true = ground (arith, k) in
    (refl, rw (test, read-write_any rest v a s) refl)
