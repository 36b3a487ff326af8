-- ===== src/Tuic/Command.antt =====
-- The commands of protocol/tuic/protocol.go other than Packet: their writers, readers and lengths.
pub mod Laws
use outbound.Prelude.{◌==◌, if◌then◌else◌, ℕ, ◌+◌, Option, none, some, [], ◌∷◌, ◌++◌}
use outbound.Wire.{◌>>=◌, Bytes, put_u16, read_full, read_byte}
use outbound.Tuic.Address.{Address, write_address, bytes_len, Outcome, done, failed, panicked}
use outbound.Tuic.Address.{read_address}

abbrev pub authenticate_type : ℕ
authenticate_type = 0

abbrev pub connect_type : ℕ
connect_type = 1

abbrev pub packet_type : ℕ
packet_type = 2

abbrev pub dissociate_type : ℕ
dissociate_type = 3

pub record CommandHead : Type 0 where
  pub ver : ℕ
  pub kind : ℕ

unfoldable pub write_head : CommandHead → Bytes
write_head c = c.ver ∷ c.kind ∷ []

pub read_head : Bytes → Option (CommandHead × Bytes)
read_head r = do
  (ver, r') ← read_byte r
  (kind, r'') ← read_byte r'
  some (record { ver = ver; kind = kind }, r'')

abbrev pub head_len : ℕ
head_len = 2

pub record Authenticate : Type 0 where
  pub head : CommandHead
  pub uuid : Bytes
  pub token : Bytes

pub write_authenticate : Authenticate → Bytes
write_authenticate c = write_head c.head ++ (c.uuid ++ c.token)

pub read_authenticate_with_head : CommandHead → Bytes → Option (Authenticate × Bytes)
read_authenticate_with_head head r =
    if head.kind == authenticate_type
    then (do
      (uuid, r') ← read_full 16 r
      (token, r'') ← read_full 32 r'
      some (record { head = head; uuid = uuid; token = token }, r''))
    else none

pub authenticate_len : Authenticate → ℕ
authenticate_len c = head_len + 16 + 32

pub record Dissociate : Type 0 where
  pub head : CommandHead
  pub assoc_id : ℕ

pub write_dissociate : Dissociate → Bytes
write_dissociate c = write_head c.head ++ put_u16 c.assoc_id

pub dissociate_len : Dissociate → ℕ
dissociate_len c = head_len + 4

pub record Connect : Type 0 where
  pub head : CommandHead
  pub addr : Address

pub write_connect : Connect → Bytes
write_connect c = write_head c.head ++ write_address c.addr

pub connect_len : Connect → ℕ
connect_len c = head_len + bytes_len c.addr

-- `ReadConnectWithHead`: the fields of the command, without an address where `ReadAddress` has
-- none to return.
pub read_connect_with_head : CommandHead → Bytes → Outcome (CommandHead × Option Address × Bytes)
read_connect_with_head head r =
    if head.kind == connect_type
    then elim (read_address r) [
      | done (a, r') ↦ done (head, a, r')
      | failed ↦ failed
      | panicked ↦ panicked
    ]
    else failed
