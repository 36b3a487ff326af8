-- ===== src/Hysteria2/Message.antt =====
-- protocol/hysteria2/internal/protocol/proxy.go: the wire format of a `UDPMessage`. The functions
-- `Len` and `Parse` of `quicvarint`, of another module, are the parameters `varint_len` and
-- `varint_parse`; `Parse` answers the value and the number of bytes read.
pub mod Laws
use outbound.Prelude.{ltb, leb, ◌==◌, if◌then◌else◌, length, get_or, take, drop, ℕ, ◌+◌, ◌-◌, ◌/◌}
use outbound.Prelude.{◌%◌, ◌^◌, false, ◌||◌, Option, none, some, [], ◌∷◌, ◌++◌}
use outbound.Wire.{Bytes, put_u16, put_u32, uint16, uint32}
use outbound.Hysteria2.Frag.{UdpMessage, message_size}

abbrev pub max_message_length : ℕ
max_message_length = 2048

-- `varintPut`: the bytes written, `none` where it panics. The two bits that `|` sets are free.
unfoldable pub varint_put : ℕ → Option Bytes
varint_put i =
    if leb i 63
    then some (i % 256 ∷ [])
    else if leb i 16383
    then some ((i / 256 % 256 + 64) ∷ i % 256 ∷ [])
    else if leb i 1073741823
    then some ((i / 2 ^ 24 % 256 + 128) ∷ i / 2 ^ 16 % 256 ∷ i / 2 ^ 8 % 256 ∷ i % 256 ∷ [])
    else if leb i 4611686018427387903
    then some (
        (i / 2 ^ 56 % 256 + 192)
        ∷ i / 2 ^ 48 % 256
        ∷ i / 2 ^ 40 % 256
        ∷ (put_u32 (i / 2 ^ 8) ++ (i % 256 ∷ [])))
    else none

-- `too_small` is the result -1; `written` has the bytes at the front of the buffer.
pub data Serialized : Type 0 where
  too_small crashed : Serialized
  written : Bytes → Serialized

-- the fixed header of eight bytes
unfoldable pub header : UdpMessage → Bytes
header m = put_u32 m.session_id ++ (put_u16 m.packet_id ++ (m.frag_id ∷ m.frag_count ∷ []))

-- `Serialize` into a buffer of `room` bytes; each `copy` stops at the end of the buffer.
unfoldable pub serialize : (ℕ → ℕ) → ℕ → UdpMessage → Serialized
serialize varint_len room m =
    if ltb room (message_size varint_len m) then too_small else elim (varint_put (length m.addr)) [
      | none ↦ crashed
      | some v ↦
          if ltb room (8 + length v)
          then crashed
          else written ((header m ++ v) ++ take (room - (8 + length v)) (m.addr ++ m.payload))
    ]

-- The fixed fields that `ParseUDPMessage` reads; the new message owns no buffer.
unfoldable pub parsed : ℕ → Bytes → Bytes → Bytes → UdpMessage
parsed object msg addr payload = record {
  session_id = uint32 msg;
  packet_id = uint16 (drop 4 msg);
  frag_id = get_or msg 6 0;
  frag_count = get_or msg 7 0;
  addr = addr;
  payload = payload;
  object = object;
  pooled = false;
}

-- `ParseUDPMessage`, which allocates the message `object`.
unfoldable pub parse_udp_message : (Bytes → Option (ℕ × ℕ)) → ℕ → Bytes → Option UdpMessage
parse_udp_message varint_parse object msg =
    if ltb (length msg) 8 then none else elim (varint_parse (drop 8 msg)) [
      | none ↦ none
      | some (l_addr, n) ↦
          let body = drop (8 + n) msg in
          if l_addr == 0 || ltb max_message_length l_addr
          then none
          else if leb (length body) l_addr
          then none
          else some (parsed object msg (take l_addr body) (drop l_addr body))
    ]
