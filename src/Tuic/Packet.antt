-- ===== src/Tuic/Packet.antt =====
-- The Packet command: `Packet` and its writer of protocol/tuic/protocol.go, and the two parsers of
-- protocol/tuic/packet_parse.go. The pool that owns the payload is left out.
pub mod Laws
use outbound.Prelude.{ltb, ◌==◌, if◌then◌else◌, length, get_or, take, drop, ℕ, ◌+◌, Option, none}
use outbound.Prelude.{some, [], ◌∷◌, ◌++◌}
use outbound.Wire.{◌>>=◌, Bytes, put_u16, uint16, read_full}
use outbound.Tuic.Address.{Address, write_address, bytes_len, read_address_from_slice}
use outbound.Tuic.Address.{read_address_from_stream}
use outbound.Tuic.Command.{packet_type, write_head, head_len}

pub record Packet : Type 0 where
  pub ver : ℕ
  pub kind : ℕ
  pub assoc_id : ℕ
  pub pkt_id : ℕ
  pub frag_total : ℕ
  pub frag_id : ℕ
  pub size : ℕ
  pub addr : Address
  pub payload : Bytes

-- what `WriteToBytes` lays out at the front of its buffer
pub write_packet : Packet → Bytes
unfolding write_head
write_packet c =
    write_head (record { ver = c.ver; kind = c.kind })
    ++ (put_u16 c.assoc_id
        ++ (put_u16 c.pkt_id
            ++ (c.frag_total
                ∷ c.frag_id
                ∷ (put_u16 c.size ++ (write_address c.addr ++ c.payload)))))

pub packet_len : Packet → ℕ
packet_len c = head_len + 8 + bytes_len c.addr + length c.payload

abbrev byte_at : Bytes → ℕ → ℕ
byte_at msg i = get_or msg i 0

-- the fields of a fixed part of ten bytes
fixed_part : Bytes → Address → Bytes → Packet
fixed_part msg addr payload = record {
  ver = byte_at msg 0;
  kind = packet_type;
  assoc_id = uint16 (drop 2 msg);
  pkt_id = uint16 (drop 4 msg);
  frag_total = byte_at msg 6;
  frag_id = byte_at msg 7;
  size = uint16 (drop 8 msg);
  addr = addr;
  payload = payload;
}

-- the payload of `size` bytes at `off`
message_payload : Bytes → ℕ → ℕ → Option Bytes
message_payload msg size off =
    if ltb 0 size
    then (if ltb (length (drop off msg)) size then none else some (take size (drop off msg)))
    else some []

pub read_packet_from_message : Bytes → Option Packet
read_packet_from_message msg =
    if ltb (length msg) 10
    then none
    else if byte_at msg 1 == packet_type
    then (do
      (addr, n) ← read_address_from_slice (drop 10 msg)
      payload ← message_payload msg (uint16 (drop 8 msg)) (10 + n)
      some (fixed_part msg addr payload))
    else none

stream_payload : ℕ → Bytes → Option (Bytes × Bytes)
stream_payload size r = if ltb 0 size then read_full size r else some ([], r)

-- the end of `readPacketFromStream`, behind the ten bytes `head`
stream_rest : Bytes → Bytes → Option (Packet × Bytes)
stream_rest head r =
    if byte_at head 1 == packet_type
    then (do
      (addr, r') ← read_address_from_stream r
      (payload, r'') ← stream_payload (uint16 (drop 8 head)) r'
      some (fixed_part head addr payload, r''))
    else none

pub read_packet_from_stream : Bytes → Option (Packet × Bytes)
read_packet_from_stream r = do (head, r') ← read_full 10 r; stream_rest head r'
