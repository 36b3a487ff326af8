-- ===== src/Tuic/Packet/Laws.antt =====
-- The two packet parsers agree, and read back what `WriteToBytes` writes.
use outbound.Prelude.{ltb, ◌==◌, if◌then◌else◌, Bool-cases, Option-cases, length, length-append}
use outbound.Prelude.{take, drop, drop-take, drop-drop, ℕ, zero, suc, ◌+◌, ◌<◌, ◌≡◌, refl, sym}
use outbound.Prelude.{ap, ◌∙◌, inl, inr, true, false, Option, none, some, [], ◌∷◌, ◌++◌}
use outbound.Prelude.{append_assoc, arith}
use outbound.Wire.{◌>>=◌, Bytes, IsU16, put_u16, uint16, read_full-append, read_full-short}
use outbound.Wire.{read_full-enough}
use outbound.Tuic.Address.{Address, write_address, read_address_from_slice}
use outbound.Tuic.Address.Laws.{IsAddress, read_address_agrees, read-write_address}
use outbound.Tuic.Address.Laws.{length-write_address}
use outbound.Tuic.Command.{packet_type}
use outbound.Tuic.Packet.{Packet, write_packet, packet_len, byte_at, fixed_part, message_payload}
use outbound.Tuic.Packet.{read_packet_from_message, stream_payload, stream_rest}
use outbound.Tuic.Packet.{read_packet_from_stream}

byte_at-take : (n i : ℕ) (r : Bytes) → i < n → byte_at (take n r) i ≡ byte_at r i
byte_at-take zero i r h = absurd (omega arith)
byte_at-take (suc n) i [] h = refl
byte_at-take (suc n) zero (x ∷ r) h = refl
byte_at-take (suc n) (suc i) (x ∷ r) h = byte_at-take n i r (omega arith)

uint16-take_ge : (n : ℕ) (r : Bytes) → uint16 (take (suc (suc n)) r) ≡ uint16 r
uint16-take_ge n [] = refl
uint16-take_ge n (a ∷ []) = refl
uint16-take_ge n (a ∷ b ∷ r) = refl

field_at : (i n : ℕ) (r : Bytes) → uint16 (drop i (take (i + suc (suc n)) r)) ≡ uint16 (drop i r)
field_at i n r = rw (drop-take i (suc (suc n)) r) (uint16-take_ge n (drop i r))

fixed_part-take :
    (msg : Bytes) (addr : Address) (payload : Bytes)
    → fixed_part (take 10 msg) addr payload ≡ fixed_part msg addr payload
unfolding fixed_part
fixed_part-take msg addr payload = cc (
  byte_at-take 10 0 msg (omega arith),
  byte_at-take 10 6 msg (omega arith),
  byte_at-take 10 7 msg (omega arith),
  field_at 2 6 msg,
  field_at 4 4 msg,
  field_at 8 0 msg,
)

-- The packet that a stream parse answers, without the rest of the stream.
abbrev pub packet_of : Option (Packet × Bytes) → Option Packet
packet_of none = none
packet_of (some (p, r)) = some p

payload_agrees :
    (msg head : Bytes) (addr : Address) (size off : ℕ)
    → packet_of (stream_payload size (drop off msg) >>= λ d. some (fixed_part head addr d.0, d.1))
      ≡ (message_payload msg size off >>= λ d. some (fixed_part head addr d))
unfolding stream_payload message_payload
payload_agrees msg head addr size off = elim (Bool-cases (ltb (length (drop off msg)) size)) [
  | inl e ↦ ground (arith, read_full-short size (drop off msg) (ground arith))
  | inr e ↦ ground (arith, read_full-enough size (drop off msg) (ground arith))
]

stream_rest-take : (msg r : Bytes) → stream_rest (take 10 msg) r ≡ stream_rest msg r
unfolding stream_rest
stream_rest-take msg r =
    rw (byte_at-take 10 1 msg (omega arith), field_at 8 0 msg) (simp (fixed_part-take msg))

message_rest :
    (msg : Bytes)
    → packet_of (stream_rest msg (drop 10 msg)) ≡ (
        if byte_at msg 1 == packet_type
        then read_address_from_slice (drop 10 msg) >>= (λ a.
          message_payload msg (uint16 (drop 8 msg)) (10 + a.1) >>= λ d. some (fixed_part msg a.0 d))
        else none)
unfolding stream_rest
message_rest msg = elim (Bool-cases (byte_at msg 1 == packet_type)) [
  | inl e ↦ elim (Option-cases (read_address_from_slice (drop 10 msg))) [
    | inl f ↦ rw (e, read_address_agrees (drop 10 msg), f)
    | inr ((a, n), f) ↦
        rw (e, read_address_agrees (drop 10 msg), f, drop-drop n 10 msg)
          (payload_agrees msg msg a (uint16 (drop 8 msg)) (10 + n))
  ]
  | inr e ↦ rw e
]

-- The message parser and the stream parser accept the same bytes as a packet, with the same fields.
pub read_packet_agrees :
    (msg : Bytes) → packet_of (read_packet_from_stream msg) ≡ read_packet_from_message msg
unfolding read_packet_from_stream read_packet_from_message
read_packet_agrees msg = elim (Bool-cases (ltb (length msg) 10)) [
  | inl e ↦ rw (e, read_full-short 10 msg (ground arith))
  | inr e ↦
      rw (e, read_full-enough 10 msg (ground arith), stream_rest-take msg (drop 10 msg))
        (message_rest msg)
]

-- A packet that a sender builds: the fixed fields fit their widths, `size` is the payload's length.
pub record IsPacket (c : Packet) : Type 0 where
  pub kind_is : c.kind ≡ packet_type
  pub assoc_fits : IsU16 c.assoc_id
  pub pkt_fits : IsU16 c.pkt_id
  pub size_fits : IsU16 c.size
  pub size_is : length c.payload ≡ c.size
  pub addr_is : IsAddress c.addr

stream_payload-append :
    (payload rest : Bytes) (size : ℕ)
    → length payload ≡ size
    → stream_payload size (payload ++ rest) ≡ some (payload, rest)
unfolding stream_payload
stream_payload-append [] rest size h =
    let none_left : ltb 0 size ≡ false = ground arith in rw none_left
stream_payload-append (x ∷ xs) rest size h =
    let some_left : ltb 0 size ≡ true = ground arith in
    rw some_left (read_full-append size (x ∷ xs) rest h)

abbrev fixed_bytes : Packet → Bytes
fixed_bytes c =
    c.ver
    ∷ c.kind
    ∷ (put_u16 c.assoc_id ++ (put_u16 c.pkt_id ++ (c.frag_total ∷ c.frag_id ∷ put_u16 c.size)))

fixed_part-bytes : (c : Packet) → IsPacket c → fixed_part (fixed_bytes c) c.addr c.payload ≡ c
unfolding fixed_part
fixed_part-bytes c v = ground arith

-- What `WriteToBytes` lays out, `readPacketFromStream` reads back, and leaves what follows.
pub read-write_packet :
    (c : Packet) (rest : Bytes)
    → IsPacket c
    → read_packet_from_stream (write_packet c ++ rest) ≡ some (c, rest)
unfolding read_packet_from_stream write_packet stream_rest
read-write_packet c rest v =
    let tail : Bytes = write_address c.addr ++ c.payload in
    let test : (c.kind == packet_type) ≡ true = ground (arith, v.kind_is) in
    let n : uint16 (put_u16 c.size) ≡ c.size = omega (arith, v.size_fits) in
    rw (
      read_full-append 10 (fixed_bytes c) (tail ++ rest) refl,
      append_assoc (write_address c.addr) c.payload rest,
      test,
      read-write_address (c.payload ++ rest) v.addr_is,
      n,
      stream_payload-append c.payload rest c.size v.size_is,
      fixed_part-bytes c v,
    )

-- A datagram that holds a written packet, with anything behind it, is parsed as that packet.
pub parse-write_packet :
    (c : Packet) (rest : Bytes)
    → IsPacket c
    → read_packet_from_message (write_packet c ++ rest) ≡ some c
parse-write_packet c rest v =
    sym (read_packet_agrees (write_packet c ++ rest)) ∙ ap packet_of (read-write_packet c rest v)

-- `BytesLen` is the number of bytes that `WriteToBytes` lays out.
pub length-write_packet : (c : Packet) → length (write_packet c) ≡ packet_len c
unfolding write_packet packet_len
length-write_packet c =
    omega (arith, length-append (write_address c.addr) c.payload, length-write_address c.addr)
