-- ===== src/Hysteria2/Frag.antt =====
-- protocol/hysteria2/internal/frag/frag.go, with `UDPMessage` of internal/protocol/proxy.go. A
-- message is a pointer: `object` is its identity, and `pooled` says whether its `Release` is set.
-- A call of `Release` is the object's number in the list of released buffers that `feed` returns.
-- `quicvarint.Len`, of another module, is the parameter `varint_len`.
pub mod Cut
pub mod Reassemble
pub mod Buffers
use outbound.Prelude.{ltb, leb, ◌==◌, if◌then◌else◌, length, get_elem?, set, take, drop}
use outbound.Prelude.{replicate, ℕ, zero, suc, ◌+◌, ◌-◌, ◌/◌, ◌%◌, min, Bool, true, false, ◌||◌}
use outbound.Prelude.{not, Option, none, some, List, [], ◌∷◌, ◌++◌}
use outbound.Wire.{Bytes}
use outbound.Fragment.Slots.{joined}

pub record UdpMessage : Type 0 where
  pub session_id : ℕ
  pub packet_id : ℕ
  pub frag_id : ℕ
  pub frag_count : ℕ
  pub addr : Bytes
  pub payload : Bytes
  pub object : ℕ
  pub pooled : Bool

pub data FragResult : Type 0 where
  no_room too_many : FragResult
  frags_of : List UdpMessage → FragResult

-- The loop of `FragUDPMessage` over the payload behind `off`; the index is a `uint8`. A round takes
-- a byte at least, so the payload's length is fuel enough.
frag_loop : ℕ → ℕ → UdpMessage → ℕ → ℕ → Bytes → List UdpMessage
frag_loop fuel max_payload m count id [] = []
frag_loop zero max_payload m count id (b ∷ bs) = []
frag_loop (suc fuel) max_payload m count id (b ∷ bs) =
    let n = min (length (b ∷ bs)) max_payload in
    record m { frag_id = id; frag_count = count % 256; payload = take n (b ∷ bs) }
    ∷ frag_loop fuel max_payload m count ((id + 1) % 256) (drop n (b ∷ bs))

module _ (varint_len : ℕ → ℕ) where
  unfoldable pub header_size : UdpMessage → ℕ
  header_size m = 4 + 2 + 1 + 1 + varint_len (length m.addr) + length m.addr

  unfoldable pub message_size : UdpMessage → ℕ
  unfolding header_size
  message_size m = header_size m + length m.payload

  pub frag_udp_message : UdpMessage → ℕ → FragResult
  frag_udp_message m max_size =
      if leb (message_size m) max_size
      then frags_of (m ∷ [])
      else if leb max_size (header_size m)
      then no_room
      else let max_payload = max_size - header_size m in
        let count = (length m.payload + max_payload - 1) / max_payload in
        if ltb 255 count
        then too_many
        else frags_of (frag_loop (length m.payload) max_payload m count 0 m.payload)

pub record Defragger : Type 0 where
  pub pkt_id : ℕ
  pub frags : List (Option UdpMessage)
  pub count : ℕ
  pub size : ℕ
  pub closed : Bool

-- the buffer that a message owns
abbrev pub own : UdpMessage → List ℕ
own m = if m.pooled then m.object ∷ [] else []

-- the buffers of the held fragments, as `releaseHeld` goes through them
abbrev pub held : List (Option UdpMessage) → List ℕ
held [] = []
held (none ∷ s) = held s
held (some m ∷ s) = own m ++ held s

abbrev pub payload_of : UdpMessage → Bytes
payload_of m = m.payload

pub release_held : Defragger → Defragger × List ℕ
release_held d = (record d { frags = []; count = 0; size = 0 }, held d.frags)

pub close : Defragger → Defragger × List ℕ
unfolding release_held
close d = release_held (record d { closed = true })

-- The state, the message that comes out and the buffers released.
abbrev pub Fed : Type 0
Fed = Defragger × Option UdpMessage × List ℕ

-- `Feed` on the first fragment of another message
pub restart : Defragger → UdpMessage → Fed
restart d m = (
  record d {
    pkt_id = m.packet_id;
    frags = set (replicate m.frag_count none) m.frag_id (some m);
    count = 1;
    size = length m.payload;
  },
  none,
  (release_held d).1,
)

-- `Feed` with a fragment for an empty slot: a complete message takes the place of `m`.
pub fill : Defragger → UdpMessage → Fed
fill d m =
    let d1 : Defragger = record d {
      frags = set d.frags m.frag_id (some m);
      count = (d.count + 1) % 256;
      size = d.size + length m.payload;
    } in
    if d1.count == length d1.frags
    then (
      (release_held d1).0,
      some (record m {
        payload = take d1.size (joined payload_of d1.frags);
        frag_id = 0;
        frag_count = 1;
        pooled = false;
      }),
      (release_held d1).1,
    )
    else (d1, none, [])

-- `Feed` with a fragment whose slot is filled
pub duplicate : Defragger → UdpMessage → UdpMessage → Fed
duplicate d x m = (d, none, if x.object == m.object then [] else own m)

pub feed : Defragger → UdpMessage → Fed
feed d m =
    if d.closed
    then (d, none, own m)
    else if leb m.frag_count 1
    then (d, some m, [])
    else if leb m.frag_count m.frag_id
    then (d, none, own m)
    else if not (m.packet_id == d.pkt_id) || not (m.frag_count == length d.frags % 256)
    then restart d m
    else elim (get_elem? d.frags m.frag_id) [
      | none ↦ (d, none, [])
      | some none ↦ fill d m
      | some (some x) ↦ duplicate d x m
    ]

-- A sequence of messages fed to one defragger, up to the first one that comes out.
unfoldable pub feed_all : Defragger → List UdpMessage → Option UdpMessage
feed_all d [] = none
feed_all d (m ∷ ms) =
    let (d', out, released) = feed d m in
    let rest = feed_all d' ms in elim out [ none ↦ rest | some r ↦ some r ]
