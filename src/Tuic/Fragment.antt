-- ===== src/Tuic/Fragment.antt =====
-- protocol/tuic/frag.go: `fragmentPackets` and `deFragger`. The pool that a payload returns to is
-- left out, and `netip`, which is no code of the repository, is the parameter `addr_port`: the
-- address and port that an `Address` stands for, `none` where `netip` calls it not valid.
pub mod Cut
pub mod Reassemble
pub mod AnyOrder
use outbound.Prelude.{ltb, leb, ◌==◌, if◌then◌else◌, length, get_elem?, set, take, drop}
use outbound.Prelude.{replicate, ℕ, zero, suc, ◌+◌, ◌-◌, ◌/◌, ◌%◌, ◌^◌, min, Bool, true, false}
use outbound.Prelude.{◌&&◌, ◌||◌, not, Option, none, some, List, [], ◌∷◌, map}
use outbound.Wire.{Bytes}
use outbound.Fragment.Slots.{joined}
use outbound.Tuic.Address.{atyp_none, Address}
use outbound.Tuic.Packet.{Packet}

pub data Split : Type 0 where
  bad_size too_many : Split
  fragments : List Packet → Split

-- `addrCopy`: every fragment behind the first carries no address.
fragment_address : ℕ → Address → Address
fragment_address off a = if off == 0 then a else record a { kind = atyp_none }

-- The loop of `fragmentPackets`: `off` and the number `i` of fragments made so far, and the payload
-- behind `off`. A round takes a byte at least, so the payload's length is fuel enough.
split_loop : ℕ → ℕ → Packet → ℕ → ℕ → Bytes → List Packet
split_loop fuel frag_size packet off i [] = []
split_loop zero frag_size packet off i (b ∷ bs) = []
split_loop (suc fuel) frag_size packet off i (b ∷ bs) =
    let n = min (length (b ∷ bs)) frag_size in
    record packet {
      addr = fragment_address off packet.addr;
      frag_id = i % 256;
      size = n % 2 ^ 16;
      payload = take n (b ∷ bs);
    }
    ∷ split_loop fuel frag_size packet (off + n) (i + 1) (drop n (b ∷ bs))

-- A size of 0 stands for every size that is not positive.
pub fragment_packets : Packet → ℕ → Split
fragment_packets packet frag_size =
    if frag_size == 0
    then bad_size
    else let full = packet.payload in
      let count = (length full + frag_size - 1) / frag_size in
      if ltb 255 count
      then too_many
      else fragments
          (split_loop (length full) frag_size (record packet { frag_total = count % 256 }) 0 0 full)

pub record DeFragger (A : Type 0) : Type 0 where
  pub pkg_id : ℕ
  pub frags : List (Option Packet)
  pub count : ℕ
  pub total_len : ℕ
  pub first_addr_port : Option A
  pub has_first_frag : Bool
  pub last_update_nano : ℕ

module _ {A : Type 0} where
  -- `nowNano` is the clock that the caller read, and not 0, for which `touch` reads the clock itself.
  pub touch : DeFragger A → ℕ → DeFragger A
  touch d now = record d { last_update_nano = now }

  pub new_de_fragger : ℕ → DeFragger A
  new_de_fragger now = record {
    pkg_id = 0;
    frags = [];
    count = 0;
    total_len = 0;
    first_addr_port = none;
    has_first_frag = false;
    last_update_nano = now;
  }

  -- `now - last >= ttl` without the negative difference of a clock that was set back
  pub is_expired : DeFragger A → ℕ → ℕ → Bool
  is_expired d now ttl =
      ltb 0 ttl && (ltb 0 d.last_update_nano && leb (d.last_update_nano + ttl) now)

  pub release : DeFragger A → DeFragger A
  release d = record d { frags = map (λ _. none) d.frags; count = 0; total_len = 0 }

  pub assembled_len : DeFragger A → ℕ × Bool
  assembled_len d = (d.total_len, d.count == length d.frags && d.has_first_frag)

  -- `Feed` on the first fragment of a message
  pub start : DeFragger A → Packet → DeFragger A
  start d m =
      if d.count == 0
      then record d {
        pkg_id = m.pkt_id;
        frags = replicate m.frag_total none;
        count = 0;
        total_len = 0;
        first_addr_port = none;
        has_first_frag = false;
      }
      else d

  -- `Feed` puts a fragment into its empty slot; a filled one stays.
  pub store : DeFragger A → Packet → DeFragger A
  store d m = elim (get_elem? d.frags m.frag_id) [
    | some none ↦ record d {
      frags = set d.frags m.frag_id (some m);
      count = (d.count + 1) % 256;
      total_len = d.total_len + length m.payload;
    }
    | _ ↦ d
  ]

  -- `Feed` once the fragment is in: the message, if it is complete and fits `room` bytes
  pub finish : DeFragger A → ℕ → DeFragger A × Option (Bytes × Option A)
  finish d room =
      if (assembled_len d).1 && leb d.total_len room
      then (release d, some (joined (λ (m : Packet). m.payload) d.frags, d.first_addr_port))
      else (d, none)

-- `addrPort.IsValid() && d.firstAddrPort == addrPort`
pub same_addr_port : {A : Type 0} → (A → A → Bool) → Option A → Option A → Bool
same_addr_port eq (some a) (some b) = eq a b
same_addr_port eq none o = false
same_addr_port eq (some a) none = false

pub is_free : Option (Option Packet) → Bool
is_free (some none) = true
is_free (some (some p)) = false
is_free none = false

module _ {A : Type 0} (addr_port : Address → Option A) where
  unfoldable pub fragment_addr_port : Packet → Option A
  fragment_addr_port m = if m.addr.kind == atyp_none then none else addr_port m.addr

  -- `Feed` notes the address of fragment 0, if it is valid.
  pub note_first : DeFragger A → Packet → DeFragger A
  note_first d m =
      if m.frag_id == 0
      then elim (fragment_addr_port m) [
        | none ↦ d
        | some a ↦ record d { first_addr_port = some a; has_first_frag = true }
      ]
      else d

  -- `Feed` of a packet into a buffer of `room` bytes: the new state, and the bytes copied with the
  -- source address if a message is assembled.
  pub feed : DeFragger A → Packet → ℕ → ℕ → DeFragger A × Option (Bytes × Option A)
  feed d m room now =
      if leb m.frag_total 1
      then (touch d now, some (take room m.payload, addr_port m.addr))
      else if leb m.frag_total m.frag_id
      then (touch d now, none)
      else let d1 = start (touch d now) m in
        if length d1.frags == m.frag_total
        then finish (store (note_first d1 m) m) room
        else (d1, none)

  -- A fragment goes to a reassembler only if `matches` holds. `eq` is `==` on `netip.AddrPort`.
  unfoldable pub matches : (A → A → Bool) → DeFragger A → Packet → Bool
  matches eq d m =
      if leb m.frag_total 1
      then false
      else if d.count == 0
      then ltb m.frag_id m.frag_total
      else if not (d.pkg_id == m.pkt_id) || not (length d.frags == m.frag_total)
      then false
      else if leb m.frag_total m.frag_id
      then false
      else if m.frag_id == 0
      then (if d.has_first_frag
          then same_addr_port eq d.first_addr_port (fragment_addr_port m)
          else true)
      else is_free (get_elem? d.frags m.frag_id)

-- A sequence of packets fed to one reassembler, up to the first message that comes out.
module _ {A : Type 0} (addr_port : Address → Option A) (room now : ℕ) where
  unfoldable pub feed_all : DeFragger A → List Packet → Option (Bytes × Option A)
  feed_all d [] = none
  feed_all d (m ∷ ms) =
      let (d', out) = feed addr_port d m room now in
      let rest = feed_all d' ms in elim out [ none ↦ rest | some r ↦ some r ]
