-- ===== src/Tuic/Tests.antt =====
-- Concrete addresses, packets and fragments.
use outbound.Prelude.{◌==◌, if◌then◌else◌, length, replicate, length-replicate, All, ℕ, ◌≤◌, ◌<◌}
use outbound.Prelude.{◌≡◌, refl, true, false, Option, none, some, List, [], ◌∷◌, ◌++◌, map, arith}
use outbound.Wire.{Bytes, put_u16}
use outbound.Fragment.Slots.{all_content}
use outbound.Fragment.Chunks.{flat, chunk_count}
use outbound.Tuic.Address.{Address, read_address_from_stream, panicked, read_address}
use outbound.Tuic.Address.Laws.{IsAddress, ipv4}
use outbound.Tuic.Address.Reader.{read_address_panics}
use outbound.Tuic.Command.{Authenticate, Dissociate, Connect}
use outbound.Tuic.Packet.{Packet, write_packet, read_packet_from_message, read_packet_from_stream}
use outbound.Tuic.Packet.Laws.{packet_of, read_packet_agrees, IsPacket, parse-write_packet}
use outbound.Tuic.Fragment.{fragments, fragment_packets, DeFragger, fragment_addr_port, matches}
use outbound.Tuic.Fragment.{feed_all}
use outbound.Tuic.Fragment.Cut.{Numbered, fragment_packets_lem}
use outbound.Tuic.Fragment.Reassemble.{payload_of}
use outbound.Tuic.Fragment.AnyOrder.{feed_any_order}
use outbound.Tuic.Bucket.{feed_bucket}
use outbound.Tuic.Bucket.Isolation.{In, feed_isolates}

abbrev local_addr : Address
local_addr = record { kind = 1; bytes = 127 ∷ 0 ∷ 0 ∷ 1 ∷ []; port = 443 }

local_addr-IsAddress : IsAddress local_addr
local_addr-IsAddress = ipv4 (127 ∷ 0 ∷ 0 ∷ 1 ∷ []) 443 refl (omega arith)

abbrev piece : ℕ → ℕ → Address → Bytes → Packet
piece total id a payload = record {
  ver = 5;
  kind = 2;
  assoc_id = 1;
  pkt_id = 9;
  frag_total = total;
  frag_id = id;
  size = length payload;
  addr = a;
  payload = payload;
}

abbrev whole_packet : Packet
whole_packet = piece 1 0 local_addr (10 ∷ 11 ∷ 12 ∷ [])

whole_packet-IsPacket : IsPacket whole_packet
whole_packet-IsPacket = record {
  kind_is = refl;
  assoc_fits = omega arith;
  pkt_fits = omega arith;
  size_fits = omega arith;
  size_is = refl;
  addr_is = local_addr-IsAddress;
}

read_address_panics_example :
    (read_address (0 ∷ 255 ∷ ((replicate 255 97 ++ put_u16 443) ++ [])) ≡ panicked)
    × (read_address_from_stream (0 ∷ 255 ∷ ((replicate 255 97 ++ put_u16 443) ++ []))
        ≡ some (record { kind = 0; bytes = 255 ∷ replicate 255 97; port = 443 }, []))
read_address_panics_example =
    read_address_panics (replicate 255 97) 443 [] (length-replicate {A = ℕ} 255 97) (omega arith)

read_packet_agrees_example :
    packet_of (read_packet_from_stream (write_packet whole_packet))
    ≡ read_packet_from_message (write_packet whole_packet)
read_packet_agrees_example = read_packet_agrees (write_packet whole_packet)

parse-write_packet_example :
    read_packet_from_message (write_packet whole_packet ++ (8 ∷ [])) ≡ some whole_packet
parse-write_packet_example = parse-write_packet whole_packet (8 ∷ []) whole_packet-IsPacket

abbrev login : Authenticate
login = record {
  head = record { ver = 5; kind = 0 };
  uuid = replicate 16 1;
  token = replicate 32 2;
}

abbrev dial : Connect
dial = record { head = record { ver = 5; kind = 1 }; addr = local_addr }

abbrev leave : Dissociate
leave = record { head = record { ver = 5; kind = 3 }; assoc_id = 1 }

fragment_packets_lem_example :
    (ms : List Packet) × (fragment_packets whole_packet 2 ≡ fragments ms)
    × (length ms ≡ chunk_count 3 2)
    × (flat (map (λ (m : Packet). m.payload) ms) ≡ whole_packet.payload)
    × All (λ c. (0 < length c) × (length c ≤ 2)) (map (λ (m : Packet). m.payload) ms)
    × Numbered (record whole_packet { frag_total = length ms }) 0 ms
fragment_packets_lem_example =
    fragment_packets_lem whole_packet 2 (omega arith) (omega arith) (omega arith)

abbrev no_addr : Address
no_addr = record { kind = 255; bytes = []; port = 0 }

abbrev addr_port : Address → Option ℕ
addr_port a = if a.kind == 255 then none else some a.port

abbrev part_0 : Packet
part_0 = piece 2 0 local_addr (10 ∷ 11 ∷ [])

abbrev part_1 : Packet
part_1 = piece 2 1 no_addr (12 ∷ [])

abbrev empty_slots : DeFragger ℕ
empty_slots = record {
  pkg_id = 0;
  frags = [];
  count = 0;
  total_len = 0;
  first_addr_port = none;
  has_first_frag = false;
  last_update_nano = 0;
}

feed_any_order_example :
    feed_all addr_port 3 50 empty_slots (part_1 ∷ part_0 ∷ [])
    ≡ some (all_content payload_of (part_0 ∷ part_1 ∷ []), some 443)
unfolding fragment_addr_port
feed_any_order_example =
    feed_any_order addr_port (part_0 ∷ part_1 ∷ []) 443 3 50 empty_slots (part_1 ∷ part_0 ∷ [])
      (record { many = omega arith; few = omega arith; first = λ m e. ground (arith, e) }) refl
      (record { at = refl; total_is = refl }, (record { at = refl; total_is = refl }, tt))
      (((λ e. ground (arith, e)), tt), (tt, tt)) refl (omega arith)

-- the first fragment of packet 8, of two
abbrev other_packet : DeFragger ℕ
other_packet = record empty_slots {
  pkg_id = 8;
  frags = some part_0 ∷ none ∷ [];
  count = 1;
  total_len = 2;
  first_addr_port = some 443;
  has_first_frag = true;
}

apart : matches addr_port ◌==◌ other_packet part_1 ≡ false
unfolding matches
apart = refl

feed_isolates_example :
    In other_packet (feed_bucket addr_port ◌==◌ 100 50 (other_packet ∷ []) (some part_1)).0
feed_isolates_example =
    feed_isolates addr_port ◌==◌ 100 50 other_packet (other_packet ∷ []) part_1 (0, refl) apart
