-- ===== src/Hysteria2/Tests.antt =====
-- A message of three bytes, cut in two.
use outbound.Hysteria2.PortUnion.{PortRange, before, insert_range, sort_ranges, merge, merge_all}
use outbound.Hysteria2.PortUnion.{normalize}
use outbound.Prelude.{length, All, ℕ, ◌+◌, ◌-◌, ◌≤◌, ◌<◌, ◌≡◌, refl, true, false, Option, none}
use outbound.Prelude.{some, List, [], ◌∷◌, map, arith}
use outbound.Fragment.Slots.{all_content}
use outbound.Fragment.Chunks.{flat, chunk_count}
use outbound.Hysteria2.Frag.{UdpMessage, frags_of, header_size, message_size, frag_udp_message}
use outbound.Hysteria2.Frag.{Defragger, own, held, payload_of, feed, feed_all}
use outbound.Hysteria2.Frag.Cut.{Numbered, frag_udp_message_lem}
use outbound.Hysteria2.Frag.Buffers.{count, accounted, feed_accounts}
use outbound.Hysteria2.Frag.Reassemble.{IsPart, defragger_any_order}

abbrev message : UdpMessage
message = record {
  session_id = 1;
  packet_id = 7;
  frag_id = 0;
  frag_count = 1;
  addr = 97 ∷ [];
  payload = 10 ∷ 11 ∷ 12 ∷ [];
  object = 0;
  pooled = false;
}

-- the length of a number below 64
abbrev short_varint : ℕ → ℕ
short_varint n = 1

frag_udp_message_lem_example :
    (fs : List UdpMessage) × (frag_udp_message short_varint message 12 ≡ frags_of fs)
    × (length fs ≡ chunk_count 3 (12 - header_size short_varint message))
    × (flat (map payload_of fs) ≡ message.payload)
    × All
        (λ c. (0 < length c) × (header_size short_varint message + length c ≤ 12))
        (map payload_of fs)
    × Numbered message (length fs) 0 fs
unfolding message_size header_size
frag_udp_message_lem_example =
    frag_udp_message_lem short_varint message 12 (omega arith) (omega arith) (omega arith)

abbrev first_part : UdpMessage
first_part = record message { frag_count = 2; payload = 10 ∷ 11 ∷ []; object = 1; pooled = true }

abbrev second_part : UdpMessage
second_part = record message {
  frag_id = 1;
  frag_count = 2;
  payload = 12 ∷ [];
  object = 2;
  pooled = true;
}

abbrev unused : Defragger
unused = record { pkt_id = 0; frags = []; count = 0; size = 0; closed = false }

abbrev one_held : Defragger
one_held = record {
  pkt_id = 7;
  frags = some first_part ∷ none ∷ [];
  count = 1;
  size = 2;
  closed = false;
}

defragger_any_order_example :
    (last : UdpMessage) × (feed_all unused (second_part ∷ first_part ∷ [])
      ≡ some (record last {
        frag_id = 0;
        frag_count = 1;
        payload = all_content payload_of (first_part ∷ second_part ∷ []);
        pooled = false;
      }))
    × IsPart 7 (first_part ∷ second_part ∷ []) last
defragger_any_order_example =
    defragger_any_order 7 (first_part ∷ second_part ∷ []) unused (second_part ∷ first_part ∷ [])
      (record { many = omega arith; few = omega arith }) refl refl
      (
        record { at = refl; count_is = refl; packet_is = refl },
        (record { at = refl; count_is = refl; packet_is = refl }, tt),
      )
      (((λ e. ground (arith, e)), tt), (tt, tt)) refl

feed_accounts_example :
    accounted 1 (feed one_held second_part)
    ≡ count 1 (held one_held.frags) + count 1 (own second_part)
feed_accounts_example =
    feed_accounts 1 one_held second_part (λ x e. ground (arith, e)) (omega arith)

-- a number below 64 is one byte
abbrev one_byte : ℕ → ℕ
one_byte n = 1

abbrev parse_one_byte : List ℕ → Option (ℕ × ℕ)
parse_one_byte [] = none
parse_one_byte (b ∷ r) = some (b, 1)

-- ports 7 to 9, 1 to 3, and 4
abbrev some_ports : List PortRange
some_ports =
    record { first = 7; last = 9 }
    ∷ record { first = 1; last = 3 }
    ∷ record { first = 4; last = 4 }
    ∷ []

merged_ports :
    normalize some_ports ≡ record { first = 1; last = 4 } ∷ record { first = 7; last = 9 } ∷ []
unfolding normalize sort_ranges insert_range before merge merge_all
merged_ports = refl
