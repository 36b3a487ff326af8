-- ===== src/Hysteria2/Frag/Cut.antt =====
-- `FragUDPMessage` cuts a message that is too long into fragments that carry all of it.
use outbound.Prelude.{length, take, drop, length-map, All, All-imp, ℕ, zero, suc, ◌+◌, ◌-◌, ◌%◌}
use outbound.Prelude.{◌≤◌, ◌<◌, min, ◌≡◌, refl, sym, ap, ◌∙◌, List, [], ◌∷◌, map, arith}
use outbound.Wire.{Bytes}
use outbound.Fragment.Chunks.{chunks, flat, chunk_count, flat-chunks, chunks-All, length-chunks}
use outbound.Hysteria2.Frag.{UdpMessage, frags_of, frag_loop, header_size, message_size}
use outbound.Hysteria2.Frag.{frag_udp_message, payload_of}
use mathlib.Core.Path.{subst}

-- What fragment `i` of `count` carries beside its payload.
pub record IsFragment (m : UdpMessage) (count i : ℕ) (f : UdpMessage) : Type 0 where
  pub id_is : f.frag_id ≡ i
  pub count_is : f.frag_count ≡ count
  pub packet_is : f.packet_id ≡ m.packet_id
  pub session_is : f.session_id ≡ m.session_id
  pub addr_is : f.addr ≡ m.addr

abbrev pub Numbered : UdpMessage → ℕ → ℕ → List UdpMessage → Type 0
Numbered m count i [] = Unit
Numbered m count i (f ∷ fs) = IsFragment m count i f × Numbered m count (suc i) fs

module _ (size : ℕ) (m : UdpMessage) (count : ℕ) where
  payload-frag_loop :
      (fuel id : ℕ) (xs : Bytes)
      → map payload_of (frag_loop fuel size m count id xs) ≡ chunks fuel size xs
  unfolding frag_loop chunks
  payload-frag_loop fuel id [] = refl
  payload-frag_loop zero id (b ∷ bs) = refl
  payload-frag_loop (suc fuel) id (b ∷ bs) =
      ap (λ t. take (min (length (b ∷ bs)) size) (b ∷ bs) ∷ t)
        (payload-frag_loop fuel ((id + 1) % 256) (drop (min (length (b ∷ bs)) size) (b ∷ bs)))

  length-frag_loop :
      (fuel id : ℕ) (xs : Bytes)
      → length (frag_loop fuel size m count id xs) ≡ length (chunks fuel size xs)
  length-frag_loop fuel id xs =
      sym (length-map (frag_loop fuel size m count id xs) payload_of)
      ∙ ap length (payload-frag_loop fuel id xs)

  -- The index wraps at 256, behind the last fragment at the earliest.
  Numbered-frag_loop :
      (fuel i : ℕ) (xs : Bytes)
      → i + length (frag_loop fuel size m count (i % 256) xs) < 256
      → Numbered m (count % 256) i (frag_loop fuel size m count (i % 256) xs)
  unfolding frag_loop
  Numbered-frag_loop fuel i [] k = tt
  Numbered-frag_loop zero i (b ∷ bs) k = tt
  Numbered-frag_loop (suc fuel) i (b ∷ bs) k =
      let n : ℕ = min (length (b ∷ bs)) size in
      let next : (i % 256 + 1) % 256 ≡ suc i % 256 = omega arith in
      (
        record {
          id_is = omega arith;
          count_is = refl;
          packet_is = refl;
          session_is = refl;
          addr_is = refl;
        },
        subst
            (λ k.
              Numbered m (count % 256) (suc i) (frag_loop fuel size m count k (drop n (b ∷ bs))))
            (sym next)
            (Numbered-frag_loop fuel (suc i) (drop n (b ∷ bs)) (rw (← next) (omega arith))),
      )

module _ (varint_len : ℕ → ℕ) (m : UdpMessage) (max_size : ℕ) where
  abbrev pub room : ℕ
  room = max_size - header_size varint_len m

  -- A message that is longer than the datagram, which has room behind the header for 255 fragments
  -- to carry the payload, is cut into as many fragments as computed beforehand. Together they carry
  -- the payload in order, each at least one byte and no more than the datagram holds, numbered from
  -- 0, with the ids and the address of the message.
  pub frag_udp_message_lem :
      max_size < message_size varint_len m
      → header_size varint_len m < max_size
      → chunk_count (length m.payload) room ≤ 255
      → (fs : List UdpMessage) × (frag_udp_message varint_len m max_size ≡ frags_of fs)
        × (length fs ≡ chunk_count (length m.payload) room)
        × (flat (map payload_of fs) ≡ m.payload)
        × All
            (λ c. (0 < length c) × (header_size varint_len m + length c ≤ max_size))
            (map payload_of fs)
        × Numbered m (length fs) 0 fs
  unfolding frag_udp_message
  frag_udp_message_lem long space few =
      let count : ℕ = chunk_count (length m.payload) room in
      let fs : List UdpMessage = frag_loop (length m.payload) room m count 0 m.payload in
      let n : length fs ≡ count =
        length-frag_loop room m count (length m.payload) 0 m.payload
        ∙ length-chunks room (omega arith) (length m.payload) m.payload (omega arith) in
      let fits : count % 256 ≡ length fs = omega arith in
      (
        fs,
        ground arith,
        n,
        ap flat (payload-frag_loop room m count (length m.payload) 0 m.payload)
            ∙ flat-chunks room (omega arith) (length m.payload) m.payload (omega arith),
        rw (payload-frag_loop room m count (length m.payload) 0 m.payload) (
            All-imp {P = λ c. (0 < length c) × (length c ≤ room)} (λ c h. (h.0, omega arith))
              (chunks (length m.payload) room m.payload)
              (chunks-All room (omega arith) (length m.payload) m.payload (omega arith))),
        subst (λ k. Numbered m k 0 fs) fits
            (Numbered-frag_loop room m count (length m.payload) 0 m.payload (omega arith)),
      )
