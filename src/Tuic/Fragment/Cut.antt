-- ===== src/Tuic/Fragment/Cut.antt =====
-- `fragmentPackets` cuts a payload into fragments that carry all of it.
use outbound.Prelude.{◌==◌, if◌then◌else◌, length, take, drop, length-take, length-drop}
use outbound.Prelude.{length-map, All, ℕ, zero, suc, ◌+◌, ◌%◌, ◌^◌, ◌≤◌, ◌<◌, min, ◌≡◌, refl, sym}
use outbound.Prelude.{ap, ◌∙◌, List, [], ◌∷◌, map, arith}
use outbound.Wire.{Bytes}
use outbound.Fragment.Chunks.{chunks, flat, chunk_count, flat-chunks, chunks-All, length-chunks}
use outbound.Tuic.Address.{atyp_none}
use outbound.Tuic.Packet.{Packet}
use outbound.Tuic.Fragment.{bad_size, too_many, fragments, fragment_address, split_loop}
use outbound.Tuic.Fragment.{fragment_packets}
use mathlib.Core.Path.{subst}

-- What every fragment of `packet` carries beside its payload.
pub record IsFragment (packet : Packet) (i : ℕ) (m : Packet) : Type 0 where
  pub id_is : m.frag_id ≡ i
  pub total_is : m.frag_total ≡ packet.frag_total
  pub pkt_is : m.pkt_id ≡ packet.pkt_id
  pub assoc_is : m.assoc_id ≡ packet.assoc_id
  pub size_is : m.size ≡ length m.payload
  pub addr_is : m.addr ≡ (if i == 0 then packet.addr else record packet.addr { kind = atyp_none })

-- fragments from index `i` on
abbrev pub Numbered : Packet → ℕ → List Packet → Type 0
Numbered packet i [] = Unit
Numbered packet i (m ∷ ms) = IsFragment packet i m × Numbered packet (suc i) ms

module _ (size : ℕ) (pos : 0 < size) (packet : Packet) where
  payload-split_loop :
      (fuel off i : ℕ) (xs : Bytes)
      → map (λ (m : Packet). m.payload) (split_loop fuel size packet off i xs) ≡ chunks fuel size xs
  unfolding split_loop chunks
  payload-split_loop fuel off i [] = refl
  payload-split_loop zero off i (b ∷ bs) = refl
  payload-split_loop (suc fuel) off i (b ∷ bs) =
      ap (λ t. take (min (length (b ∷ bs)) size) (b ∷ bs) ∷ t)
        (payload-split_loop fuel _ (i + 1) (drop (min (length (b ∷ bs)) size) (b ∷ bs)))

  -- `off` is 0 for the first fragment alone.
  Numbered-split_loop :
      (fuel off i : ℕ) (xs : Bytes)
      → length xs ≤ fuel
      → length xs < 2 ^ 16
      → (off == 0) ≡ (i == 0)
      → i + length (split_loop fuel size packet off i xs) < 256
      → Numbered packet i (split_loop fuel size packet off i xs)
  unfolding split_loop fragment_address
  Numbered-split_loop fuel off i [] h w o k = tt
  Numbered-split_loop zero off i (b ∷ bs) h w o k = absurd (omega arith)
  Numbered-split_loop (suc fuel) off i (b ∷ bs) h w o k =
      let n : ℕ = min (length (b ∷ bs)) size in
      let next : i + 1 ≡ suc i = omega arith in
      (
        record {
          id_is = omega arith;
          total_is = refl;
          pkt_is = refl;
          assoc_is = refl;
          size_is = omega (arith, length-take n (b ∷ bs));
          addr_is = rw o;
        },
        subst
            (λ k.
              Numbered packet k (split_loop fuel size packet (off + n) (i + 1) (drop n (b ∷ bs))))
            next
            (Numbered-split_loop fuel (off + n) (i + 1) (drop n (b ∷ bs))
              (omega (arith, length-drop n (b ∷ bs))) (omega (arith, length-drop n (b ∷ bs)))
              (ground arith) (omega arith)),
      )

  length-split_loop :
      (fuel off i : ℕ) (xs : Bytes)
      → length (split_loop fuel size packet off i xs) ≡ length (chunks fuel size xs)
  length-split_loop fuel off i xs =
      sym (length-map (split_loop fuel size packet off i xs) (λ (m : Packet). m.payload))
      ∙ ap length (payload-split_loop fuel off i xs)

-- A payload below 64 KiB that needs at most 255 fragments of a positive size is cut into as many as
-- computed beforehand. Together they carry the payload in order, each at least one and at most
-- `size` bytes of it, numbered from 0, with the packet's ids, and only the first has its address.
pub fragment_packets_lem :
    (packet : Packet) (size : ℕ)
    → 0 < size
    → length packet.payload < 2 ^ 16
    → chunk_count (length packet.payload) size ≤ 255
    → (ms : List Packet) × (fragment_packets packet size ≡ fragments ms)
      × (length ms ≡ chunk_count (length packet.payload) size)
      × (flat (map (λ (m : Packet). m.payload) ms) ≡ packet.payload)
      × All (λ c. (0 < length c) × (length c ≤ size)) (map (λ (m : Packet). m.payload) ms)
      × Numbered (record packet { frag_total = length ms }) 0 ms
unfolding fragment_packets
fragment_packets_lem packet size pos w h =
    let full : Bytes = packet.payload in
    let count : ℕ = chunk_count (length full) size in
    let p : Packet = record packet { frag_total = count % 256 } in
    let ms : List Packet = split_loop (length full) size p 0 0 full in
    let n : length ms ≡ count =
      length-split_loop size pos p (length full) 0 0 full
      ∙ length-chunks size pos (length full) full (omega arith) in
    let fits : count % 256 ≡ length ms = omega arith in
    (
      ms,
      ground arith,
      n,
      ap flat (payload-split_loop size pos p (length full) 0 0 full)
          ∙ flat-chunks size pos (length full) full (omega arith),
      rw (payload-split_loop size pos p (length full) 0 0 full)
          (chunks-All size pos (length full) full (omega arith)),
      subst (λ k. Numbered (record packet { frag_total = k }) 0 ms) fits
          (Numbered-split_loop size pos p (length full) 0 0 full (omega arith) w refl
            (omega arith)),
    )

-- A size that is not positive, and a payload that needs more than 255 fragments, are refused.
pub fragment_packets_refused :
    (packet : Packet) (size : ℕ)
    → (fragment_packets packet 0 ≡ bad_size)
      × (0 < size
          → 255 < chunk_count (length packet.payload) size
          → fragment_packets packet size ≡ too_many)
unfolding fragment_packets
fragment_packets_refused packet size = (refl, λ p h. ground arith)
