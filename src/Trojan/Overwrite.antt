-- ===== src/Trojan/Overwrite.antt =====
-- A domain of 254 or 255 bytes in `PackTo` of protocol/trojanc/addr.go.
use outbound.Prelude.{◌==◌, if◌then◌else◌, length, length-append, get_or, drop, length-drop, ℕ}
use outbound.Prelude.{zero, suc, ◌+◌, ◌/◌, ◌%◌, ◌≤◌, ◌<◌, ◌≡◌, refl, ap, ◌∙◌, Option, some, []}
use outbound.Prelude.{◌∷◌, ◌++◌, arith}
use outbound.Trojan.{type_domain, Metadata, metadata_len, put_at, pack_domain, pack_body, pack_to}
use outbound.Trojan.Laws.{put_at_lem, copy_into_lem}
use outbound.Wire.{Bytes, IsU16, put_u16, uint16, uint16-put_u16}

-- The port is written at `k`, into a buffer that begins with the type and the length: what is then
-- the second byte, and what the port's place holds.
port_at :
    (k port t l : ℕ) (ys : Bytes)
    → k < 2
    → IsU16 port
    → 1 ≤ length ys
    → (bytes : Bytes) × (put_at k (put_u16 port) (t ∷ l ∷ ys) ≡ some bytes)
      × (get_or bytes 1 0 ≡ (if k == 0 then port % 256 else port / 256))
      × (uint16 (drop k bytes) ≡ port)
port_at zero port t l ys h u n = (
  put_u16 port ++ ys,
  put_at_lem 0 [] (put_u16 port) (t ∷ l ∷ ys) refl (omega arith),
  refl,
  uint16-put_u16 port ys u,
)
port_at (suc zero) port t l ys h u n = (
  t ∷ (put_u16 port ++ drop 1 ys),
  put_at_lem 1 (t ∷ []) (put_u16 port) (l ∷ ys) refl (omega (arith, n)),
  omega (arith, u),
  uint16-put_u16 port (drop 1 ys) u,
)
port_at (suc (suc k)) port t l ys h u n = absurd (omega (arith, h))

module _ (to4 to16 : Bytes → Option Bytes) where
  -- `PackTo` of such a domain, once it is known what the write of the port gives.
  packed_by_port :
      (k : ℕ) (m : Metadata) (y : ℕ) (ys bytes : Bytes)
      → k < 2
      → m.kind ≡ type_domain
      → length m.hostname ≡ 254 + k
      → length (y ∷ ys) ≡ 4 + length m.hostname
      → put_at k
          (put_u16 m.port)
          (3 ∷ length m.hostname ∷ (m.hostname ++ drop (length m.hostname) (drop 1 ys)))
        ≡ some bytes
      → pack_to to4 to16 m (y ∷ ys) ≡ some (bytes, 4 + get_or bytes 1 0)
  unfolding pack_to pack_body pack_domain
  packed_by_port k m y ys bytes h d n s third =
      let l = length m.hostname in
      let one : l % 256 ≡ l = omega (arith, n, h) in
      let at : (2 + l) % 256 ≡ k = omega (arith, n, h) in
      let size = length-drop 1 ys in
      let front = put_at_lem 0 [] (3 ∷ []) (y ∷ ys) refl (omega arith) in
      let first = put_at_lem 1 (3 ∷ []) (l ∷ []) ys refl (omega (arith, s)) in
      let second =
        copy_into_lem 2 (3 ∷ l ∷ []) m.hostname (drop 1 ys) refl (omega (arith, s, size)) in
      rw (d, front, one, first, second, at, third) refl

  -- A domain of 254 or 255 bytes, a port of 16 bits, and a buffer of `Len` bytes: the place of the
  -- port is computed in a byte, so `PackTo` writes the port over the front, from the type on for 254
  -- bytes and from the length on for 255. The length that it returns is 4 and the byte that is then
  -- in the length's place, a byte of the port: the low one for 254 bytes, the high one for 255.
  pub pack_to_overwrites :
      (k : ℕ) (m : Metadata) (dst : Bytes)
      → k < 2
      → m.kind ≡ type_domain
      → length m.hostname ≡ 254 + k
      → IsU16 m.port
      → length dst ≡ metadata_len type_domain m
      → (bytes : Bytes) × (pack_to to4 to16 m dst
          ≡ some (bytes, 4 + (if k == 0 then m.port % 256 else m.port / 256)))
        × (uint16 (drop k bytes) ≡ m.port)
  pack_to_overwrites k m [] h d n u s = absurd (omega (arith, s))
  pack_to_overwrites k m (y ∷ ys) h d n u s =
      let rest = m.hostname ++ drop (length m.hostname) (drop 1 ys) in
      let (bytes, third, second, reads) =
        port_at k m.port 3 (length m.hostname) rest h u
          (omega (arith, n, length-append m.hostname (drop (length m.hostname) (drop 1 ys)))) in
      (
        bytes,
        packed_by_port k m y ys bytes h d n s third ∙ ap (λ v. some (bytes, 4 + v)) second,
        reads,
      )
