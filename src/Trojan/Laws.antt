-- ===== src/Trojan/Laws.antt =====
-- `PackTo` of protocol/trojanc/addr.go, and what `Unpack` reads of it.
use outbound.Prelude.{ltb, length, length-append, take, drop, length-drop, take_all, drop_all}
use outbound.Prelude.{take-append_exact, drop-append_exact, drop-drop, ℕ, suc, ◌+◌, ◌-◌, ◌%◌, ◌≤◌}
use outbound.Prelude.{◌<◌, ◌≡◌, refl, sym, ap, ◌∙◌, ◌≢◌, false, Option, some, [], ◌∷◌, ◌++◌}
use outbound.Prelude.{append-nil, append_assoc, arith}
use outbound.Trojan.{MetadataType, type_ipv4, type_msg, type_domain, type_ipv6, type_invalid}
use outbound.Trojan.{parse_metadata_type, metadata_type_to_byte, Metadata, metadata_len, put_at}
use outbound.Trojan.{copy_into, pack_ip, pack_domain, pack_body, pack_to, read_more}
use outbound.Trojan.{unpack_domain, unpack_ip, unpack_body, unpack}
use outbound.Wire.{Bytes, IsU16, put_u16, uint16, read_full-append, uint16-put_u16}

pub put_at_lem :
    (off : ℕ) (w xs ys : Bytes)
    → length w ≡ off
    → length xs ≤ length ys
    → put_at off xs (w ++ ys) ≡ some ((w ++ xs) ++ drop (length xs) ys)
unfolding put_at
put_at_lem off w xs ys h k =
    let fits : ltb (length (w ++ ys)) (off + length xs) ≡ false =
      ground (arith, h, k, length-append w ys) in
    let before : take off (w ++ ys) ≡ w = take-append_exact off w ys h in
    let behind : drop (off + length xs) (w ++ ys) ≡ drop (length xs) ys =
      sym (drop-drop (length xs) off (w ++ ys))
      ∙ ap (drop (length xs)) (drop-append_exact off w ys h) in
    rw (fits, before, behind) (ap some (sym (append_assoc w xs (drop (length xs) ys))))

pub copy_into_lem :
    (off : ℕ) (w xs ys : Bytes)
    → length w ≡ off
    → length xs ≤ length ys
    → copy_into off xs (w ++ ys) ≡ some ((w ++ xs) ++ drop (length xs) ys)
unfolding copy_into
copy_into_lem off w xs ys h k =
    let whole : take (length (w ++ ys) - off) xs ≡ xs =
      take_all (length (w ++ ys) - off) xs (omega (arith, h, k, length-append w ys)) in
    rw whole (put_at_lem off w xs ys h k)

port_end :
    (off port : ℕ) (w ys : Bytes)
    → length w ≡ off
    → length ys ≡ 2
    → put_at off (put_u16 port) (w ++ ys) ≡ some (w ++ put_u16 port)
port_end off port w ys h k =
    put_at_lem off w (put_u16 port) ys h (omega (arith, k))
    ∙ ap some (
        ap (λ t. (w ++ put_u16 port) ++ t) (drop_all 2 ys (omega (arith, k)))
        ∙ append-nil (w ++ put_u16 port))

pack_domain_lem :
    (t port : ℕ) (hostname ys : Bytes)
    → length hostname ≤ 253
    → length ys ≡ 3 + length hostname
    → pack_domain hostname port (t ∷ ys)
      ≡ some (t ∷ length hostname ∷ (hostname ++ put_u16 port), 4 + length hostname)
unfolding pack_domain
pack_domain_lem t port hostname ys h k =
    let n = length hostname in
    let one : n % 256 ≡ n = omega (arith, h) in
    let at : (2 + n) % 256 ≡ 2 + n = omega (arith, h) in
    let zs = drop 1 ys in
    let size = length-drop 1 ys in
    let first = put_at_lem 1 (t ∷ []) (n ∷ []) ys refl (omega (arith, k)) in
    let second = copy_into_lem 2 (t ∷ n ∷ []) hostname zs refl (omega (arith, k, size)) in
    let third =
      port_end (2 + n) port (t ∷ n ∷ hostname) (drop n zs) (omega arith)
        (omega (arith, k, size, length-drop n zs)) in
    rw (one, first, second, at, third) refl

pack_ip_lem :
    (n t port x : ℕ) (a ys : Bytes)
    → length a ≡ n
    → length ys ≡ 3 + n
    → pack_ip (suc n) (some (x ∷ a)) port (t ∷ ys) ≡ some (t ∷ x ∷ (a ++ put_u16 port), 3 + suc n)
unfolding pack_ip
pack_ip_lem n t port x a ys h k =
    let whole : take (suc n) (x ∷ a) ≡ x ∷ a = take_all (suc n) (x ∷ a) (omega (arith, h)) in
    let first = copy_into_lem 1 (t ∷ []) (x ∷ a) ys refl (omega (arith, h, k)) in
    let second =
      port_end (1 + suc n) port (t ∷ x ∷ a) (drop (length (x ∷ a)) ys) (omega (arith, h))
        (omega (arith, h, k, length-drop (length (x ∷ a)) ys)) in
    rw (whole, first, second) refl

abbrev answer : Metadata → Bytes → ℕ → ℕ → Bytes → Option (Metadata × ℕ × Bytes)
answer m hostname port n rest = some (record m { hostname = hostname; port = port }, n, rest)

same_port :
    (port : ℕ) (m : Metadata) (hostname rest : Bytes) (n : ℕ)
    → IsU16 port
    → answer m hostname (uint16 (put_u16 port)) n rest ≡ answer m hostname port n rest
same_port port m hostname rest n h = ap (λ p. answer m hostname p n rest) (uint16-put_u16 port [] h)

unpack_domain_lem :
    (t port : ℕ) (m : Metadata) (hostname rest : Bytes)
    → IsU16 port
    → unpack_domain
        (length hostname)
        m
        (t ∷ length hostname ∷ [])
        ((hostname ++ put_u16 port) ++ rest)
      ≡ answer m hostname port (4 + length hostname) rest
unfolding unpack_domain read_more
unpack_domain_lem t port m hostname rest h =
    let n = length hostname in
    let read =
      read_full-append (2 + n) (hostname ++ put_u16 port) rest
        (omega (arith, length-append hostname (put_u16 port))) in
    let name = take-append_exact n hostname (put_u16 port) refl in
    let tail = drop-append_exact (2 + n) (t ∷ n ∷ hostname) (put_u16 port) (omega arith) in
    rw (read, name, tail) (same_port port m hostname rest (4 + n) h)

unpack_ip_lem :
    (ip_string : Bytes → Bytes) (n t port x : ℕ) (m : Metadata) (a hostname rest : Bytes)
    → length a ≡ n
    → ip_string (x ∷ a) ≡ hostname
    → IsU16 port
    → unpack_ip ip_string (suc n) m (t ∷ x ∷ []) ((a ++ put_u16 port) ++ rest)
      ≡ answer m hostname port (3 + suc n) rest
unfolding unpack_ip read_more
unpack_ip_lem ip_string n t port x m a hostname rest k e h =
    let read =
      read_full-append (suc n + 1) (a ++ put_u16 port) rest
        (omega (arith, k, length-append a (put_u16 port))) in
    let name = take-append_exact (suc n) (x ∷ a) (put_u16 port) (omega (arith, k)) in
    let tail = drop-append_exact (1 + suc n) (t ∷ x ∷ a) (put_u16 port) (omega (arith, k)) in
    rw (read, name, tail, e) (same_port port m hostname rest (3 + suc n) h)

-- What `Unpack` into `m0` makes of the metadata `m`.
abbrev pub received : MetadataType → Metadata → Metadata → Metadata
received type_msg m0 m = record m0 { kind = type_msg; cmd = m.cmd }
received kind m0 m = record m0 { kind = kind; hostname = m.hostname; port = m.port }

module _ (to4 to16 : Bytes → Option Bytes) (ip_string : Bytes → Bytes) where
  -- The text is that of the address, which has one byte and `n` more.
  abbrev pub IsText : (Bytes → Option Bytes) → ℕ → Bytes → Type 0
  IsText ip n text =
      (x : ℕ) × (a : Bytes) × (length a ≡ n) × (ip text ≡ some (x ∷ a)) × (ip_string (x ∷ a) ≡ text)

  -- What can be packed: an address whose text `net` reads and writes alike, a domain of at most 253
  -- bytes, a command that is a byte.
  abbrev pub CanPack : MetadataType → Metadata → Type 0
  CanPack type_ipv4 m = IsText to4 3 m.hostname
  CanPack type_ipv6 m = IsText to16 15 m.hostname
  CanPack type_domain m = length m.hostname ≤ 253
  CanPack type_msg m = m.cmd < 256
  CanPack type_invalid m = 0 < 0

  -- The bytes behind the type, which is `t`, written and read.
  abbrev Packed : ℕ → MetadataType → Metadata → Metadata → Bytes → Bytes → Type 0
  Packed t kind m0 m ys rest =
      (x : ℕ) × (v : Bytes) × (pack_body to4 to16 kind m (t ∷ ys)
        ≡ some (t ∷ x ∷ v, metadata_len kind m))
      × (unpack_body ip_string kind (record m0 { kind = kind }) (t ∷ x ∷ []) (v ++ rest)
          ≡ some (received kind m0 m, metadata_len kind m, rest))

  body-Packed :
      (t : ℕ) (kind : MetadataType) (m0 m : Metadata) (ys rest : Bytes)
      → CanPack kind m
      → IsU16 m.port
      → suc (length ys) ≡ metadata_len kind m
      → Packed t kind m0 m ys rest
  unfolding pack_body unpack_body
  body-Packed t type_ipv4 m0 m ys rest (x, a, n, e, e') h k = (
    x,
    a ++ put_u16 m.port,
    rw e (pack_ip_lem 3 t m.port x a ys n (omega (arith, k))),
    unpack_ip_lem ip_string 3 t m.port x (record m0 { kind = type_ipv4 }) a m.hostname rest n e' h,
  )
  body-Packed t type_ipv6 m0 m ys rest (x, a, n, e, e') h k = (
    x,
    a ++ put_u16 m.port,
    rw e (pack_ip_lem 15 t m.port x a ys n (omega (arith, k))),
    unpack_ip_lem ip_string 15 t m.port x (record m0 { kind = type_ipv6 }) a m.hostname rest n e' h,
  )
  body-Packed t type_domain m0 m ys rest c h k = (
    length m.hostname,
    m.hostname ++ put_u16 m.port,
    pack_domain_lem t m.port m.hostname ys c (omega (arith, k)),
    unpack_domain_lem t m.port (record m0 { kind = type_domain }) m.hostname rest h,
  )
  body-Packed t type_msg m0 m ys rest c h k =
      let one : m.cmd % 256 ≡ m.cmd = omega (arith, c) in
      (
        m.cmd,
        [],
        rw (one, put_at_lem 1 (t ∷ []) (m.cmd ∷ []) ys refl (omega (arith, k)))
            (ap (λ zs. some (t ∷ m.cmd ∷ zs, 2)) {y = []} (drop_all 1 ys (omega (arith, k)))),
        refl,
      )
  body-Packed t type_invalid m0 m ys rest c h k = absurd (omega (arith, c))

  type_round : (kind : MetadataType) → parse_metadata_type (metadata_type_to_byte kind) ≡ kind
  type_round type_ipv4 = refl
  type_round type_msg = refl
  type_round type_domain = refl
  type_round type_ipv6 = refl
  type_round type_invalid = refl

  empty_buffer : (kind : MetadataType) (m : Metadata) → CanPack kind m → 0 ≢ metadata_len kind m
  empty_buffer type_ipv4 m c e = omega (arith, e)
  empty_buffer type_msg m c e = omega (arith, e)
  empty_buffer type_domain m c e = omega (arith, e)
  empty_buffer type_ipv6 m c e = omega (arith, e)
  empty_buffer type_invalid m c e = omega (arith, c)

  -- The metadata can be packed, its port has 16 bits, and the buffer has `Len` bytes: `PackTo` does
  -- not panic and fills the buffer, and of what it wrote `Unpack` reads the same fields, whatever
  -- follows and whatever metadata it reads into.
  pub unpack-pack_to :
      (m0 m : Metadata) (dst rest : Bytes)
      → CanPack m.kind m
      → IsU16 m.port
      → length dst ≡ metadata_len m.kind m
      → (bytes : Bytes) × (pack_to to4 to16 m dst ≡ some (bytes, metadata_len m.kind m))
        × (unpack ip_string m0 (bytes ++ rest)
            ≡ some (received m.kind m0 m, metadata_len m.kind m, rest))
  unfolding pack_to unpack
  unpack-pack_to m0 m [] rest c h k = absurd (empty_buffer m.kind m c k)
  unpack-pack_to m0 m (y ∷ ys) rest c h k =
      let t = metadata_type_to_byte m.kind in
      let (x, v, packed, read) = body-Packed t m.kind m0 m ys rest c h k in
      let first = put_at_lem 0 [] (t ∷ []) (y ∷ ys) refl (omega arith) in
      let head = read_full-append 2 (t ∷ x ∷ []) (v ++ rest) refl in
      (t ∷ x ∷ v, rw (first, packed) refl, rw (head, type_round m.kind) read)
