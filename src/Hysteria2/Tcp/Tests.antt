-- ===== src/Hysteria2/Tcp/Tests.antt =====
-- Varints of one and two bytes.
use outbound.Prelude.{ltb, leb, if◌then◌else◌, ℕ, ◌+◌, ◌-◌, ◌*◌, ◌≡◌, refl, Option, none, some}
use outbound.Prelude.{[], ◌∷◌, ◌++◌, arith}
use outbound.Wire.{Bytes}
use outbound.Hysteria2.Message.{varint_put}
use outbound.Hysteria2.Tcp.{frame_type_tcp_request}
use outbound.Hysteria2.Tcp.Write.{write_tcp_request}
use outbound.Hysteria2.Tcp.Read.{invalid_address_length, failed, done, read_varint}
use outbound.Hysteria2.Tcp.Read.{read_tcp_request}
use outbound.Hysteria2.Tcp.Laws.{Agrees, read-write_tcp_request}

abbrev short_len : ℕ → ℕ
short_len i = if leb i 63 then 1 else 2

abbrev short_read : Bytes → Option (ℕ × Bytes)
short_read [] = none
short_read (b ∷ []) = if ltb b 64 then some (b, []) else none
short_read (b ∷ c ∷ r) = if ltb b 64 then some (b, c ∷ r) else some ((b - 64) * 256 + c, r)

frame-Agrees : Agrees short_len short_read frame_type_tcp_request
unfolding varint_put
frame-Agrees = (68 ∷ 1 ∷ [], refl, refl, λ r. refl)

two-Agrees : Agrees short_len short_read 2
unfolding varint_put
two-Agrees = (
  2 ∷ [],
  refl,
  refl,
  λ r. elim r as (λ r. short_read (2 ∷ r) ≡ some (2, r)) [ [] ↦ refl | c ∷ s ↦ refl ],
)

read-write_tcp_request_example :
    (bytes : Bytes) × (write_tcp_request short_len (97 ∷ 98 ∷ []) (58 ∷ 49 ∷ []) ≡ some bytes)
    × (body : Bytes) × (short_read (bytes ++ (7 ∷ [])) ≡ some (frame_type_tcp_request, body))
    × (read_tcp_request short_read body ≡ done (58 ∷ 49 ∷ []) (7 ∷ []))
read-write_tcp_request_example =
    read-write_tcp_request short_len short_read (58 ∷ 49 ∷ []) (97 ∷ 98 ∷ []) (7 ∷ []) frame-Agrees
      two-Agrees two-Agrees (omega arith) (omega arith) (omega arith)

-- A length of 2049 is refused before the address is read.
long_address : read_tcp_request short_read (72 ∷ 1 ∷ []) ≡ failed invalid_address_length
unfolding read_tcp_request read_varint
long_address = refl
