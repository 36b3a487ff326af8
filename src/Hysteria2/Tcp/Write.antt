-- ===== src/Hysteria2/Tcp/Write.antt =====
-- `WriteTCPRequest` and `WriteTCPResponse` of proxy.go. The random padding is an argument. The
-- buffer is what has been written at its front; a write past its end panics, which is `none`, but
-- `copy` stops there.
use outbound.Prelude.{ltb, if◌then◌else◌, length, take, replicate, ℕ, ◌+◌, ◌-◌, Bool, Option}
use outbound.Prelude.{none, some, [], ◌∷◌, ◌++◌}
use outbound.Wire.{◌>>=◌, Bytes}
use outbound.Hysteria2.Message.{varint_put}
use outbound.Hysteria2.Tcp.{frame_type_tcp_request}

-- `varintPut(buf[len(w):], i)` into a buffer of `room` bytes
unfoldable pub put_varint : ℕ → Bytes → ℕ → Option Bytes
put_varint room w i = elim (varint_put i) [
  | none ↦ none
  | some v ↦ if ltb room (length w + length v) then none else some (w ++ v)
]

unfoldable pub put_copy : ℕ → Bytes → Bytes → Bytes
put_copy room w xs = w ++ take (room - length w) xs

-- the padding, in front of bytes that stay 0
unfoldable pub put_padding : ℕ → Bytes → Bytes → Option Bytes
put_padding room w padding =
    if ltb room (length w + length padding)
    then none
    else some ((w ++ padding) ++ replicate (room - (length w + length padding)) 0)

module _ (varint_len : ℕ → ℕ) where
  unfoldable pub write_tcp_request : Bytes → Bytes → Option Bytes
  write_tcp_request padding addr =
      let room =
        varint_len frame_type_tcp_request
        + (varint_len (length addr)
            + (length addr + (varint_len (length padding) + length padding))) in
      do
        a ← put_varint room [] frame_type_tcp_request
        b ← put_varint room a (length addr)
        c ← put_varint room (put_copy room b addr) (length padding)
        put_padding room c padding

  unfoldable pub write_tcp_response : Bytes → Bool → Bytes → Option Bytes
  write_tcp_response padding ok msg =
      let room =
        1
        + (varint_len (length msg)
            + (length msg + (varint_len (length padding) + length padding))) in
      do
        a ← put_varint room ((if ok then 0 else 1) ∷ []) (length msg)
        b ← put_varint room (put_copy room a msg) (length padding)
        put_padding room b padding
