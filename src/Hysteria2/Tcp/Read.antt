-- ===== src/Hysteria2/Tcp/Read.antt =====
-- `ReadTCPRequest` and `ReadTCPResponse` of proxy.go.
use outbound.Prelude.{ltb, ◌==◌, if◌then◌else◌, get_or, ℕ, Bool, ◌||◌, Option, none, some}
use outbound.Hysteria2.Message.{max_message_length}
use outbound.Hysteria2.Tcp.{max_address_length, max_padding_length}
use outbound.Wire.{Bytes, read_full}

pub data ReadError : Type 0 where
  read_failed invalid_address_length invalid_message_length invalid_padding_length : ReadError

-- The result, and what is left of the stream.
pub data Outcome (A : Type 0) : Type 0 where
  failed : ReadError → Outcome A
  done : A → Bytes → Outcome A

-- `io.ReadFull` of `n` bytes, none of them read where `n` is 0
unfoldable pub read_bytes : ℕ → Bytes → Outcome Bytes
read_bytes n r = elim (read_full n r) [ none ↦ failed read_failed | some (xs, rest) ↦ done xs rest ]

-- what comes after a read that did not fail
abbrev pub continue : {A B : Type 0} → Outcome A → (A → Bytes → Outcome B) → Outcome B
continue (failed e) f = failed e
continue (done a r) f = f a r

module _ (varint_read : Bytes → Option (ℕ × Bytes)) where
  unfoldable pub read_varint : Bytes → Outcome ℕ
  read_varint r = elim (varint_read r) [ none ↦ failed read_failed | some (n, rest) ↦ done n rest ]

  -- the padding of a request or response, behind its answer `a`
  unfoldable pub skip_padding : {A : Type 0} → A → Bytes → Outcome A
  skip_padding a r = continue (read_varint r) (λ n s.
      if ltb max_padding_length n
      then failed invalid_padding_length
      else continue (read_bytes n s) (λ xs t. done a t))

  -- `ReadTCPRequest`
  unfoldable pub read_tcp_request : Bytes → Outcome Bytes
  read_tcp_request r = continue (read_varint r) (λ n s.
      if n == 0 || ltb max_address_length n
      then failed invalid_address_length
      else continue (read_bytes n s) skip_padding)

  -- `ReadTCPResponse`
  unfoldable pub read_tcp_response : Bytes → Outcome (Bool × Bytes)
  read_tcp_response r = continue (read_bytes 1 r) (λ status s. continue (read_varint s) (λ n t.
      if ltb max_message_length n
      then failed invalid_message_length
      else continue (read_bytes n t) (λ msg u. skip_padding (get_or status 0 0 == 0, msg) u)))
