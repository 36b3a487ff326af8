-- ===== src/Hysteria2/Tcp.antt =====
-- protocol/hysteria2/internal/protocol/proxy.go: the request that opens a TCP stream and its
-- response. `quicvarint` is of another module: `varint_len` is its `Len`, `varint_read` its `Read`
-- with what is left of the stream, `none` where it fails.
pub mod Write
pub mod Read
pub mod Laws
mod Tests
use outbound.Prelude.{ℕ}

abbrev pub frame_type_tcp_request : ℕ
frame_type_tcp_request = 1025

abbrev pub max_address_length : ℕ
max_address_length = 2048

abbrev pub max_padding_length : ℕ
max_padding_length = 4096
