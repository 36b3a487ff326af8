-- ===== src/Hysteria2.antt =====
-- protocol/hysteria2: the UDP messages, their wire format and their fragmentation, and the ports
-- of a server that hops between them.
pub mod Frag
pub mod Message
pub mod Tcp
pub mod PortUnion
mod Tests
