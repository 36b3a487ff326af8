-- ===== src/Tuic.antt =====
-- protocol/tuic: the wire format, its two packet parsers, and fragmentation.
pub mod Address
pub mod Command
pub mod Packet
pub mod Fragment
pub mod Bucket
mod Tests
