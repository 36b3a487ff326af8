-- ===== src/Congestion.antt =====
-- protocol/tuic/congestion/bbr: the data structures under the BBR sampler.
pub mod RingBuffer
pub mod WindowedFilter
pub mod PacketQueue
pub mod Words
pub mod Sampler
pub mod Pacer
pub mod Sender
pub mod Brutal
