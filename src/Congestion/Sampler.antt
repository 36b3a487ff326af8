-- ===== src/Congestion/Sampler.antt =====
-- protocol/tuic/congestion/bbr/bandwidth_sampler.go and bandwidth.go: the bandwidth sampler.
pub mod Tracker
pub mod Points
pub mod Records
pub mod State
pub mod Ack
pub mod Marks
pub mod Event
