-- ===== src/Congestion/Sender.antt =====
-- protocol/tuic/congestion/bbr/bbr_sender.go: the BBR sender, on its sampler, filter and pacer.
pub mod Records
pub mod Windows
pub mod Modes
pub mod Event
pub mod Control
pub mod Successors
pub mod Transitions
pub mod Keeps
pub mod Gains
pub mod Limits
pub mod Reach
pub mod Live
pub mod ProbeRtt
pub mod Sees
pub mod ProbeRttEnd
mod Tests
