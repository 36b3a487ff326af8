-- ===== src/Fragment.antt =====
-- What the two fragment reassemblers of the repository share: the slots of protocol/tuic/frag.go
-- and protocol/hysteria2/internal/frag/frag.go, and the cut of a payload into chunks.
pub mod Slots
pub mod Chunks
