-- ===== src/Congestion/RingBuffer/Laws.antt =====
-- The ring buffer of ringbuffer.go holds the list of its live elements, oldest first.
pub mod Rotation
pub mod Queue
pub mod Resize
pub mod Shrink
