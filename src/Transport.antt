-- ===== src/Transport.antt =====
-- The directory transport/: the messages between nodes and their layout in a buffer.
pub mod Messages
pub mod Wire
