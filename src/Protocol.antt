-- ===== src/Protocol.antt =====
-- internal/protocol: the wire format of frames and of their TLV extension block.
pub mod Command
pub mod Extensions
pub mod Frame
pub mod Batch
mod Tests
