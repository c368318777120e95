-- ===== src/Memory.antt =====
-- include/vita/memory: pools of buffers.
pub mod Pool
pub mod Envelope
pub mod Tests
