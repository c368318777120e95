-- ===== src/Transport.antt =====
-- include/vita/runtime/transport: packets from byte streams.
pub mod Framer
pub mod Framing
pub mod Tests
