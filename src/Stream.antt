-- ===== src/Stream.antt =====
-- include/vita/runtime/stream: packet counters and receive routes.
pub mod Counters
pub mod Routing
pub mod Tests
