-- ===== src/Timing.antt =====
-- include/vita/runtime/timing: protocol time, the clock, the sample timeline, boundary scheduling.
pub mod Time
pub mod Clock
pub mod Scheduling
pub mod Tests
