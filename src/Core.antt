-- ===== src/Core.antt =====
-- include/vita/core: errors, results, and the bounded vector.
pub mod Error
pub mod FixedVector
