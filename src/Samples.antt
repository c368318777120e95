-- ===== src/Samples.antt =====
-- include/vita/codec: sample payloads.
pub mod Bits
pub mod Packing
pub mod Iq
pub mod Numeric
pub mod Descriptor
pub mod Segmented
pub mod Tests
