-- ===== src/Codec.antt =====
-- include/vita/codec/wire.hpp: the packet envelope, its checks, its encoding and decoding.
pub mod Words
pub mod Envelope
pub mod Measure
pub mod Encode
pub mod Decode
pub mod RoundTrip
pub mod Tests
