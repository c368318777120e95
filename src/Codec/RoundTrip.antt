-- ===== src/Codec/RoundTrip.antt =====
-- Decoding gives back what was encoded: one lemma for each part of the prologue, then the packet.
pub mod Parts
pub mod Commands
pub mod Header
pub mod Packet
pub mod Layout
pub mod Decoded
