-- ===== src/Cbor.antt =====
-- src/plank/plank_cbor.c: the canonical CBOR encoder and decoder of PLANK.
pub mod Words
pub mod Encoder
pub mod Decoder
pub mod Skip
pub mod MapBuilder
mod Tests
