-- ===== src/Wire.antt =====
-- crates/laplace-probe-common: the event of 128 bytes and its decoder.
pub mod Raw
pub mod Decoded
pub mod Decoder
pub mod Encoding
pub mod Roundtrip
pub mod Carrying
pub mod Sending
pub mod Mock
pub mod Timeline
