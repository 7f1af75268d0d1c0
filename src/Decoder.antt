-- ===== src/Decoder.antt =====
-- class Decoder of wasm/decoder.h and the results of wasm/wasm-result.h.
pub mod State
pub mod Reads
pub mod Steps
pub mod Bytes
pub mod VarInt
