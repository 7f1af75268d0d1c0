-- ===== src/Leb.antt =====
-- LEB128 variable-length integers: the two writers of wasm/encoder.cc and the reader of
-- wasm/ast-decoder.cc.
pub mod Write
pub mod WriteLaws
pub mod Read
pub mod ReadLaws
pub mod RoundTrip
