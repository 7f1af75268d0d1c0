-- ===== src/Instantiate.antt =====
-- wasm/wasm-module.cc: the parts of instantiating a module that do not call into V8's heap.
pub mod Globals
pub mod GlobalsLaws
pub mod Segments
pub mod SegmentsLaws
pub mod TableLaws
