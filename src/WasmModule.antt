-- ===== src/WasmModule.antt =====
-- wasm/wasm-module.h and the parts of wasm/wasm-module.cc that do not call into V8's heap.
pub mod Types
