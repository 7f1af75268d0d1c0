-- ===== src/Opcodes.antt =====
-- wasm/wasm-opcodes.h and wasm/wasm-opcodes.cc.
pub mod Types
pub mod Enum
pub mod Signatures
pub mod Rows
pub mod Table
pub mod Access
pub mod TableLaws
