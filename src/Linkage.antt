-- ===== src/Linkage.antt =====
-- wasm/wasm-linkage.cc: where the parameters and results of a call stand.
pub mod Registers
pub mod Alloc
pub mod Placement
pub mod OneParam
pub mod Refines
pub mod Distinct
pub mod Apart
