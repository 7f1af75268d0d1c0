-- ===== src/RoundTrip.antt =====
-- wasm/encoder.cc against wasm/module-decoder.cc: reading back the modules that are written.
pub mod Parse
pub mod EntryItems
pub mod Items
pub mod FunctionParts
pub mod Functions
pub mod Entries
pub mod Rounds
pub mod Sections
pub mod Bytes
pub mod Writers
pub mod Parts
pub mod Borders
pub mod Chain
pub mod Modules
