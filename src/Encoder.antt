-- ===== src/Encoder.antt =====
-- wasm/encoder.cc and wasm/encoder.h: building functions and modules, and writing a module's bytes.
pub mod Emit
pub mod Function
pub mod Serialize
pub mod Build
pub mod Builder
pub mod Signatures
pub mod SignatureLaws
pub mod Sizes
pub mod Writer
pub mod Layout
pub mod Filled
pub mod BuilderLaws
pub mod EntrySizes
pub mod WriterSizes
pub mod WriterLaws
pub mod WriteTo
