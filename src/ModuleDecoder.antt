-- ===== src/ModuleDecoder.antt =====
-- class ModuleDecoder of wasm/module-decoder.cc.
pub mod Items
pub mod Steps
pub mod Sections
pub mod Module
pub mod EntrySteps
pub mod Advance
pub mod WellFormed
pub mod Entries
pub mod EntryLists
pub mod Invariant
pub mod InvariantLoop
pub mod Verified
pub mod Entry
pub mod Accepts
pub mod SectionRules
