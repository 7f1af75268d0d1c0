-- ===== src/FunctionBody.antt =====
-- class LR_WasmDecoder of wasm/ast-decoder.cc and VerifyWasmCode: the verification of a function body.
pub mod State
pub mod Operands
pub mod Reduce
pub mod Switch
pub mod Stack
pub mod Decode
pub mod Body
pub mod Typing
pub mod Keeps
pub mod BranchKeeps
pub mod SwitchKeeps
pub mod ReduceKeeps
pub mod TypeLaws
pub mod LastLaws
pub mod StackLaws
pub mod WellTyped
pub mod DecodeMoves
pub mod DecodeSteps
pub mod Ends
pub mod LoopKeeps
pub mod Finish
pub mod Sound
pub mod OpcodeInfo
pub mod OperandLength
pub mod OpcodeLength
pub mod OpcodePushes
pub mod OpcodeArity
pub mod OpcodeRows
