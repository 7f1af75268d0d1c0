-- ===== src/Lib.antt =====
-- WebAssembly prototype of V8: the binary format in wasm/.
--
-- Parts and how they interact. A module is a row of bytes. The reader (wasm/decoder.h) walks over them
-- with a position and a limit and keeps the first error. The module decoder (wasm/module-decoder.cc)
-- is a reader that fills the records of wasm/wasm-module.h section by section and hands each function
-- body to VerifyWasmCode (wasm/ast-decoder.cc), a shift-reduce decoder that checks the types of the
-- body. The encoder (wasm/encoder.cc) goes the other way, from builders to bytes.
-- Both use LEB128 numbers and the type codes and opcodes of wasm/wasm-opcodes.h.
--
-- Files:
--   Base            Boolean tests, lists and bits on native numbers.
--   Opcodes         wasm/wasm-opcodes.h and wasm/wasm-opcodes.cc: types, opcodes, signatures.
--   Leb             EmitVarInt and UnsignedLEB128From of wasm/encoder.cc, and
--                   ReadUnsignedLEB128Operand of wasm/ast-decoder.cc.
--   Decoder         class Decoder of wasm/decoder.h and struct Result of wasm/wasm-result.h.
--   WasmModule      the records of wasm/wasm-module.h and FunctionEnv of wasm/ast-decoder.h.
--   ModuleDecoder   class ModuleDecoder of wasm/module-decoder.cc, and DecodeWasmModule,
--                   DecodeWasmFunction and DecodeWasmSignatureForTesting.
--   FunctionBody    LR_WasmDecoder of wasm/ast-decoder.cc and VerifyWasmCode, without a graph builder:
--                   State, Operands, Reduce, Switch, Stack, Decode and Body model it; Typing says what the
--                   operands of each opcode must be, and of which type a tree without children is,
--                   apart from the decoder (the type of a tree with children is not fixed by its
--                   opcode: branches merge types into it); OpcodeInfo is
--                   OpcodeLength and OpcodeArity; the other files are proofs.
--   Verification    the module decoder with VerifyWasmCode as its verifier; everywhere else the
--                   verifier is a parameter of the module decoder, and any function will do.
--   Encoder         wasm/encoder.cc: Function, Build and Serialize model WasmFunctionBuilder,
--                   WasmFunctionEncoder and WasmDataSegmentEncoder; Signatures and Builder model
--                   WasmModuleBuilder; Sizes and Writer model WasmModuleWriter; Layout says what
--                   bytes a module has, apart from the writer; the other files are proofs.
--   Linkage         wasm/wasm-linkage.cc: Registers and Alloc model it; Placement says where the
--                   values of a call stand, apart from the allocator; the other files are proofs.
--   Instantiate     AllocateGlobalsOffsets, LoadDataSegments and BuildFunctionTable of
--                   wasm/wasm-module.cc.
--   RoundTrip       wasm/encoder.cc against wasm/module-decoder.cc: Writers says which modules can be
--                   read back and what is read; the other files are proofs.
--   Examples, BodyExamples, LoadExamples, EncoderExamples, RoundTripExamples
--                   the theorems at concrete inputs.
-- A function of the source has its name in snake case: decode_function_in_module is
-- DecodeFunctionInModule, u32v is Decoder::u32v. A method takes the object last and returns it.
--
-- Conventions. Pointers are indices into a list of bytes, the memory; a null pointer is `none`; a
-- read behind the end of the memory gives 0. Fixed-width integers are natural numbers with their
-- wrap-around written out. size_t and pointer arithmetic does not wrap. The target is little-endian
-- and has 64-bit operations where a flag does not say so. The environments of the body decoder are
-- indices into the list of all that were allocated; every stack of it has its top first, and its
-- trees have the children that were filled in; where it would read through a null pointer or out of
-- an array, or would reach UNREACHABLE in Goto, the model leaves the state alone. Code that only
-- runs in debug builds (DCHECK, TRACE) is left out.
--
-- Fuel. The section loop of DecodeModule runs on as many rounds as there are bytes, since each round
-- takes one at least; UnsignedLEB128From runs on five rounds, since a shift by 35 leaves nothing of
-- 32 bits. The loop of WasmFunctionBuilder::Build runs on as many rounds as the body has bytes,
-- since each round takes one at least, and so does the loop of DecodeFunctionBody. Reduce(Tree*)
-- runs on as many rounds behind the first as the stack is high, since each of them takes a
-- production off. The loop of Sizes::AddSection runs on as many rounds as the size, which each round
-- makes smaller.
--
-- Not modelled: the building of TurboFan graphs in wasm/ast-decoder.cc, which calls V8's graph
-- builder (VerifyWasmCode runs without one); the V8 objects in wasm/wasm-module.h; wasm/wasm-
-- compiler.cc, wasm/wasm-js.cc and wasm/asm-wasm-builder.cc, which work on V8's graphs, heap and
-- syntax trees; names and messages for display; and of wasm/wasm-module.cc what creates V8 objects.
-- What V8 provides is a parameter: the map of signatures and the order of machine types of
-- WasmModuleBuilder, the codes of registers and the size of a pointer, the sizes of machine types.
pub mod Base
pub mod Opcodes
pub mod Leb
pub mod Decoder
pub mod WasmModule
pub mod ModuleDecoder
pub mod FunctionBody
pub mod Encoder
pub mod Verification
pub mod Examples
pub mod BodyExamples
pub mod Linkage
pub mod Instantiate
pub mod LoadExamples
pub mod EncoderExamples
pub mod RoundTrip
pub mod RoundTripExamples
