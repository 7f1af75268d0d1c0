-- ===== src/RoundTrip/Writers.antt =====
-- The modules of WriteTo (wasm/encoder.cc) that can be read back, and what is read.
use v8_native_prototype.Base.{ℕ, ◌+◌, ◌^◌, ◌<◌, ◌≤◌, ◌≡◌, Bool, true, false, map, length, All}
use v8_native_prototype.Leb.Write.{var_int}
use v8_native_prototype.Opcodes.Types.{FunctionSig, MachineType}
use v8_native_prototype.WasmModule.Types.{WasmModule}
use v8_native_prototype.ModuleDecoder.WellFormed.{SigIsValid}
use v8_native_prototype.ModuleDecoder.Entry.{max_module_size}
use v8_native_prototype.Encoder.Function.{WasmFunctionEncoder}
use v8_native_prototype.Encoder.Serialize.{WasmDataSegmentEncoder}
use v8_native_prototype.Encoder.Sizes.{WasmModuleWriter}
use v8_native_prototype.Encoder.Layout.{
  each_bytes, section_bytes, memory_bytes, global_bytes, signature_bytes, function_bytes,
  header_bytes, module_bytes,
}
use v8_native_prototype.RoundTrip.Parse.{each_value}
use v8_native_prototype.RoundTrip.EntryItems.{is_mem_type, decoded_global}
use v8_native_prototype.RoundTrip.FunctionParts.{FunctionFits, decoded_function}
use v8_native_prototype.RoundTrip.Entries.{SegmentFits, decoded_segments}
use v8_native_prototype.RoundTrip.Bytes.{Bytes}

-- What a writer must hold for its module to be read back: memory types, valid signatures, functions
-- that fit, a table of their indices, bytes, and not too many of anything.
pub record Readable (w : WasmModuleWriter) : Type 0 where
  pub types : All (λ (g : MachineType × Bool). is_mem_type g.0 ≡ true) w.globals
  pub signatures : All SigIsValid w.signatures
  pub params : All (λ (s : FunctionSig). length s.params < 2 ^ 8) w.signatures
  pub functions : All (FunctionFits w.signatures) w.functions
  pub bodies : All (λ (e : WasmFunctionEncoder). Bytes e.body) w.functions
  pub segments : All SegmentFits w.data_segments
  pub contents : All (λ (s : WasmDataSegmentEncoder). Bytes s.contents) w.data_segments
  pub table : All (λ i. i < length w.functions) w.indirect_functions
  pub few_globals : length w.globals < 2 ^ 32
  pub few_signatures : length w.signatures < 2 ^ 32
  pub few_functions : length w.functions ≤ 2 ^ 16
  pub few_segments : length w.data_segments < 2 ^ 32
  pub few_indices : length w.indirect_functions < 2 ^ 31
  pub small : length (module_bytes w) < max_module_size

-- Where the bytes of the first function stand, if there is one.
unfoldable pub functions_start : WasmModuleWriter → ℕ
functions_start w =
    length memory_bytes
    + length (section_bytes 3 (length w.globals) (each_bytes global_bytes w.globals))
    + length (section_bytes 1 (length w.signatures) (each_bytes signature_bytes w.signatures))
    + 1
    + length (var_int (length w.functions))

-- The module that a writer stands for.
unfoldable pub decoded_module : WasmModuleWriter → WasmModule
decoded_module w = record {
  module_start = 0;
  module_end = length (module_bytes w);
  min_mem_size_log2 = 16;
  max_mem_size_log2 = 16;
  mem_export = false;
  mem_external = false;
  globals = map decoded_global w.globals;
  signatures = w.signatures;
  functions =
      each_value function_bytes (decoded_function w.signatures) w.functions (functions_start w);
  data_segments = decoded_segments (length (header_bytes 0 w)) w.data_segments;
  function_table = w.indirect_functions;
}
