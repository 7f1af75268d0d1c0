-- ===== src/Encoder/Layout.antt =====
-- The layout of a module that WasmModuleWriter::WriteTo of wasm/encoder.cc writes, as a row of bytes: an
-- independent description, without a buffer or pointers.
use v8_native_prototype.Base.{
  ℕ, ◌+◌, ◌%◌, ◌^◌, ◌<◌, Bool, List, [], ◌∷◌, ◌++◌, length, ltb, if◌then◌else◌, All,
}
use v8_native_prototype.Opcodes.Types.{
  FunctionSig, MachineType, local_code, mem_code, local_type_code_for, mem_type_code_for,
}
use v8_native_prototype.Leb.Write.{var_int}
use v8_native_prototype.Encoder.Emit.{u8_bytes, u16_bytes, u32_bytes}
use v8_native_prototype.Encoder.Function.{WasmFunctionEncoder}
use v8_native_prototype.Encoder.Serialize.{has_locals, function_decl_bits, WasmDataSegmentEncoder}
use v8_native_prototype.Encoder.Sizes.{WasmModuleWriter}
use v8_native_prototype.Encoder.Writer.{
  decl_memory_code, decl_signatures_code, decl_functions_code, decl_globals_code,
  decl_data_segments_code, decl_function_table_code, decl_end_code, bool_byte, return_code,
}

unfoldable pub each_bytes {ℓ} : {A : Type ℓ} → (A → List ℕ) → List A → List ℕ
each_bytes f [] = []
each_bytes f (x ∷ xs) = f x ++ each_bytes f xs

-- A section with entries: its code, their number, and the entries.
unfoldable pub section_bytes : ℕ → ℕ → List ℕ → List ℕ
section_bytes code n entries = if ltb 0 n then (u8_bytes code ++ var_int n) ++ entries else []

unfoldable pub memory_bytes : List ℕ
memory_bytes = ((u8_bytes decl_memory_code ++ u8_bytes 16) ++ u8_bytes 16) ++ u8_bytes 0

unfoldable pub global_bytes : MachineType × Bool → List ℕ
global_bytes (type, exported) =
    (u32_bytes 0 ++ u8_bytes (mem_code (mem_type_code_for type))) ++ u8_bytes (bool_byte exported)

unfoldable pub signature_bytes : FunctionSig → List ℕ
signature_bytes sig =
    (u8_bytes (length sig.params % 2 ^ 8) ++ u8_bytes (local_code (return_code sig.returns)))
    ++ each_bytes (λ type. u8_bytes (local_code (local_type_code_for type))) sig.params

unfoldable pub counts_bytes : WasmFunctionEncoder → List ℕ
counts_bytes e =
    ((u16_bytes e.local_int32_count ++ u16_bytes e.local_int64_count)
      ++ u16_bytes e.local_float32_count)
    ++ u16_bytes e.local_float64_count

unfoldable pub function_bytes : WasmFunctionEncoder → List ℕ
function_bytes e =
    ((u8_bytes (function_decl_bits e) ++ u16_bytes e.signature_index)
      ++ (if has_locals e then counts_bytes e else []))
    ++ (if e.external then [] else u16_bytes (length e.body % 2 ^ 16) ++ e.body)

-- A segment whose contents stand at an offset of the module.
unfoldable pub segment_bytes : ℕ → WasmDataSegmentEncoder → List ℕ
segment_bytes at s =
    ((u32_bytes s.dest ++ u32_bytes (at % 2 ^ 32)) ++ u32_bytes (length s.contents % 2 ^ 32))
    ++ u8_bytes 1

-- The segments, with the contents one behind the other.
unfoldable pub segments_bytes : ℕ → List WasmDataSegmentEncoder → List ℕ
segments_bytes at [] = []
segments_bytes at (s ∷ ss) = segment_bytes at s ++ segments_bytes (at + length s.contents) ss

unfoldable pub contents_bytes : List WasmDataSegmentEncoder → List ℕ
contents_bytes ss = each_bytes (λ s. s.contents) ss

unfoldable pub end_bytes : Bool → List ℕ
end_bytes b = if b then u8_bytes decl_end_code else []

-- The sections of a module, where the contents of the segments begin at an offset.
unfoldable pub header_bytes : ℕ → WasmModuleWriter → List ℕ
header_bytes at w =
    (((((memory_bytes
              ++ section_bytes decl_globals_code (length w.globals)
                  (each_bytes global_bytes w.globals))
            ++ section_bytes decl_signatures_code (length w.signatures)
                (each_bytes signature_bytes w.signatures))
          ++ section_bytes decl_functions_code (length w.functions)
              (each_bytes function_bytes w.functions))
        ++ section_bytes decl_data_segments_code (length w.data_segments)
            (segments_bytes at w.data_segments))
      ++ section_bytes decl_function_table_code (length w.indirect_functions)
          (each_bytes u16_bytes w.indirect_functions))
    ++ end_bytes (ltb 0 (length (contents_bytes w.data_segments)))

-- A module: the sections, and behind them the contents of the segments.
unfoldable pub module_bytes : WasmModuleWriter → List ℕ
module_bytes w = header_bytes (length (header_bytes 0 w)) w ++ contents_bytes w.data_segments

-- What WriteTo needs for its 32-bit sums not to wrap around.
unfoldable pub Fits : WasmModuleWriter → Type 0
Fits w =
    All (λ (f : WasmFunctionEncoder). length f.body + 13 < 2 ^ 32) w.functions
    × All (λ (s : WasmDataSegmentEncoder). length s.contents < 2 ^ 32) w.data_segments
    × (length w.indirect_functions < 2 ^ 31)
