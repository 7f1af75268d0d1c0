-- ===== src/Encoder/Writer.antt =====
-- WasmModuleWriter::WriteTo of wasm/encoder.cc.
use v8_native_prototype.Base.{
  ℕ, ◌%◌, ◌^◌, Bool, List, [], ◌∷◌, length, ltb, replicate, if◌then◌else◌,
}
use v8_native_prototype.Opcodes.Types.{
  FunctionSig, LocalType, MachineType, LocalTypeCode, local_void, local_code, mem_code,
  local_type_code_for, mem_type_code_for,
}
use v8_native_prototype.Encoder.Emit.{Output, emit_uint8, emit_uint16, emit_uint32, emit_var_int}
use v8_native_prototype.Encoder.Serialize.{serialize_function, serialize_segment}
use v8_native_prototype.Encoder.Sizes.{WasmModuleWriter, sizes_of, total}

-- The codes of the sections, WasmSectionDeclCode of wasm/wasm-module.h.
abbrev pub decl_memory_code : ℕ
decl_memory_code = 0

abbrev pub decl_signatures_code : ℕ
decl_signatures_code = 1

abbrev pub decl_functions_code : ℕ
decl_functions_code = 2

abbrev pub decl_globals_code : ℕ
decl_globals_code = 3

abbrev pub decl_data_segments_code : ℕ
decl_data_segments_code = 4

abbrev pub decl_function_table_code : ℕ
decl_function_table_code = 5

abbrev pub decl_end_code : ℕ
decl_end_code = 6

unfoldable pub bool_byte : Bool → ℕ
bool_byte b = if b then 1 else 0

-- A row of things, each written behind the one before.
unfoldable pub emit_each {ℓ} : {A : Type ℓ} → (A → Output → Output) → List A → Output → Output
emit_each f [] o = o
emit_each f (a ∷ xs) o = emit_each f xs (f a o)

-- A section with a number of entries; none where there are no entries.
unfoldable pub emit_section {ℓ} :
    {A : Type ℓ} → ℕ → (A → Output → Output) → List A → Output → Output
unfolding emit_each
emit_section code f xs o =
    if ltb 0 (length xs) then emit_each f xs (emit_var_int (length xs) (emit_uint8 code o)) else o

unfoldable pub emit_memory : Output → Output
emit_memory o = emit_uint8 0 (emit_uint8 16 (emit_uint8 16 (emit_uint8 decl_memory_code o)))

unfoldable pub emit_global : MachineType × Bool → Output → Output
emit_global (type, exported) o =
    emit_uint8 (bool_byte exported)
      (emit_uint8 (mem_code (mem_type_code_for type)) (emit_uint32 0 o))

-- The byte of the result: kLocalVoid where there is none.
unfoldable pub return_code : List LocalType → LocalTypeCode
return_code [] = local_void
return_code (type ∷ types) = local_type_code_for type

unfoldable pub emit_signature : FunctionSig → Output → Output
emit_signature sig o =
    let o₁ = emit_uint8 (length sig.params % 2 ^ 8) o in
    let o₂ = emit_uint8 (local_code (return_code sig.returns)) o₁ in
    emit_each (λ type. emit_uint8 (local_code (local_type_code_for type))) sig.params o₂

unfoldable pub emit_end : Bool → Output → Output
emit_end b o = if b then emit_uint8 decl_end_code o else o

-- The buffer as it is made, with the two pointers.
unfoldable pub new_output : WasmModuleWriter → Output
new_output w =
    let sizes = sizes_of w in
    record { buffer = replicate (total sizes) 0; header = 0; body = sizes.header_size }

-- Everything that WriteTo emits, in order.
unfoldable pub write_output : WasmModuleWriter → Output
write_output w =
    let o₁ = emit_memory (new_output w) in
    let o₂ = emit_section decl_globals_code emit_global w.globals o₁ in
    let o₃ = emit_section decl_signatures_code emit_signature w.signatures o₂ in
    let o₄ = emit_section decl_functions_code serialize_function w.functions o₃ in
    let o₅ = emit_section decl_data_segments_code serialize_segment w.data_segments o₄ in
    let o₆ = emit_section decl_function_table_code emit_uint16 w.indirect_functions o₅ in
    emit_end (ltb 0 (sizes_of w).body_size) o₆

-- WasmModuleIndex, with the memory that its pointers point into.
pub record WasmModuleIndex : Type 0 where
  pub buffer : List ℕ
  pub begin : ℕ
  pub end : ℕ

unfoldable pub write_to : WasmModuleWriter → WasmModuleIndex
write_to w = record { buffer = (write_output w).buffer; begin = 0; end = total (sizes_of w) }
