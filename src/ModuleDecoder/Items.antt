-- ===== src/ModuleDecoder/Items.antt =====
-- The private readers of class ModuleDecoder of wasm/module-decoder.cc: types, signatures, and one
-- entry of each section. Each returns the value read and the decoder after it.
use v8_native_prototype.Base.{
  ℕ, zero, suc, ◌+◌, ◌-◌, bit_and, Bool, true, false, not, List, [], ◌∷◌, Option, none, some,
  get_elem?, ltb, ◌==◌, if◌then◌else◌,
}
use v8_native_prototype.Opcodes.Types.{
  FunctionSig, LocalType, MachineType, ast_stmt, ast_i32, ast_i64, ast_f32, ast_f64, mach_none,
  mach_int8, mach_uint8, mach_int16, mach_uint16, mach_int32, mach_uint32, mach_int64, mach_uint64,
  mach_float32, mach_float64,
}
use v8_native_prototype.Decoder.State.{
  Decoder, ok, error, offset_out_of_bounds, invalid_local_type, invalid_memory_type,
  invalid_void_parameter, invalid_signature_index, expected_function_body,
}
use v8_native_prototype.Decoder.Reads.{u8, u16, u32}
use v8_native_prototype.WasmModule.Types.{WasmFunction, WasmGlobal, WasmDataSegment, WasmModule}

-- offset(name).
unfoldable pub offset : Decoder → ℕ × Decoder
offset d =
    let (v, d₁) = u32 d in
    (v, if ltb (d₁.limit - d₁.start) v then error (d₁.pc - 4) none offset_out_of_bounds d₁ else d₁)

-- string(name).
unfoldable pub string : Decoder → ℕ × Decoder
unfolding offset
string d = offset d

-- The cases of the switch in local_type, by the value of LocalTypeCode; `none` is the default.
unfoldable pub local_type_of : ℕ → Option LocalType
local_type_of val =
    if val == 0
    then some ast_stmt
    else if val == 1
    then some ast_i32
    else if val == 2
    then some ast_i64
    else if val == 3
    then some ast_f32
    else if val == 4
    then some ast_f64
    else none

unfoldable pub local_type : Decoder → LocalType × Decoder
unfolding local_type_of
local_type d =
    let (val, d₁) = u8 d in
    elim (local_type_of val) [
      | some t ↦ (t, d₁)
      | none ↦ (ast_stmt, error (d₁.pc - 1) none invalid_local_type d₁)
    ]

-- The cases of the switch in mem_type.
unfoldable pub mem_type_of : ℕ → Option MachineType
mem_type_of val =
    if val == 0
    then some mach_int8
    else if val == 1
    then some mach_uint8
    else if val == 2
    then some mach_int16
    else if val == 3
    then some mach_uint16
    else if val == 4
    then some mach_int32
    else if val == 5
    then some mach_uint32
    else if val == 6
    then some mach_int64
    else if val == 7
    then some mach_uint64
    else if val == 8
    then some mach_float32
    else if val == 9
    then some mach_float64
    else none

unfoldable pub mem_type : Decoder → MachineType × Decoder
unfolding mem_type_of
mem_type d =
    let (val, d₁) = u8 d in
    elim (mem_type_of val) [
      | some t ↦ (t, d₁)
      | none ↦ (mach_none, error (d₁.pc - 1) none invalid_memory_type d₁)
    ]

abbrev pub is_stmt : LocalType → Bool
is_stmt ast_stmt = true
is_stmt _ = false

-- One parameter of a signature.
unfoldable pub param_type : Decoder → LocalType × Decoder
param_type d =
    let (param, d₁) = local_type d in
    (param, if is_stmt param then error (d₁.pc - 1) none invalid_void_parameter d₁ else d₁)

-- The loop of sig() over its parameters; the number is how many are left.
unfoldable pub sig_params : ℕ → Decoder → List LocalType × Decoder
sig_params zero d = ([], d)
sig_params (suc n) d =
    let (param, d₁) = param_type d in let (params, d₂) = sig_params n d₁ in (param ∷ params, d₂)

-- sig().
unfoldable pub sig : Decoder → FunctionSig × Decoder
sig d =
    let (count, d₁) = u8 d in
    let (ret, d₂) = local_type d₁ in
    let (params, d₃) = sig_params count d₂ in
    (record { returns = if is_stmt ret then [] else ret ∷ []; params = params }, d₃)

-- DecodeGlobalInModule.
unfoldable pub decode_global_in_module : Decoder → WasmGlobal × Decoder
decode_global_in_module d =
    let (name_offset, d₁) = string d in
    let (type, d₂) = mem_type d₁ in
    let (exported, d₃) = u8 d₂ in
    (
      record { name_offset = name_offset; type = type; offset = 0; exported = not (exported == 0) },
      d₃,
    )

-- DecodeDataSegmentInModule.
unfoldable pub decode_data_segment_in_module : Decoder → WasmDataSegment × Decoder
decode_data_segment_in_module d =
    let (dest_addr, d₁) = u32 d in
    let (source_offset, d₂) = offset d₁ in
    let (source_size, d₃) = u32 d₂ in
    let (init, d₄) = u8 d₃ in
    (
      record {
        dest_addr = dest_addr;
        source_offset = source_offset;
        source_size = source_size;
        init = not (init == 0);
      },
      d₄,
    )

-- decl_bits & mask, as a condition.
unfoldable pub has_bit : ℕ → ℕ → Bool
has_bit decl_bits mask = not (bit_and decl_bits mask == 0)

-- WasmFunctionDeclBit.
abbrev pub decl_function_name : ℕ
decl_function_name = 0x01

abbrev pub decl_function_import : ℕ
decl_function_import = 0x02

abbrev pub decl_function_locals : ℕ
decl_function_locals = 0x04

abbrev pub decl_function_export : ℕ
decl_function_export = 0x08

-- The entry that DecodeModule appends before it is decoded.
unfoldable pub new_function : WasmFunction
new_function = record {
  sig = none;
  sig_index = 0;
  name_offset = 0;
  code_start_offset = 0;
  code_end_offset = 0;
  local_int32_count = 0;
  local_int64_count = 0;
  local_float32_count = 0;
  local_float64_count = 0;
  exported = false;
  external = false;
}

-- The four counts, which stand in the order of the fields.
unfoldable pub read_local_counts : WasmFunction → Decoder → WasmFunction × Decoder
read_local_counts f d =
    let (int32, d₁) = u16 d in
    let (int64, d₂) = u16 d₁ in
    let (float32, d₃) = u16 d₂ in
    let (float64, d₄) = u16 d₃ in
    (
      record f {
        local_int32_count = int32;
        local_int64_count = int64;
        local_float32_count = float32;
        local_float64_count = float64;
      },
      d₄,
    )

-- The body size and the body of a function with code.
unfoldable pub read_body : WasmFunction → Decoder → WasmFunction × Decoder
read_body f d =
    let (size, d₁) = u16 d in
    let start = d₁.pc - d₁.start in
    if ok d₁
    then if ltb d₁.limit (d₁.pc + size)
      then (f, error d₁.pc (some d₁.limit) (expected_function_body size) d₁)
      else (
        record f { code_start_offset = start; code_end_offset = start + size },
        record d₁ { pc = d₁.pc + size },
      )
    else (f, d₁)

-- What follows the name of a function: nothing if it is imported, else locals and body.
unfoldable pub read_locals_and_body : ℕ → WasmFunction → Decoder → WasmFunction × Decoder
read_locals_and_body decl_bits f d =
    let (f₁, d₁) : WasmFunction × Decoder =
      if has_bit decl_bits decl_function_locals then read_local_counts f d else (f, d) in
    if has_bit decl_bits decl_function_import
    then (record f { external = true }, d)
    else read_body f₁ d₁

-- The name of a function, if the declaration has one.
unfoldable pub read_name : ℕ → WasmFunction → Decoder → WasmFunction × Decoder
read_name decl_bits f d =
    let (name, d₁) = string d in
    if has_bit decl_bits decl_function_name then (record f { name_offset = name }, d₁) else (f, d)

-- What follows the signature index, by the signature that stands at that index; the number in front
-- is where the index was read.
unfoldable pub with_signature : ℕ → ℕ → ℕ → Option FunctionSig → Decoder → WasmFunction × Decoder
unfolding new_function
with_signature sigpos decl_bits index none d =
    (record new_function { sig_index = index }, error sigpos none invalid_signature_index d)
with_signature sigpos decl_bits index (some s) d =
    let (f, d₁) = read_name decl_bits (record new_function { sig_index = index; sig = some s }) d in
    let exported = has_bit decl_bits decl_function_export in
    read_locals_and_body decl_bits (record f { exported = exported }) d₁

-- DecodeFunctionInModule; the body is not verified here.
unfoldable pub decode_function_in_module : WasmModule → Decoder → WasmFunction × Decoder
decode_function_in_module m d =
    let (decl_bits, d₁) = u8 d in
    let (index, d₂) = u16 d₁ in
    with_signature d₁.pc decl_bits index (get_elem? m.signatures index) d₂
