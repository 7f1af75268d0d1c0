-- ===== src/Examples.antt =====
-- The theorems at concrete inputs: small modules and decoders of the shapes of wasm/module-decoder.cc.
use mathlib.Core.Option
use v8_native_prototype.Base.{
  ℕ, ◌+◌, ◌-◌, ◌*◌, ◌≤◌, ◌≡◌, refl, true, false, not, ◌||◌, List, [], ◌∷◌, ◌++◌, none, some, arith,
  length, All,
}
use v8_native_prototype.Leb.Write.{var_int, unsigned_leb128_from}
use v8_native_prototype.Leb.WriteLaws.{unsigned_leb128_from-var_int}
use v8_native_prototype.Leb.Read.{
  leb_loop, leb_add, leb_end, no_error, read_unsigned_leb128_operand,
}
use v8_native_prototype.Leb.ReadLaws.{
  IsByte, leb_meaning, leb_window, read_unsigned_leb128_operand_lem,
}
use v8_native_prototype.Leb.RoundTrip.{read-var_int}
use v8_native_prototype.Opcodes.Types.{mach_int16, ast_i32, local_type_for}
use v8_native_prototype.Opcodes.Enum.{i32_add, opcode_byte}
use v8_native_prototype.Opcodes.Signatures.{sig_of, memory_sig}
use v8_native_prototype.Opcodes.Access.{memory_access}
use v8_native_prototype.Opcodes.Table.{to_opcode, signature, load_store_opcode_of}
use v8_native_prototype.Opcodes.TableLaws.{
  to_opcode-opcode_byte, signature_lem, load_store_opcode_of-sig, row_signature, access_params,
  accessed,
}
use v8_native_prototype.Decoder.State.{
  to_result, copy_from, on_first_error, Decoder, ok, error, result_ok, new_decoder, decoder,
  module_decoder, success, section_present, section_missing, new_result,
}
use v8_native_prototype.Decoder.Reads.{
  u32v_loop, u32v_end, check_available, u32v_body, u32v_finish, join_u16, join_u32, trace_off_end,
  u8, u16, u32, u32v,
}
use v8_native_prototype.Decoder.Steps.{
  IsReading, readers_stay_within, readers_keep_error, StaysWithin, KeepsError,
}
use v8_native_prototype.Decoder.Bytes.{u32_lem}
use v8_native_prototype.Decoder.VarInt.{u32v-operand, u32v-operand_failed}
use v8_native_prototype.WasmModule.Types.{sum_locals, WasmModule, ModuleEnv}
use v8_native_prototype.ModuleDecoder.Sections.{
  to_section, signatures_section, decode_counted, decode_entries, check_for_previous_section,
  data_segments_section, decode_table, error_copied, function_env, function_table_section,
  globals_section, memory_section, Verifier, ModuleState,
}
use v8_native_prototype.ModuleDecoder.Module.{
  decode_module, run_section, functions_section, report_failure, verify_function_body,
  verify_functions, verify_step, decode_sections, decode_section, initial_state,
}
use v8_native_prototype.ModuleDecoder.Items.{
  sig, decode_data_segment_in_module, decode_function_in_module, decode_global_in_module, has_bit,
  local_type, local_type_of, mem_type, mem_type_of, new_function, offset, param_type, read_body,
  read_local_counts, read_locals_and_body, read_name, sig_params, string, with_signature,
}
use v8_native_prototype.ModuleDecoder.WellFormed.{ModuleIsValid}
use v8_native_prototype.ModuleDecoder.Entry.{
  error_result, new_module_decoder, decode_wasm_module, decode_single_function,
  read_function_header,
}
use v8_native_prototype.ModuleDecoder.Accepts.{
  decode_wasm_module_valid, decode_sections_ends, decode_single_function-result_ok, header_verdict,
}
use v8_native_prototype.ModuleDecoder.SectionRules.{
  FailedAt, decode_section_twice, decode_section_missing, functions_want_signatures,
}
use v8_native_prototype.Base.{replicate}
use v8_native_prototype.Encoder.Emit.{Output}
use v8_native_prototype.Encoder.Build.{build_body, build_body-copies}
use v8_native_prototype.Encoder.Function.{WasmFunctionBuilder, WasmFunctionEncoder}
use v8_native_prototype.Encoder.Serialize.{
  WasmDataSegmentEncoder, serialize_function, function_header_size, function_body_size,
  serialize_function-sizes, serialize_segment, segment_header_size, segment_body_size,
  serialize_segment-sizes,
}

abbrev accept_all : Verifier
accept_all env mem base start end = record {
  val = none;
  error_code = success;
  start = none;
  error_pc = none;
  error_pt = none;
  error_msg = none;
}

-- One signature, one function with one i32 local and a body of two bytes, one global, one data
-- segment, a function table of one entry, the memory, and the end.
abbrev module_bytes : List ℕ
module_bytes =
    (1 ∷ 1 ∷ 1 ∷ 1 ∷ 1 ∷ [])
    ++ (2 ∷ 1 ∷ 12 ∷ 0 ∷ 0 ∷ 1 ∷ 0 ∷ 0 ∷ 0 ∷ 0 ∷ 0 ∷ 0 ∷ 0 ∷ 2 ∷ 0 ∷ 14 ∷ 0 ∷ [])
    ++ (3 ∷ 1 ∷ 0 ∷ 0 ∷ 0 ∷ 0 ∷ 4 ∷ 1 ∷ [])
    ++ (4 ∷ 1 ∷ 0 ∷ 0 ∷ 0 ∷ 0 ∷ 5 ∷ 0 ∷ 0 ∷ 0 ∷ 3 ∷ 0 ∷ 0 ∷ 0 ∷ 1 ∷ [])
    ++ (5 ∷ 1 ∷ 0 ∷ 0 ∷ [])
    ++ (0 ∷ 16 ∷ 20 ∷ 1 ∷ 6 ∷ [])

module_bytes_accepted :
    result_ok (decode_wasm_module accept_all true false module_bytes 0 54) ≡ true
unfolding decode_wasm_module decode_module to_result decode_sections new_module_decoder
    decode_section run_section to_section u8 signatures_section decode_counted decode_entries u32v
    check_for_previous_section u32v_body u32v_loop u32v_end leb_loop leb_add sig check_available
    join_u16 join_u32 trace_off_end u16 u32 u32v_finish copy_from error new_decoder new_result
    on_first_error leb_end error_result decode_data_segment_in_module decode_function_in_module
    decode_global_in_module has_bit local_type local_type_of mem_type mem_type_of new_function
    offset param_type read_body read_local_counts read_locals_and_body read_name sig_params string
    with_signature functions_section initial_state report_failure verify_function_body
    verify_functions verify_step data_segments_section decode_table error_copied function_env
    function_table_section globals_section memory_section sum_locals
module_bytes_accepted = refl

decode_wasm_module_valid_example :
    (m : WasmModule) × ((decode_wasm_module accept_all true false module_bytes 0 54).val ≡ some m)
    × ModuleIsValid 54 m
decode_wasm_module_valid_example =
    decode_wasm_module_valid accept_all true false module_bytes 0 54 module_bytes_accepted

decode_sections_ends_example :
    let d = new_module_decoder module_bytes 0 54 in
    let run = λ (n : ℕ). (decode_sections accept_all false true n (initial_state d)).d in
    ((run (d.limit - d.start)).pc ≡ (run (d.limit - d.start)).limit)
    × ((run 2).mem ≡ module_bytes)
    × (0 ≤ (run 2).pc)
    × ((run 2).pc ≤ (run 2).limit)
    × ((run 2).limit ≤ d.limit)
decode_sections_ends_example = decode_sections_ends accept_all false true module_bytes 0 54 2

-- Three groups, and a byte behind them.
abbrev number_bytes : List ℕ
number_bytes = 0 ∷ 0xe5 ∷ 0x8e ∷ 0x26 ∷ 0xff ∷ []

number_bytes-IsByte : All IsByte number_bytes
number_bytes-IsByte = omega arith

read_unsigned_leb128_operand_example :
    read_unsigned_leb128_operand number_bytes 1 5 ≡ leb_meaning (leb_window number_bytes 1 5)
read_unsigned_leb128_operand_example =
    read_unsigned_leb128_operand_lem number_bytes 1 5 number_bytes-IsByte

read-var_int_example :
    (read_unsigned_leb128_operand number_bytes 1 5
      ≡ record { code = no_error; len = length (var_int 624485); value = 624485 })
    × (1 ≤ length (var_int 624485))
    × (length (var_int 624485) ≤ 5)
unfolding var_int
read-var_int_example =
    read-var_int number_bytes 1 5 624485 (0xff ∷ []) number_bytes-IsByte (omega arith) refl
      (omega arith)

unsigned_leb128_from-var_int_example : unsigned_leb128_from 624485 ≡ var_int 624485
unsigned_leb128_from-var_int_example = unsigned_leb128_from-var_int 624485 (omega arith)

u32v-operand_example :
    u32v (new_decoder decoder number_bytes 1 5)
    ≡ ((624485, some 3), record (new_decoder decoder number_bytes 1 5) { pc = 4 })
unfolding new_decoder read_unsigned_leb128_operand
u32v-operand_example =
    u32v-operand (new_decoder decoder number_bytes 1 5) (unfold new_decoder in ground arith) refl

u32v-operand_failed_example : ok (u32v (new_decoder decoder number_bytes 1 3)).1 ≡ false
unfolding new_decoder read_unsigned_leb128_operand
u32v-operand_failed_example =
    u32v-operand_failed (new_decoder decoder number_bytes 1 3) (unfold new_decoder in ground arith)
      (λ e. cc)

readers_stay_within_example :
    let d = new_decoder decoder number_bytes 1 3 in
    StaysWithin d (u8 d).1
    × StaysWithin d (u16 d).1
    × StaysWithin d (u32 d).1
    × StaysWithin d (u32v d).1
readers_stay_within_example =
    readers_stay_within (new_decoder decoder number_bytes 1 3) (unfold new_decoder in ground arith)

abbrev failed_decoder : Decoder
failed_decoder = record {
  mem = number_bytes;
  start = 0;
  pc = 2;
  limit = 5;
  error_pc = some 1;
  error_pt = none;
  error_msg = some (section_present 3);
  class = module_decoder;
}

readers_keep_error_example :
    KeepsError failed_decoder (u8 failed_decoder).1
    × KeepsError failed_decoder (u16 failed_decoder).1
    × KeepsError failed_decoder (u32 failed_decoder).1
    × KeepsError failed_decoder (u32v failed_decoder).1
readers_keep_error_example = readers_keep_error failed_decoder (ground arith) refl

u32_example : u32 (new_decoder decoder number_bytes 1 5) ≡ (
  0xe5 + 0x8e * 256 + 0x26 * 256 * 256 + 0xff * 256 * 256 * 256,
  record (new_decoder decoder number_bytes 1 5) {
    pc = (new_decoder decoder number_bytes 1 5).pc + 4;
  },
)
unfolding new_decoder
u32_example =
    u32_lem (new_decoder decoder number_bytes 1 5) 0xe5 0x8e 0x26 0xff [] (omega arith)
      (omega arith) (omega arith) (omega arith)
      (record { stands = refl; above = omega arith; fits = omega arith })

to_opcode-opcode_byte_example : to_opcode (opcode_byte i32_add) ≡ some i32_add
to_opcode-opcode_byte_example = to_opcode-opcode_byte i32_add

signature_example : signature 0x40 ≡ row_signature (to_opcode 0x40)
signature_example = signature_lem 0x40 (omega arith)

load_store_opcode_of_example :
    (Option.map sig_of (memory_sig (load_store_opcode_of mach_int16 true))
      ≡ some (record {
        returns = local_type_for mach_int16 ∷ [];
        params = access_params (local_type_for mach_int16) true;
      }))
    × (memory_access (load_store_opcode_of mach_int16 true)
        ≡ some (true, local_type_for mach_int16, accessed mach_int16 true))
load_store_opcode_of_example = load_store_opcode_of-sig mach_int16 true tt

-- A round of the section loop that meets the memory section again, or a section too early.
abbrev after_memory : ModuleState
after_memory = record (initial_state (new_module_decoder (0 ∷ 2 ∷ 5 ∷ []) 0 3)) {
  sections = true ∷ false ∷ false ∷ false ∷ false ∷ false ∷ [];
}

after_memory-IsReading : IsReading after_memory.d
unfolding initial_state new_module_decoder new_decoder
after_memory-IsReading = ground arith

decode_section_twice_example :
    FailedAt
      (decode_section accept_all false true after_memory).d
      after_memory.d.pc
      (section_present 0)
unfolding initial_state new_module_decoder new_decoder
decode_section_twice_example =
    decode_section_twice accept_all false true after_memory after_memory-IsReading refl 0
      (2 ∷ 5 ∷ []) (record { stands = refl; above = omega arith; fits = omega arith }) (omega arith)
      refl

abbrev at_functions : ModuleState
at_functions = initial_state (new_module_decoder (2 ∷ 5 ∷ []) 0 2)

at_functions-IsReading : IsReading at_functions.d
unfolding initial_state new_module_decoder new_decoder
at_functions-IsReading = ground arith

decode_section_missing_example :
    FailedAt
      (decode_section accept_all false true at_functions).d
      at_functions.d.pc
      (section_missing 1)
unfolding initial_state new_module_decoder new_decoder
decode_section_missing_example =
    decode_section_missing accept_all false true at_functions at_functions-IsReading refl 2 1
      (5 ∷ []) functions_want_signatures
      (record { stands = refl; above = omega arith; fits = omega arith }) refl refl

abbrev no_module : ModuleEnv
no_module = record { wasm_module = none; asm_js = false }

decode_single_function-result_ok_example :
    let d = new_module_decoder (0 ∷ 9 ∷ []) 0 2 in
    let header = read_function_header d in
    result_ok (decode_single_function accept_all no_module d)
    ≡ (not (ok header.1) || header_verdict accept_all no_module header)
decode_single_function-result_ok_example =
    decode_single_function-result_ok accept_all no_module (new_module_decoder (0 ∷ 9 ∷ []) 0 2)

abbrev small_function : WasmFunctionEncoder
small_function = record {
  signature_index = 1;
  params = [];
  local_int32_count = 2;
  local_int64_count = 0;
  local_float32_count = 0;
  local_float64_count = 0;
  exported = true;
  external = false;
  body = 0x40 ∷ 0x0e ∷ 0x00 ∷ [];
}

abbrev empty_output : Output
empty_output = record { buffer = replicate 32 0; header = 3; body = 20 }

serialize_function-sizes_example :
    ((serialize_function small_function empty_output).header
      ≡ 3 + function_header_size small_function + function_body_size small_function)
    × ((serialize_function small_function empty_output).body ≡ 20)
serialize_function-sizes_example =
    serialize_function-sizes small_function empty_output (omega arith)

abbrev small_segment : WasmDataSegmentEncoder
small_segment = record { contents = 1 ∷ 2 ∷ 3 ∷ []; dest = 64 }

serialize_segment-sizes_example :
    ((serialize_segment small_segment empty_output).header ≡ 3 + segment_header_size)
    × ((serialize_segment small_segment empty_output).body ≡ 20 + segment_body_size small_segment)
serialize_segment-sizes_example = serialize_segment-sizes small_segment empty_output (omega arith)

abbrev two_nops : WasmFunctionBuilder
two_nops = record {
  return_type = ast_i32;
  locals = [];
  exported = 0;
  external = 0;
  body = 0 ∷ 0 ∷ [];
  local_indices = [];
}

build_body-copies_example : build_body two_nops ≡ some (0 ∷ 0 ∷ [])
build_body-copies_example = build_body-copies two_nops refl
