-- ===== src/Decoder/State.antt =====
-- The state of class Decoder of wasm/decoder.h, its error handling, and struct Result of
-- wasm/wasm-result.h. Pointers are indices into the memory; a null pointer is `none`. TRACE and the
-- debugging aids are left out.
use v8_native_prototype.Base.{ℕ, Bool, true, false, not, List, Option, none, some, if◌then◌else◌}
use v8_native_prototype.Opcodes.Types.{MachineType}

-- The messages that are passed to error(), with the numbers that are formatted into them.
pub data Message : Type 0 where
  -- wasm/decoder.h
  expected_bytes : ℕ → Message
  expected_1_byte expected_2_bytes expected_4_bytes expected_at_least_1_byte : Message
  varint_too_large : Message
  -- wasm/module-decoder.cc
  end_less_than_start : Message
  unrecognized_section section_missing section_present : ℕ → Message
  invalid_function_index invalid_signature_index offset_out_of_bounds : Message
  invalid_local_type invalid_memory_type invalid_void_parameter : Message
  expected_function_body : ℕ → Message
  in_function : ℕ → Message
  start_after_end size_too_large : Message
  -- wasm/ast-decoder.cc
  body_end_before_start fell_off_end_of_code no_trees_created beyond_end_of_code : Message
  improperly_nested_branch improperly_nested_conditional_branch unknown_opcode : Message
  expected_table_switch table_switch_without_entries improper_branch_in_table_switch : Message
  invalid_case_target select_operand_without_value : Message
  set_local_mismatch store_global_mismatch : Message
  expected_operand : ℕ → Message
  invalid_varint expected_varint : Message
  local_out_of_range global_out_of_range function_out_of_range signature_out_of_range : Message
  implicit_return_count : ℕ → ℕ → Message
  implicit_return_type : ℕ → MachineType → MachineType → Message
  operand_type : ℕ → MachineType → MachineType → Message

-- The class of a decoder object, by which onFirstError is dispatched.
pub data DecoderClass : Type 0 where
  decoder module_decoder wasm_decoder : DecoderClass

pub record Decoder : Type 0 where
  pub mem : List ℕ
  pub start : ℕ
  pub pc : ℕ
  pub limit : ℕ
  pub error_pc : Option ℕ
  pub error_pt : Option ℕ
  pub error_msg : Option Message
  pub class : DecoderClass

-- Decoder(start, end), of an object of a class.
unfoldable pub new_decoder : DecoderClass → List ℕ → ℕ → ℕ → Decoder
new_decoder c mem start end = record {
  mem = mem;
  start = start;
  pc = start;
  limit = end;
  error_pc = none;
  error_pt = none;
  error_msg = none;
  class = c;
}

-- Reset(start, end).
unfoldable pub reset : ℕ → ℕ → Decoder → Decoder
reset start end d = record d {
  start = start;
  pc = start;
  limit = end;
  error_pc = none;
  error_pt = none;
  error_msg = none;
}

abbrev pub is_none {ℓ} : {A : Type ℓ} → Option A → Bool
is_none none = true
is_none (some a) = false

abbrev pub ok : Decoder → Bool
ok d = is_none d.error_pc

abbrev pub failed : Decoder → Bool
failed d = not (is_none d.error_pc)

-- The overriders of onFirstError: ModuleDecoder ends its section loop, LR_WasmDecoder its decoding
-- loop (its graph builder is no part of this state).
unfoldable pub on_first_error : DecoderClass → Decoder → Decoder
on_first_error decoder d = d
on_first_error module_decoder d = record d { pc = d.limit }
on_first_error wasm_decoder d = record d { limit = d.start }

-- error(pc, pt, format, ...).
unfoldable pub error : ℕ → Option ℕ → Message → Decoder → Decoder
unfolding on_first_error
error pc pt msg d =
    if ok d
    then on_first_error d.class
        (record d { error_pc = some pc; error_pt = pt; error_msg = some msg })
    else d

-- error(msg).
abbrev pub error_here : Message → Decoder → Decoder
error_here msg d = error d.pc none msg d

pub data ErrorCode : Type 0 where
  success generic_error out_of_memory end_of_code invalid_opcode unreachable_code : ErrorCode
  improper_continue improper_break return_count type_error invalid_local_index : ErrorCode
  invalid_global_index invalid_function_index invalid_mem_type : ErrorCode

pub record Result {ℓ} (A : Type ℓ) : Type ℓ where
  pub val : Option A
  pub error_code : ErrorCode
  pub start : Option ℕ
  pub error_pc : Option ℕ
  pub error_pt : Option ℕ
  pub error_msg : Option Message

abbrev pub is_success : ErrorCode → Bool
is_success success = true
is_success _ = false

-- Result::ok and Result::failed.
abbrev pub result_ok {ℓ} : {A : Type ℓ} → Result A → Bool
result_ok r = is_success r.error_code

abbrev pub result_failed {ℓ} : {A : Type ℓ} → Result A → Bool
result_failed r = not (is_success r.error_code)

-- Result().
unfoldable pub new_result {ℓ} : {A : Type ℓ} → Result A
new_result = record {
  val = none;
  error_code = success;
  start = none;
  error_pc = none;
  error_pt = none;
  error_msg = none;
}

-- CopyFrom: everything but the value.
unfoldable pub copy_from {ℓ κ} : {A : Type ℓ} {B : Type κ} → Result B → Result A → Result A
copy_from that r = record r {
  error_code = that.error_code;
  start = that.start;
  error_pc = that.error_pc;
  error_pt = that.error_pt;
  error_msg = that.error_msg;
}

-- toResult(val); the message is moved out of the decoder.
unfoldable pub to_result {ℓ} : {A : Type ℓ} → A → Decoder → Result A × Decoder
unfolding new_result
to_result val d =
    if failed d
    then (
      record new_result {
        error_code = generic_error;
        start = some d.start;
        error_pc = d.error_pc;
        error_pt = d.error_pt;
        error_msg = d.error_msg;
      },
      record d { error_msg = none },
    )
    else (record new_result { error_code = success; val = some val }, d)
