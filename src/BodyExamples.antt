-- ===== src/BodyExamples.antt =====
-- The theorems on function bodies at concrete inputs, of the shapes that wasm/ast-decoder.cc decodes.
use v8_native_prototype.Base.{
  ℕ, ◌≡◌, refl, true, false, List, [], ◌∷◌, none, some, arith, ◌++◌, All, get_or,
}
use v8_native_prototype.Verification.{body_verifier, BodyAccepted, decode_wasm_module_sound}
use v8_native_prototype.ModuleDecoder.Entry.{decode_wasm_module, new_module_decoder, error_result}
use v8_native_prototype.ModuleDecoder.Module.{
  decode_module, decode_sections, decode_section, run_section, functions_section, initial_state,
  report_failure, verify_function_body, verify_functions, verify_step,
}
use v8_native_prototype.ModuleDecoder.Sections.{
  to_section, signatures_section, decode_counted, decode_entries, check_for_previous_section,
  data_segments_section, decode_table, error_copied, function_env, function_table_section,
  globals_section, memory_section,
}
use v8_native_prototype.ModuleDecoder.Items.{
  sig, decode_data_segment_in_module, decode_function_in_module, decode_global_in_module, has_bit,
  local_type, local_type_of, mem_type, mem_type_of, new_function, offset, param_type, read_body,
  read_local_counts, read_locals_and_body, read_name, sig_params, string, with_signature,
}
use v8_native_prototype.Opcodes.Types.{ast_i32}
use v8_native_prototype.Decoder.State.{
  ok, result_ok, new_decoder, reset, on_first_error, error, new_result, to_result, copy_from,
}
use v8_native_prototype.WasmModule.Types.{
  FunctionEnv, is_valid_local, get_local_type, sum_locals, WasmModule,
}
use v8_native_prototype.FunctionBody.Operands.{
  fail, half_word, operand_missing, check_operand, operand_u8, leb_error, unsigned_leb128_operand,
  has_offset, memory_access_operand, local_operand, global_operand, function_sig_operand,
  sig_operand, accepts, type_check_last, get_param, get_return,
}
use v8_native_prototype.FunctionBody.Reduce.{
  merged_type, production_type, merge_into_production, reduce_break_to_expr_block, block_at,
  leave_block, reduce_block, reduce_loop_op, end_if, reduce_if, top_of, end_branch, reduce_if_else,
  reduce_select, reduce_br, branch_if, reduce_br_if, reduce_return, reduce_set_local,
  reduce_store_global, reduce_call_function, reduce_call_indirect,
}
use v8_native_prototype.FunctionBody.Switch.{
  new_case_envs, target_env, goto_targets, begin_cases, next_case, end_cases, reduce_default_switch,
  reduce_table_switch,
}
use v8_native_prototype.Opcodes.Table.{
  find_opcode, to_opcode, signature, is_supported, load_store_opcode_of,
}
use v8_native_prototype.Opcodes.Rows.{simple_opcodes, other_opcodes}
use v8_native_prototype.Opcodes.Signatures.{sig_of, sig_enum, simple_sig, memory_sig}
use v8_native_prototype.Leb.Read.{
  leb_add, leb_loop, leb_end, leb_finish, read_unsigned_leb128_operand,
}
use v8_native_prototype.Decoder.Reads.{
  u32v_loop, u32v_end, check_available, u8, u32v, u32v_body, join_u16, join_u32, trace_off_end, u16,
  u32, u32v_finish,
}
use v8_native_prototype.FunctionBody.State.{
  Tree, tree, nil, snoc, BodyState, done, last, go, type_code, same_type, env_state, set_env_state,
  new_env, is_reachable, kill, set_env, split, unreachable_env, steal, merged_state, goto,
  prepare_for_loop, top_depth, push_block, pop_block, pop_if, stack_position, set_production_type,
}
use v8_native_prototype.FunctionBody.Stack.{
  reduce_tree, memory_use, reduce_memory, add_child, reduce_opcode, reduce_other, reduce_production,
  reduce_round, finish_round, round, reduce, leaf, shift,
}
use v8_native_prototype.FunctionBody.Decode.{
  init_ssa_env, begin_block, push_continue, begin_loop, verify_target, verify_table, call_type,
  check_bytes, decode_block, decode_loop, decode_branch, decode_table_switch, decode_return,
  decode_unreachable, decode_get_local, decode_set_local, decode_load_global, decode_store_global,
  decode_call_function, decode_call_indirect, decode_memory, decode_opcode, decode_other,
  decode_one,
}
use v8_native_prototype.FunctionBody.Body.{
  start_body, decode_function_body, run_body, first_tree, verify_wasm_code, advance, check_end,
  after_opcode, check_returns, check_closed, body_loop, add_implicit_return, check_fall_through,
  check_trees, finish_body, decode,
}
use v8_native_prototype.FunctionBody.StackLaws.{reduce_tree-fuel}
use v8_native_prototype.FunctionBody.OpcodeInfo.{
  opcode_length, opcode_arity, arity_of_other, arity_of, row_arity,
}
use v8_native_prototype.FunctionBody.Keeps.{frames}
use v8_native_prototype.FunctionBody.OpcodePushes.{waiting}
use v8_native_prototype.FunctionBody.OpcodeArity.{IsNoCallByte, decode_one-opcode_arity}
use v8_native_prototype.FunctionBody.OpcodeLength.{IsPlainOpcode, decode_one-opcode_length}
use v8_native_prototype.Leb.ReadLaws.{IsByte}
use v8_native_prototype.Opcodes.Enum.{i32_add}
use v8_native_prototype.Opcodes.Types.{FunctionSig}
use v8_native_prototype.FunctionBody.OpcodeRows.{opcode_row, begun, decode_one-begun}
use v8_native_prototype.FunctionBody.Sound.{Accepted, verify_wasm_code_sound}

-- A function from an i32 to an i32, with no locals.
abbrev increment_env : FunctionEnv
increment_env = record {
  module_env = record { wasm_module = none; asm_js = false };
  sig = record { params = ast_i32 ∷ []; returns = ast_i32 ∷ [] };
  local_int32_count = 0;
  local_int64_count = 0;
  local_float32_count = 0;
  local_float64_count = 0;
  total_locals = 1;
}

-- I32Add of GetLocal 0 and I8Const 5, in a block of one expression.
abbrev increment_body : List ℕ
increment_body = 0x01 ∷ 1 ∷ 0x40 ∷ 0x0e ∷ 0 ∷ 0x09 ∷ 5 ∷ []

increment_accepted : result_ok (verify_wasm_code increment_env increment_body 0 0 7) ≡ true
unfolding done last go type_code same_type env_state set_env_state new_env is_reachable kill set_env
    split unreachable_env steal merged_state goto prepare_for_loop top_depth push_block pop_block
    pop_if stack_position set_production_type fail half_word operand_missing check_operand
    operand_u8 leb_error unsigned_leb128_operand has_offset memory_access_operand local_operand
    global_operand function_sig_operand sig_operand accepts type_check_last get_param get_return
    merged_type production_type merge_into_production reduce_break_to_expr_block block_at
    leave_block reduce_block reduce_loop_op end_if reduce_if top_of end_branch reduce_if_else
    reduce_select reduce_br branch_if reduce_br_if new_case_envs target_env goto_targets begin_cases
    next_case end_cases reduce_default_switch reduce_table_switch reduce_return reduce_set_local
    reduce_store_global reduce_call_function reduce_call_indirect memory_use reduce_memory add_child
    reduce_opcode reduce_other reduce_production reduce_round finish_round round reduce_tree reduce
    leaf shift init_ssa_env begin_block push_continue begin_loop verify_target verify_table
    call_type check_bytes advance check_end after_opcode check_returns start_body check_closed
    decode_block decode_loop decode_branch decode_table_switch decode_return decode_unreachable
    decode_get_local decode_set_local decode_load_global decode_store_global decode_call_function
    decode_call_indirect decode_memory decode_opcode decode_other decode_one body_loop
    decode_function_body add_implicit_return check_fall_through check_trees finish_body run_body
    decode verify_wasm_code find_opcode to_opcode signature is_supported load_store_opcode_of
    simple_opcodes other_opcodes sig_of sig_enum simple_sig memory_sig leb_add leb_loop leb_end
    leb_finish read_unsigned_leb128_operand new_decoder reset on_first_error error new_result
    to_result check_available is_valid_local get_local_type
increment_accepted = refl

verify_wasm_code_sound_example :
    let s = decode_function_body increment_env (start_body increment_body 0 7) in
    let r = verify_wasm_code increment_env increment_body 0 0 7 in
    Accepted increment_env increment_body 7 s × (r.val ≡ some (first_tree s.trees))
verify_wasm_code_sound_example =
    verify_wasm_code_sound increment_env increment_body 0 0 7 (omega arith) increment_accepted

abbrev five : Tree
five = tree ast_i32 0 5 nil

-- The state in which the second operand of the addition is reduced.
abbrev open_addition : BodyState
open_addition = record (start_body increment_body 0 7) {
  stack =
      record { type = ast_i32; count = 2; pc = 2; children = snoc nil (tree ast_i32 0 3 nil) } ∷ [];
}

reduce_tree-fuel_example :
    reduce_tree increment_env 1 five open_addition ≡ reduce_tree increment_env 4 five open_addition
unfolding start_body init_ssa_env reset new_decoder
reduce_tree-fuel_example =
    reduce_tree-fuel increment_env 1 4 five open_addition refl (omega arith) (omega arith)

-- A module of one signature and one function, whose body is GetLocal 0.
abbrev small_module : List ℕ
small_module = (1 ∷ 1 ∷ 1 ∷ 1 ∷ 1 ∷ []) ++ (2 ∷ 1 ∷ 0 ∷ 0 ∷ 0 ∷ 2 ∷ 0 ∷ 14 ∷ 0 ∷ 6 ∷ [])

small_module_accepted :
    result_ok (decode_wasm_module body_verifier true false small_module 0 15) ≡ true
unfolding body_verifier decode_wasm_module decode_module to_result decode_sections
    new_module_decoder decode_section run_section to_section u8 signatures_section decode_counted
    decode_entries u32v check_for_previous_section u32v_body u32v_loop u32v_end leb_loop leb_add sig
    check_available join_u16 join_u32 trace_off_end u16 u32 u32v_finish copy_from error new_decoder
    new_result on_first_error leb_end error_result decode_data_segment_in_module
    decode_function_in_module decode_global_in_module has_bit local_type local_type_of mem_type
    mem_type_of new_function offset param_type read_body read_local_counts read_locals_and_body
    read_name sig_params string with_signature functions_section initial_state report_failure
    verify_function_body verify_functions verify_step data_segments_section decode_table
    error_copied function_env function_table_section globals_section memory_section sum_locals done
    last go type_code same_type env_state set_env_state new_env is_reachable kill set_env split
    unreachable_env steal merged_state goto prepare_for_loop top_depth push_block pop_block pop_if
    stack_position set_production_type fail half_word operand_missing check_operand operand_u8
    leb_error unsigned_leb128_operand has_offset memory_access_operand local_operand global_operand
    function_sig_operand sig_operand accepts type_check_last get_param get_return merged_type
    production_type merge_into_production reduce_break_to_expr_block block_at leave_block
    reduce_block reduce_loop_op end_if reduce_if top_of end_branch reduce_if_else reduce_select
    reduce_br branch_if reduce_br_if new_case_envs target_env goto_targets begin_cases next_case
    end_cases reduce_default_switch reduce_table_switch reduce_return reduce_set_local
    reduce_store_global reduce_call_function reduce_call_indirect memory_use reduce_memory add_child
    reduce_opcode reduce_other reduce_production reduce_round finish_round round reduce_tree reduce
    leaf shift init_ssa_env begin_block push_continue begin_loop verify_target verify_table
    call_type check_bytes advance check_end after_opcode check_returns start_body check_closed
    decode_block decode_loop decode_branch decode_table_switch decode_return decode_unreachable
    decode_get_local decode_set_local decode_load_global decode_store_global decode_call_function
    decode_call_indirect decode_memory decode_opcode decode_other decode_one body_loop
    decode_function_body add_implicit_return check_fall_through check_trees finish_body run_body
    decode verify_wasm_code find_opcode to_opcode signature is_supported load_store_opcode_of
    simple_opcodes other_opcodes sig_of sig_enum simple_sig memory_sig leb_finish
    read_unsigned_leb128_operand reset is_valid_local get_local_type
small_module_accepted = refl

decode_wasm_module_sound_example :
    let r = decode_wasm_module body_verifier true false small_module 0 15 in
    (m : WasmModule) × (r.val ≡ some m)
    × (m' : WasmModule) × (m'.functions ≡ m.functions)
    × All
        (BodyAccepted (record { wasm_module = some m'; asm_js = false }) small_module 0)
        m.functions
decode_wasm_module_sound_example =
    decode_wasm_module_sound false small_module 0 15 small_module_accepted

-- The body above, with the decoder at GetLocal 0.
abbrev at_get_local : BodyState
at_get_local = let s = start_body increment_body 0 7 in record s { d = record s.d { pc = 3 } }

at_get_local_decoded : ok (decode_one increment_env at_get_local).1.d ≡ true
unfolding done last go type_code same_type env_state set_env_state new_env is_reachable kill set_env
    split unreachable_env steal merged_state goto prepare_for_loop top_depth push_block pop_block
    pop_if stack_position set_production_type fail half_word operand_missing check_operand
    operand_u8 leb_error unsigned_leb128_operand has_offset memory_access_operand local_operand
    global_operand function_sig_operand sig_operand accepts type_check_last get_param get_return
    merged_type production_type merge_into_production reduce_break_to_expr_block block_at
    leave_block reduce_block reduce_loop_op end_if reduce_if top_of end_branch reduce_if_else
    reduce_select reduce_br branch_if reduce_br_if new_case_envs target_env goto_targets begin_cases
    next_case end_cases reduce_default_switch reduce_table_switch reduce_return reduce_set_local
    reduce_store_global reduce_call_function reduce_call_indirect memory_use reduce_memory add_child
    reduce_opcode reduce_other reduce_production reduce_round finish_round round reduce_tree reduce
    leaf shift init_ssa_env begin_block push_continue begin_loop verify_target verify_table
    call_type check_bytes advance check_end after_opcode check_returns start_body check_closed
    decode_block decode_loop decode_branch decode_table_switch decode_return decode_unreachable
    decode_get_local decode_set_local decode_load_global decode_store_global decode_call_function
    decode_call_indirect decode_memory decode_opcode decode_other decode_one body_loop
    decode_function_body add_implicit_return check_fall_through check_trees finish_body run_body
    decode verify_wasm_code find_opcode to_opcode signature is_supported load_store_opcode_of
    simple_opcodes other_opcodes sig_of sig_enum simple_sig memory_sig leb_add leb_loop leb_end
    leb_finish read_unsigned_leb128_operand new_decoder reset on_first_error error new_result
    to_result check_available is_valid_local get_local_type
at_get_local_decoded = refl

at_get_local_IsPlain :
    let d = at_get_local.d in IsPlainOpcode (to_opcode (get_or d.mem d.pc 0)) d.mem d.pc
unfolding start_body init_ssa_env reset new_decoder to_opcode find_opcode simple_opcodes
    other_opcodes memory_use
at_get_local_IsPlain = _

at_get_local_IsByte : All IsByte at_get_local.d.mem
unfolding start_body init_ssa_env reset new_decoder
at_get_local_IsByte = ground arith

decode_one-opcode_length_example :
    let d = at_get_local.d in
    (decode_one increment_env at_get_local).0 ≡ some (opcode_length d.mem d.pc)
unfolding start_body init_ssa_env reset new_decoder
decode_one-opcode_length_example =
    decode_one-opcode_length increment_env at_get_local refl at_get_local_IsByte
      at_get_local_IsPlain at_get_local_decoded

-- The body above, with the decoder at I32Add.
abbrev at_addition : BodyState
at_addition = let s = start_body increment_body 0 7 in record s { d = record s.d { pc = 2 } }

at_addition_decoded : ok (decode_one increment_env at_addition).1.d ≡ true
unfolding done last go type_code same_type env_state set_env_state new_env is_reachable kill set_env
    split unreachable_env steal merged_state goto prepare_for_loop top_depth push_block pop_block
    pop_if stack_position set_production_type fail half_word operand_missing check_operand
    operand_u8 leb_error unsigned_leb128_operand has_offset memory_access_operand local_operand
    global_operand function_sig_operand sig_operand accepts type_check_last get_param get_return
    merged_type production_type merge_into_production reduce_break_to_expr_block block_at
    leave_block reduce_block reduce_loop_op end_if reduce_if top_of end_branch reduce_if_else
    reduce_select reduce_br branch_if reduce_br_if new_case_envs target_env goto_targets begin_cases
    next_case end_cases reduce_default_switch reduce_table_switch reduce_return reduce_set_local
    reduce_store_global reduce_call_function reduce_call_indirect memory_use reduce_memory add_child
    reduce_opcode reduce_other reduce_production reduce_round finish_round round reduce_tree reduce
    leaf shift init_ssa_env begin_block push_continue begin_loop verify_target verify_table
    call_type check_bytes advance check_end after_opcode check_returns start_body check_closed
    decode_block decode_loop decode_branch decode_table_switch decode_return decode_unreachable
    decode_get_local decode_set_local decode_load_global decode_store_global decode_call_function
    decode_call_indirect decode_memory decode_opcode decode_other decode_one body_loop
    decode_function_body add_implicit_return check_fall_through check_trees finish_body run_body
    decode verify_wasm_code find_opcode to_opcode signature is_supported load_store_opcode_of
    simple_opcodes other_opcodes sig_of sig_enum simple_sig memory_sig leb_add leb_loop leb_end
    leb_finish read_unsigned_leb128_operand new_decoder reset on_first_error error new_result
    to_result check_available is_valid_local get_local_type
at_addition_decoded = refl

at_addition_IsNoCall : let d = at_addition.d in IsNoCallByte (to_opcode (get_or d.mem d.pc 0))
unfolding start_body init_ssa_env reset new_decoder to_opcode find_opcode simple_opcodes
    other_opcodes
at_addition_IsNoCall = _

at_addition_IsByte : All IsByte at_addition.d.mem
unfolding start_body init_ssa_env reset new_decoder
at_addition_IsByte = ground arith

at_addition_arity : let d = at_addition.d in opcode_arity increment_env d.mem d.pc ≡ some 2
unfolding start_body init_ssa_env reset new_decoder to_opcode find_opcode simple_opcodes
    other_opcodes opcode_arity arity_of_other arity_of row_arity memory_sig simple_sig sig_of
at_addition_arity = refl

decode_one-opcode_arity_example :
    frames (decode_one increment_env at_addition).1.stack
    ≡ waiting 2 at_addition.d.pc ∷ frames at_addition.stack
unfolding start_body init_ssa_env reset new_decoder
decode_one-opcode_arity_example =
    decode_one-opcode_arity increment_env 1 at_addition refl at_addition_IsByte at_addition_IsNoCall
      at_addition_arity at_addition_decoded

at_addition_opcode : to_opcode (get_or at_addition.d.mem at_addition.d.pc 0) ≡ some i32_add
unfolding start_body init_ssa_env reset new_decoder to_opcode find_opcode simple_opcodes
    other_opcodes
at_addition_opcode = refl

abbrev two_to_one : FunctionSig
two_to_one = record { returns = ast_i32 ∷ []; params = ast_i32 ∷ ast_i32 ∷ [] }

i32_add_row : opcode_row i32_add ≡ some two_to_one
unfolding simple_sig sig_of
i32_add_row = refl

decode_one-begun_example :
    (decode_one increment_env at_addition).1.stack
    ≡ begun two_to_one at_addition.d.pc ∷ at_addition.stack
unfolding start_body init_ssa_env reset new_decoder
decode_one-begun_example =
    decode_one-begun increment_env i32_add two_to_one at_addition refl at_addition_IsByte
      at_addition_opcode i32_add_row (omega arith) at_addition_decoded
