-- ===== src/FunctionBody/Decode.antt =====
-- DecodeFunctionBody of LR_WasmDecoder in wasm/ast-decoder.cc, by the opcode.
use v8_native_prototype.Base.{
  ℕ, zero, suc, ◌+◌, ◌-◌, ◌*◌, Bool, not, [], ◌∷◌, Option, none, some, length, get_or, ltb, leb,
  ◌==◌, if◌then◌else◌,
}
use v8_native_prototype.Opcodes.Types.{
  FunctionSig, LocalType, ast_stmt, ast_i32, ast_i64, ast_f32, ast_f64, ast_end,
}
use v8_native_prototype.Opcodes.Enum.{
  WasmOpcode, nop, block, loop, if_op, if_else, select, br, br_if, table_switch, return, i8_const,
  i32_const, i64_const, f32_const, f64_const, get_local, set_local, load_global, store_global,
  memory_size, grow_memory, call_function, call_indirect,
}
use v8_native_prototype.Opcodes.Table.{to_opcode, signature}
use v8_native_prototype.Decoder.State.{
  Message, improperly_nested_branch, improperly_nested_conditional_branch, unknown_opcode,
  expected_table_switch, table_switch_without_entries, improper_branch_in_table_switch,
  invalid_case_target,
}
use v8_native_prototype.Decoder.Reads.{check_available}
use v8_native_prototype.WasmModule.Types.{FunctionEnv}
use v8_native_prototype.FunctionBody.State.{
  BodyState, reached, control_end, set_env_state, is_reachable, kill, set_env, split, steal,
  prepare_for_loop, push_block,
}
use v8_native_prototype.FunctionBody.Operands.{
  fail, half_word, operand_u8, check_operand, local_operand, global_operand, function_sig_operand,
  sig_operand, memory_access_operand,
}
use v8_native_prototype.FunctionBody.Stack.{
  MemoryUse, load, store, no_access, memory_use, leaf, shift,
}

-- error(msg), at pc_.
abbrev pub fail_here : Message → BodyState → BodyState
fail_here msg s = fail s.d.pc none msg s

-- InitSsaEnv, which gives the first environment.
unfoldable pub init_ssa_env : BodyState → BodyState
init_ssa_env s = record s { envs = reached ∷ []; ssa_env = 0 }

-- The case kExprBlock behind its length.
unfoldable pub begin_block : BodyState → BodyState
begin_block s =
    let break_env = s.ssa_env in
    let (inner, s₁) = steal break_env (push_block break_env s) in set_env inner s₁

-- The block of the continue environment, which has no production.
unfoldable pub push_continue : ℕ → BodyState → BodyState
push_continue e s = record s { blocks = record { ssa_env = e; stack_depth = none } ∷ s.blocks }

-- The case kExprLoop behind its length.
unfoldable pub begin_loop : BodyState → BodyState
begin_loop s =
    let break_env = s.ssa_env in
    let (cont_env, s₁) = steal break_env (push_block break_env s) in
    let (inner, s₂) = split cont_env (prepare_for_loop cont_env s₁) in
    let s₃ = set_env inner s₂ in
    push_continue cont_env (if is_reachable s₃ then set_env_state inner reached s₃ else s₃)

-- The check of one entry of the table of a switch, at its place.
unfoldable pub verify_target : ℕ → ℕ → BodyState → BodyState
verify_target case_count p s =
    let target = half_word s.d.mem p in
    if leb 0x8000 target
    then if ltb (length s.blocks) (target - 0x8000)
      then fail p none improper_branch_in_table_switch s
      else s
    else if leb case_count target
    then fail p none invalid_case_target s
    else s

-- The loop over the table; the first number is how many entries are still to come.
unfoldable pub verify_table : ℕ → ℕ → ℕ → BodyState → BodyState
verify_table zero case_count p s = s
verify_table (suc n) case_count p s =
    verify_table n case_count (p + 2) (verify_target case_count p s)

-- The type of a call of a signature.
unfoldable pub call_type : FunctionSig → LocalType
call_type sig = get_or sig.returns 0 ast_stmt

-- checkAvailable(size) in the state.
unfoldable pub check_bytes : ℕ → BodyState → Bool × BodyState
unfolding check_available
check_bytes size s = let (b, d) = check_available size s.d in (b, record s { d = d })

-- A length that is known.
abbrev pub some_length : ℕ × BodyState → Option ℕ × BodyState
some_length r = (some r.0, r.1)

module _ (env : FunctionEnv) where
  unfoldable pub decode_block : BodyState → BodyState
  decode_block s =
      let (length, s₁) = operand_u8 s.d.pc s in
      if ltb length 1 then leaf env ast_stmt s₁ else begin_block (shift env ast_end length s₁)

  unfoldable pub decode_loop : BodyState → BodyState
  decode_loop s =
      let (length, s₁) = operand_u8 s.d.pc s in
      if ltb length 1 then leaf env ast_stmt s₁ else begin_loop (shift env ast_end length s₁)

  -- The cases kExprBr and kExprBrIf: the type, the number of operands, and the message.
  unfoldable pub decode_branch : LocalType → ℕ → Message → BodyState → BodyState
  decode_branch type count msg s =
      let (depth, s₁) = operand_u8 s.d.pc s in
      let s₂ = shift env type count s₁ in
      if leb (length s₂.blocks) depth then fail_here msg s₂ else s₂

  -- The case kExprTableSwitch, with the length of the opcode.
  unfoldable pub decode_table_switch : BodyState → ℕ × BodyState
  decode_table_switch s =
      let (available, s₁) = check_bytes 5 s in
      let case_count = half_word s.d.mem (s.d.pc + 1) in
      let table_count = half_word s.d.mem (s.d.pc + 3) in
      let len = 5 + table_count * 2 in
      let (whole, s₂) = check_bytes len s₁ in
      if not available
      then (1, fail_here expected_table_switch s₁)
      else if table_count == 0
      then (len, fail_here table_switch_without_entries s₁)
      else if not whole
      then (len, fail_here expected_table_switch s₂)
      else (
        len,
        verify_table table_count case_count (s.d.pc + 5) (shift env ast_end (1 + case_count) s₂),
      )

  -- A return without a value ends the environment, and is a leaf.
  unfoldable pub decode_return : BodyState → BodyState
  decode_return s =
      let count = length env.sig.returns in
      if count == 0
      then leaf env ast_end (kill s.ssa_env control_end s)
      else shift env ast_end count s

  unfoldable pub decode_unreachable : BodyState → BodyState
  decode_unreachable s = leaf env ast_end (kill s.ssa_env control_end s)

  unfoldable pub decode_get_local : BodyState → ℕ × BodyState
  decode_get_local s = let (type, len, s₁) = local_operand env s.d.pc s in (len, leaf env type s₁)

  unfoldable pub decode_set_local : BodyState → ℕ × BodyState
  decode_set_local s =
      let (type, len, s₁) = local_operand env s.d.pc s in (len, shift env type 1 s₁)

  unfoldable pub decode_load_global : BodyState → ℕ × BodyState
  decode_load_global s =
      let (type, len, s₁) = global_operand env s.d.pc s in (len, leaf env type s₁)

  unfoldable pub decode_store_global : BodyState → ℕ × BodyState
  decode_store_global s =
      let (type, len, s₁) = global_operand env s.d.pc s in (len, shift env type 1 s₁)

  unfoldable pub decode_call_function : BodyState → ℕ × BodyState
  decode_call_function s =
      let (sig, len, s₁) = function_sig_operand env s.d.pc s in
      (
        len,
        elim sig [
          | none ↦ leaf env ast_i32 s₁
          | some f ↦ shift env (call_type f) (length f.params) s₁
        ],
      )

  unfoldable pub decode_call_indirect : BodyState → ℕ × BodyState
  decode_call_indirect s =
      let (sig, len, s₁) = sig_operand env s.d.pc s in
      (
        len,
        elim sig [
          | none ↦ leaf env ast_i32 s₁
          | some f ↦ shift env (call_type f) (1 + length f.params) s₁
        ],
      )

  -- DecodeLoadMem and DecodeStoreMem; no other opcode is left.
  unfoldable pub decode_memory : MemoryUse → BodyState → Option ℕ × BodyState
  decode_memory (load type) s =
      let (len, s₁) = memory_access_operand s.d.pc s in (some len, shift env type 1 s₁)
  decode_memory (store type) s =
      let (len, s₁) = memory_access_operand s.d.pc s in (some len, shift env type 2 s₁)
  decode_memory no_access s = (none, fail_here unknown_opcode s)

  -- The switch of DecodeFunctionBody: the length of the opcode, `none` where the loop is left at once.
  unfoldable pub decode_opcode : WasmOpcode → BodyState → Option ℕ × BodyState
  decode_opcode nop s = (some 1, leaf env ast_stmt s)
  decode_opcode block s = (some 2, decode_block s)
  decode_opcode loop s = (some 2, decode_loop s)
  decode_opcode if_op s = (some 1, shift env ast_stmt 2 s)
  decode_opcode if_else s = (some 1, shift env ast_end 3 s)
  decode_opcode select s = (some 1, shift env ast_stmt 3 s)
  decode_opcode br s = (some 2, decode_branch ast_end 1 improperly_nested_branch s)
  decode_opcode br_if s = (some 2, decode_branch ast_stmt 2 improperly_nested_conditional_branch s)
  decode_opcode table_switch s = some_length (decode_table_switch s)
  decode_opcode return s = (some 1, decode_return s)
  decode_opcode WasmOpcode.unreachable s = (some 1, decode_unreachable s)
  decode_opcode i8_const s = (some 2, leaf env ast_i32 (check_operand 1 s.d.pc s))
  decode_opcode i32_const s = (some 5, leaf env ast_i32 (check_operand 4 s.d.pc s))
  decode_opcode i64_const s = (some 9, leaf env ast_i64 (check_operand 8 s.d.pc s))
  decode_opcode f32_const s = (some 5, leaf env ast_f32 (check_operand 4 s.d.pc s))
  decode_opcode f64_const s = (some 9, leaf env ast_f64 (check_operand 8 s.d.pc s))
  decode_opcode get_local s = some_length (decode_get_local s)
  decode_opcode set_local s = some_length (decode_set_local s)
  decode_opcode load_global s = some_length (decode_load_global s)
  decode_opcode store_global s = some_length (decode_store_global s)
  decode_opcode memory_size s = (some 1, leaf env ast_i32 s)
  decode_opcode grow_memory s = (some 1, shift env ast_i32 1 s)
  decode_opcode call_function s = some_length (decode_call_function s)
  decode_opcode call_indirect s = some_length (decode_call_indirect s)
  decode_opcode op s = decode_memory (memory_use op) s

  unfoldable pub decode_other : Option WasmOpcode → BodyState → Option ℕ × BodyState
  decode_other none s = (none, fail_here unknown_opcode s)
  decode_other (some op) s = decode_opcode op s

  -- The opcode at pc_: one with a fixed signature, or the switch.
  unfoldable pub decode_one : BodyState → Option ℕ × BodyState
  decode_one s =
      let opcode = get_or s.d.mem s.d.pc 0 in
      elim (signature opcode) [
        | none ↦ decode_other (to_opcode opcode) s
        | some sig ↦ (some 1, shift env (get_or sig.returns 0 ast_stmt) (length sig.params) s)
      ]
