-- ===== src/FunctionBody/DecodeSteps.antt =====
-- Each opcode that LR_WasmDecoder of wasm/ast-decoder.cc decodes takes a byte at least.
use v8_native_prototype.Base.{ℕ, ◌≤◌, ◌≡◌, false, Option, none, some, arith, length, get_or}
use v8_native_prototype.Opcodes.Types.{FunctionSig, ast_stmt}
use v8_native_prototype.Opcodes.Enum.{
  WasmOpcode, nop, block, loop, if_op, if_else, select, br, br_if, table_switch, return,
  unreachable, i8_const, i32_const, i64_const, f32_const, f64_const, get_local, set_local,
  load_global, store_global, memory_size, grow_memory, call_function, call_indirect,
}
use v8_native_prototype.Opcodes.Table.{to_opcode, signature}
use v8_native_prototype.Decoder.State.{Message, ok, error, unknown_opcode}
use v8_native_prototype.WasmModule.Types.{FunctionEnv}
use v8_native_prototype.FunctionBody.State.{BodyState}
use v8_native_prototype.FunctionBody.Operands.{
  fail, local_operand, global_operand, function_sig_operand, sig_operand, memory_access_operand,
  unsigned_leb128_operand,
}
use v8_native_prototype.FunctionBody.Stack.{MemoryUse, load, store, no_access, shift}
use v8_native_prototype.FunctionBody.Decode.{
  decode_table_switch, decode_get_local, decode_set_local, decode_load_global, decode_store_global,
  decode_call_function, decode_call_indirect, decode_memory, decode_opcode, decode_other,
  decode_one, fail_here,
}

-- A length that the loop goes on with is at least 1; without one the decoder has failed.
abbrev pub IsStep : Option ℕ × BodyState → Type 0
IsStep (none, s) = ok s.d ≡ false
IsStep (some l, s) = 1 ≤ l

fail_ok : (msg : Message) (s : BodyState) → ok (fail_here msg s).d ≡ false
unfolding fail error
fail_ok msg s = ground arith

module _ (env : FunctionEnv) where
  decode_memory-IsStep : (m : MemoryUse) (s : BodyState) → IsStep (decode_memory env m s)
  unfolding decode_memory memory_access_operand unsigned_leb128_operand
  decode_memory-IsStep (load type) s = ground arith
  decode_memory-IsStep (store type) s = ground arith
  decode_memory-IsStep no_access s = fail_ok unknown_opcode s

  table_switch_length : (s : BodyState) → 1 ≤ (decode_table_switch env s).0
  unfolding decode_table_switch
  table_switch_length s = ground arith

  decode_opcode-IsStep : (op : WasmOpcode) (s : BodyState) → IsStep (decode_opcode env op s)
  unfolding decode_opcode decode_get_local decode_set_local decode_load_global decode_store_global
      decode_call_function decode_call_indirect local_operand global_operand function_sig_operand
      sig_operand unsigned_leb128_operand
  decode_opcode-IsStep table_switch s = table_switch_length s
  decode_opcode-IsStep get_local s = ground arith
  decode_opcode-IsStep set_local s = ground arith
  decode_opcode-IsStep load_global s = ground arith
  decode_opcode-IsStep store_global s = ground arith
  decode_opcode-IsStep call_function s = ground arith
  decode_opcode-IsStep call_indirect s = ground arith
  decode_opcode-IsStep nop s = omega arith
  decode_opcode-IsStep block s = omega arith
  decode_opcode-IsStep loop s = omega arith
  decode_opcode-IsStep if_op s = omega arith
  decode_opcode-IsStep if_else s = omega arith
  decode_opcode-IsStep select s = omega arith
  decode_opcode-IsStep br s = omega arith
  decode_opcode-IsStep br_if s = omega arith
  decode_opcode-IsStep return s = omega arith
  decode_opcode-IsStep unreachable s = omega arith
  decode_opcode-IsStep i8_const s = omega arith
  decode_opcode-IsStep i32_const s = omega arith
  decode_opcode-IsStep i64_const s = omega arith
  decode_opcode-IsStep f32_const s = omega arith
  decode_opcode-IsStep f64_const s = omega arith
  decode_opcode-IsStep memory_size s = omega arith
  decode_opcode-IsStep grow_memory s = omega arith
  decode_opcode-IsStep op s = decode_memory-IsStep _ s

  one-IsStep :
      (o : Option FunctionSig) (op : Option WasmOpcode) (s : BodyState)
      → IsStep (elim o as (λ x. Option ℕ × BodyState) [
        | none ↦ decode_other env op s
        | some sig ↦ (some 1, shift env (get_or sig.returns 0 ast_stmt) (length sig.params) s)
      ])
  unfolding decode_other
  one-IsStep none none s = fail_ok unknown_opcode s
  one-IsStep none (some op) s = decode_opcode-IsStep op s
  one-IsStep (some sig) op s = omega arith

  pub decode_one-IsStep : (s : BodyState) → IsStep (decode_one env s)
  unfolding decode_one
  decode_one-IsStep s =
      let opcode = get_or s.d.mem s.d.pc 0 in one-IsStep (signature opcode) (to_opcode opcode) s
