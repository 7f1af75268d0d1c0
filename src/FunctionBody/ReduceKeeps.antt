-- ===== src/FunctionBody/ReduceKeeps.antt =====
-- Reduce(Production*) of LR_WasmDecoder in wasm/ast-decoder.cc adds no trees and changes no production
-- but for its type.
use v8_native_prototype.Base.{◌-◌, refl, Option, none, some, get_or}
use v8_native_prototype.Opcodes.Types.{ast_i32}
use v8_native_prototype.Opcodes.Enum.{
  WasmOpcode, block, loop, if_op, if_else, select, br, br_if, table_switch, return, set_local,
  store_global, grow_memory, call_function, call_indirect,
}
use v8_native_prototype.Opcodes.Table.{to_opcode, signature}
use v8_native_prototype.WasmModule.Types.{FunctionEnv}
use v8_native_prototype.FunctionBody.State.{Production, index, last, BodyState, kill}
use v8_native_prototype.FunctionBody.Operands.{
  local_operand, global_operand, function_sig_operand, sig_operand, type_check_last, get_return,
}
use v8_native_prototype.FunctionBody.Reduce.{
  reduce_return, reduce_set_local, reduce_store_global, reduce_call_function, reduce_call_indirect,
}
use v8_native_prototype.FunctionBody.Stack.{
  MemoryUse, load, store, no_access, reduce_memory, reduce_opcode, reduce_other, reduce_production,
}
use v8_native_prototype.FunctionBody.Keeps.{
  Keeps, IsBody, Keeps-refl, Keeps-trans, and_then, if-Keeps, fail_unless-Keeps, quiet-Keeps,
  local_operand-Keeps, global_operand-Keeps, function_sig_operand-Keeps, sig_operand-Keeps,
  type_check_last-Keeps,
}
use v8_native_prototype.FunctionBody.BranchKeeps.{
  reduce_block-Keeps, reduce_loop_op-Keeps, reduce_if-Keeps, option-Keeps, reduce_if_else-Keeps,
  reduce_select-Keeps, reduce_br-Keeps, reduce_br_if-Keeps,
}
use v8_native_prototype.FunctionBody.SwitchKeeps.{reduce_table_switch-Keeps}

reduce_memory-Keeps :
    (m : MemoryUse) (p : Production) (s : BodyState) → IsBody s → Keeps s (reduce_memory m p s)
unfolding reduce_memory
reduce_memory-Keeps (load type) p s w = type_check_last-Keeps p ast_i32 s w
reduce_memory-Keeps (store type) p s w =
    if-Keeps _ (type_check_last-Keeps p ast_i32 s w) (type_check_last-Keeps p type s w)
reduce_memory-Keeps no_access p s w = Keeps-refl s

module _ (env : FunctionEnv) where
  reduce_return-Keeps :
      (p : Production) (s : BodyState) → IsBody s → Keeps s (reduce_return env p s)
  unfolding reduce_return kill
  reduce_return-Keeps p s w =
      let k = type_check_last-Keeps p (get_return env.sig (index p - 1)) s w in
      let s₁ = type_check_last p (get_return env.sig (index p - 1)) s in
      if-Keeps _ (Keeps-trans k (quiet-Keeps s₁ _ refl refl refl)) k

  reduce_set_local-Keeps :
      (p : Production) (s : BodyState) → IsBody s → Keeps s (reduce_set_local env p s)
  unfolding reduce_set_local
  reduce_set_local-Keeps p s w =
      let s₁ = (local_operand env p.pc s).2 in
      and_then w (local_operand-Keeps env p.pc s w)
        λ v. option-Keeps (last p) (Keeps-refl s₁) λ val. fail_unless-Keeps _ _ _ _ s₁ v

  reduce_store_global-Keeps :
      (p : Production) (s : BodyState) → IsBody s → Keeps s (reduce_store_global env p s)
  unfolding reduce_store_global
  reduce_store_global-Keeps p s w =
      let s₁ = (global_operand env p.pc s).2 in
      and_then w (global_operand-Keeps env p.pc s w)
        λ v. option-Keeps (last p) (Keeps-refl s₁) λ val. fail_unless-Keeps _ _ _ _ s₁ v

  reduce_call_function-Keeps :
      (p : Production) (s : BodyState) → IsBody s → Keeps s (reduce_call_function env p s)
  unfolding reduce_call_function
  reduce_call_function-Keeps p s w =
      let r = function_sig_operand env p.pc s in
      and_then w (function_sig_operand-Keeps env p.pc s w) λ v.
        option-Keeps r.0 (Keeps-refl r.2)
          λ f. if-Keeps _ (type_check_last-Keeps p _ r.2 v) (Keeps-refl r.2)

  reduce_call_indirect-Keeps :
      (p : Production) (s : BodyState) → IsBody s → Keeps s (reduce_call_indirect env p s)
  unfolding reduce_call_indirect
  reduce_call_indirect-Keeps p s w =
      let r = sig_operand env p.pc s in
      and_then w (sig_operand-Keeps env p.pc s w) λ v.
        if-Keeps _ (type_check_last-Keeps p ast_i32 r.2 v)
          (option-Keeps r.0 (Keeps-refl r.2) λ f. type_check_last-Keeps p _ r.2 v)

  reduce_opcode-Keeps :
      (op : WasmOpcode) (p : Production) (s : BodyState)
      → IsBody s
      → Keeps s (reduce_opcode env op p s)
  unfolding reduce_opcode
  reduce_opcode-Keeps block p s w = reduce_block-Keeps p s
  reduce_opcode-Keeps loop p s w = reduce_loop_op-Keeps p s
  reduce_opcode-Keeps if_op p s w = reduce_if-Keeps p s w
  reduce_opcode-Keeps if_else p s w = reduce_if_else-Keeps p s w
  reduce_opcode-Keeps select p s w = reduce_select-Keeps p s w
  reduce_opcode-Keeps br p s w = reduce_br-Keeps p s w
  reduce_opcode-Keeps br_if p s w = reduce_br_if-Keeps p s w
  reduce_opcode-Keeps table_switch p s w = reduce_table_switch-Keeps p s w
  reduce_opcode-Keeps return p s w = reduce_return-Keeps p s w
  reduce_opcode-Keeps set_local p s w = reduce_set_local-Keeps p s w
  reduce_opcode-Keeps store_global p s w = reduce_store_global-Keeps p s w
  reduce_opcode-Keeps grow_memory p s w = type_check_last-Keeps p ast_i32 s w
  reduce_opcode-Keeps call_function p s w = reduce_call_function-Keeps p s w
  reduce_opcode-Keeps call_indirect p s w = reduce_call_indirect-Keeps p s w
  reduce_opcode-Keeps op p s w = reduce_memory-Keeps _ p s w

  reduce_other-Keeps :
      (o : Option WasmOpcode) (p : Production) (s : BodyState)
      → IsBody s
      → Keeps s (reduce_other env o p s)
  unfolding reduce_other
  reduce_other-Keeps none p s w = Keeps-refl s
  reduce_other-Keeps (some op) p s w = reduce_opcode-Keeps op p s w

  -- Reduce(Production*) keeps the decoder's place, the trees, and the stack up to types, whatever the
  -- opcode is.
  pub reduce_production-Keeps :
      (p : Production) (s : BodyState) → IsBody s → Keeps s (reduce_production env p s)
  unfolding reduce_production
  reduce_production-Keeps p s w =
      let opcode = get_or s.d.mem p.pc 0 in
      option-Keeps (signature opcode) (reduce_other-Keeps (to_opcode opcode) p s w)
        λ sig. type_check_last-Keeps p _ s w
