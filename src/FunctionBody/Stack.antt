-- ===== src/FunctionBody/Stack.antt =====
-- The reductions of LR_WasmDecoder in wasm/ast-decoder.cc: Reduce(Production*) by the opcode, the loop
-- Reduce(Tree*), and Shift and Leaf.
use v8_native_prototype.Base.{
  ℕ, zero, suc, ◌-◌, true, false, List, [], ◌∷◌, Option, none, some, length, get_or, ◌==◌,
  if◌then◌else◌,
}
use v8_native_prototype.Opcodes.Types.{LocalType, ast_i32, ast_i64, ast_f32, ast_f64}
use v8_native_prototype.Opcodes.Enum.{
  WasmOpcode, block, loop, if_op, if_else, select, br, br_if, table_switch, return, set_local,
  store_global, i32_store_mem8, i32_store_mem16, i64_store_mem8, i64_store_mem16, i64_store_mem32,
  i32_store_mem, i64_store_mem, f32_store_mem, f64_store_mem, i32_load_mem8_s, i32_load_mem8_u,
  i32_load_mem16_s, i32_load_mem16_u, i64_load_mem8_s, i64_load_mem8_u, i64_load_mem16_s,
  i64_load_mem16_u, i64_load_mem32_s, i64_load_mem32_u, i32_load_mem, i64_load_mem, f32_load_mem,
  f64_load_mem, grow_memory, call_function, call_indirect,
}
use v8_native_prototype.Opcodes.Table.{to_opcode, signature}
use v8_native_prototype.WasmModule.Types.{FunctionEnv}
use v8_native_prototype.FunctionBody.State.{
  Tree, nil, snoc, Production, index, done, production_tree, BodyState,
}
use v8_native_prototype.FunctionBody.Operands.{type_check_last, get_param}
use v8_native_prototype.FunctionBody.Reduce.{
  reduce_block, reduce_loop_op, reduce_if, reduce_if_else, reduce_select, reduce_br, reduce_br_if,
  reduce_return, reduce_set_local, reduce_store_global, reduce_call_function, reduce_call_indirect,
}
use v8_native_prototype.FunctionBody.Switch.{reduce_table_switch}

-- What an opcode does with memory: the type of the value of a load, or of a store.
pub data MemoryUse : Type 0 where
  load store : LocalType → MemoryUse
  no_access : MemoryUse

unfoldable pub memory_use : WasmOpcode → MemoryUse
memory_use i32_load_mem8_s = load ast_i32
memory_use i32_load_mem8_u = load ast_i32
memory_use i32_load_mem16_s = load ast_i32
memory_use i32_load_mem16_u = load ast_i32
memory_use i32_load_mem = load ast_i32
memory_use i64_load_mem8_s = load ast_i64
memory_use i64_load_mem8_u = load ast_i64
memory_use i64_load_mem16_s = load ast_i64
memory_use i64_load_mem16_u = load ast_i64
memory_use i64_load_mem32_s = load ast_i64
memory_use i64_load_mem32_u = load ast_i64
memory_use i64_load_mem = load ast_i64
memory_use f32_load_mem = load ast_f32
memory_use f64_load_mem = load ast_f64
memory_use i32_store_mem8 = store ast_i32
memory_use i32_store_mem16 = store ast_i32
memory_use i32_store_mem = store ast_i32
memory_use i64_store_mem8 = store ast_i64
memory_use i64_store_mem16 = store ast_i64
memory_use i64_store_mem32 = store ast_i64
memory_use i64_store_mem = store ast_i64
memory_use f32_store_mem = store ast_f32
memory_use f64_store_mem = store ast_f64
memory_use _ = no_access

-- ReduceLoadMem and ReduceStoreMem.
unfoldable pub reduce_memory : MemoryUse → Production → BodyState → BodyState
reduce_memory (load type) p s = type_check_last p ast_i32 s
reduce_memory (store type) p s =
    if index p == 1 then type_check_last p ast_i32 s else type_check_last p type s
reduce_memory no_access p s = s

-- p->tree->children[p->index++] = tree.
unfoldable pub add_child : Tree → Production → Production
add_child t p = record p { children = snoc p.children t }

module _ (env : FunctionEnv) where
  -- The switch of Reduce(Production*).
  unfoldable pub reduce_opcode : WasmOpcode → Production → BodyState → BodyState
  reduce_opcode block p s = reduce_block p s
  reduce_opcode loop p s = reduce_loop_op p s
  reduce_opcode if_op p s = reduce_if p s
  reduce_opcode if_else p s = reduce_if_else p s
  reduce_opcode select p s = reduce_select p s
  reduce_opcode br p s = reduce_br p s
  reduce_opcode br_if p s = reduce_br_if p s
  reduce_opcode table_switch p s = reduce_table_switch p s
  reduce_opcode return p s = reduce_return env p s
  reduce_opcode set_local p s = reduce_set_local env p s
  reduce_opcode store_global p s = reduce_store_global env p s
  reduce_opcode grow_memory p s = type_check_last p ast_i32 s
  reduce_opcode call_function p s = reduce_call_function env p s
  reduce_opcode call_indirect p s = reduce_call_indirect env p s
  reduce_opcode op p s = reduce_memory (memory_use op) p s

  unfoldable pub reduce_other : Option WasmOpcode → Production → BodyState → BodyState
  reduce_other none p s = s
  reduce_other (some op) p s = reduce_opcode op p s

  -- Reduce(Production*): an opcode with a fixed signature, or the switch.
  unfoldable pub reduce_production : Production → BodyState → BodyState
  reduce_production p s =
      let opcode = get_or s.d.mem p.pc 0 in
      elim (signature opcode) [
        | none ↦ reduce_other (to_opcode opcode) p s
        | some sig ↦ type_check_last p (get_param sig (index p - 1)) s
      ]

  -- A round of Reduce(Tree*) for a stack that is not empty: the tree goes to the production on top.
  unfoldable pub reduce_round : Tree → Production → List Production → BodyState → BodyState
  unfolding add_child
  reduce_round t p rest s =
      reduce_production (add_child t p) (record s { stack = add_child t p ∷ rest })

  -- What follows in the round: the production on top is done, and is itself the tree of the next
  -- round, or the loop ends.
  unfoldable pub finish_round :
      (Tree → BodyState → BodyState) → List Production → BodyState → BodyState
  finish_round next [] s = s
  finish_round next (p ∷ rest) s = elim (done p) [
    | true ↦ next (production_tree p) (record s { stack = rest })
    | false ↦ s
  ]

  -- One round, by the stack.
  unfoldable pub round :
      (Tree → BodyState → BodyState) → Tree → List Production → BodyState → BodyState
  unfolding finish_round
  round next t [] s = record s { trees = t ∷ s.trees }
  round next t (p ∷ rest) s = let s₁ = reduce_round t p rest s in finish_round next s₁.stack s₁

  -- Reduce(Tree*). Each further round is for a stack that is one shorter, so the length of the stack
  -- is enough fuel for the rounds behind the first.
  unfoldable pub reduce_tree : ℕ → Tree → BodyState → BodyState
  reduce_tree zero t s = round (λ _ s'. s') t s.stack s
  reduce_tree (suc n) t s = round (reduce_tree n) t s.stack s

  unfoldable pub reduce : Tree → BodyState → BodyState
  reduce t s = reduce_tree (length s.stack) t s

  -- Leaf(type), at pc_.
  unfoldable pub leaf : LocalType → BodyState → BodyState
  leaf type s = reduce (Tree.tree type 0 s.d.pc nil) s

  -- Shift(type, count), at pc_. A production with no children is reduced where it stands, off the
  -- stack; only a call looks at its operand then.
  unfoldable pub shift : LocalType → ℕ → BodyState → BodyState
  shift type zero s =
      let p : Production = record { type = type; count = 0; pc = s.d.pc; children = nil } in
      reduce (production_tree p) (reduce_production p s)
  shift type (suc count) s = record s {
    stack = record { type = type; count = suc count; pc = s.d.pc; children = nil } ∷ s.stack;
  }
