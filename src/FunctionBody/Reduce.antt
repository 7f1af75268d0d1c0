-- ===== src/FunctionBody/Reduce.antt =====
-- Reduce(Production*) of LR_WasmDecoder in wasm/ast-decoder.cc: what happens after a child has been
-- added to the production on top of the stack. A read through a null pointer or out of an array is
-- undefined in the source; the model leaves the state alone there.
use v8_native_prototype.Base.{
  ℕ, ◌-◌, Bool, true, false, [], ◌∷◌, Option, none, some, length, get_elem?, ltb, ◌==◌,
  if◌then◌else◌,
}
use v8_native_prototype.Opcodes.Types.{LocalType, ast_stmt, ast_i32, ast_end}
use v8_native_prototype.Decoder.State.{
  improperly_nested_branch, select_operand_without_value, set_local_mismatch, store_global_mismatch,
}
use v8_native_prototype.WasmModule.Types.{FunctionEnv}
use v8_native_prototype.FunctionBody.State.{
  Tree, tree_type, tree_pc, Production, index, done, last, SsaState, unreachable, reached, go,
  Block, IfEnv, BodyState, same_type, env_state, set_env_state, is_reachable, kill, control_end,
  set_env, split, steal, goto, pop_block, pop_if, set_production_type, stack_position,
}
use v8_native_prototype.FunctionBody.Operands.{
  fail, operand_u8, local_operand, global_operand, function_sig_operand, sig_operand,
  type_check_last, get_param, get_return,
}

abbrev pub is_unreachable : SsaState → Bool
is_unreachable unreachable = true
is_unreachable _ = false

-- The type that a production gets in MergeIntoProduction, by its type, the type of the value, and
-- whether this is the first merge.
unfoldable pub merged_type : Bool → LocalType → LocalType → LocalType
unfolding same_type
merged_type first type value =
    if first then value else if same_type value type then type else ast_stmt

-- stack_[depth].tree->type.
unfoldable pub production_type : ℕ → BodyState → LocalType
unfolding stack_position
production_type depth s = elim (get_elem? s.stack (stack_position depth s)) [
  | none ↦ ast_stmt
  | some p ↦ p.type
]

-- MergeIntoProduction(&stack_[depth], target, expr).
unfoldable pub merge_into_production : ℕ → ℕ → Tree → BodyState → BodyState
merge_into_production depth target expr s =
    let first = is_unreachable (env_state s target) in
    let s₁ = goto s.ssa_env target s in
    let type = merged_type first (production_type depth s) (tree_type expr) in
    if is_reachable s
    then if same_type (tree_type expr) ast_end then s₁ else set_production_type depth type s₁
    else s

-- ReduceBreakToExprBlock(p, block).
unfoldable pub reduce_break_to_expr_block : Production → Block → BodyState → BodyState
reduce_break_to_expr_block p b s = elim b.stack_depth [
  | none ↦ goto s.ssa_env b.ssa_env s
  | some depth ↦ elim (last p) [
    | none ↦ s
    | some expr ↦ merge_into_production depth b.ssa_env expr s
  ]
]

-- blocks_[blocks_.size() - depth - 1].
unfoldable pub block_at : ℕ → BodyState → Option Block
block_at depth s = get_elem? s.blocks depth

-- A fall through to the innermost block, which is left: the end of a block, a loop or a switch.
unfoldable pub leave_block : Production → BodyState → BodyState
unfolding block_at
leave_block p s = elim (block_at 0 s) [
  | none ↦ s
  | some b ↦ pop_block (set_env b.ssa_env (reduce_break_to_expr_block p b s))
]

unfoldable pub reduce_block : Production → BodyState → BodyState
reduce_block p s = if done p then leave_block p s else s

-- The continue environment is left first.
unfoldable pub reduce_loop_op : Production → BodyState → BodyState
reduce_loop_op p s = if done p then leave_block p (pop_block s) else s

-- The true branch of an if without else is done.
unfoldable pub end_if : BodyState → BodyState
end_if s = elim s.ifs [
  | [] ↦ s
  | env ∷ rest ↦ elim env.merge_env [
    | none ↦ s
    | some merge ↦
        let s₁ =
          if go (env_state s merge)
          then goto s.ssa_env merge (set_env_state merge reached s)
          else s in
        pop_if (set_env merge s₁)
  ]
]

unfoldable pub reduce_if : Production → BodyState → BodyState
reduce_if p s =
    if index p == 1
    then (let s₁ = type_check_last p ast_i32 s in
        let false_env = s₁.ssa_env in
        let (true_env, s₂) = split false_env s₁ in
        let env : IfEnv = record { false_env = none; merge_env = some false_env; case_envs = [] } in
        set_env true_env (record s₂ { ifs = env ∷ s₂.ifs }))
    else if index p == 2
    then end_if s
    else s

-- The depth of the production on top of the stack.
unfoldable pub top_of : BodyState → ℕ
top_of s = length s.stack - 1

-- A branch of an if with else is done: its value goes to the production itself, and the decoder goes
-- on in the false branch or behind the if.
unfoldable pub end_branch : Production → Bool → BodyState → BodyState
unfolding top_of
end_branch p is_last s = elim s.ifs [
  | [] ↦ s
  | env ∷ rest ↦ elim env.merge_env [
    | none ↦ s
    | some merge ↦ elim (last p) [
      | none ↦ s
      | some expr ↦
          let s₁ = merge_into_production (top_of s) merge expr s in
          if is_last
          then pop_if (set_env merge s₁)
          else elim env.false_env [ none ↦ s₁ | some e ↦ set_env e s₁ ]
    ]
  ]
]

unfoldable pub reduce_if_else : Production → BodyState → BodyState
reduce_if_else p s =
    if index p == 1
    then (let s₁ = type_check_last p ast_i32 s in
        let merge_env = s₁.ssa_env in
        let (false_env, s₂) = split merge_env s₁ in
        let (true_env, s₃) = steal merge_env s₂ in
        let env : IfEnv = record {
          false_env = some false_env;
          merge_env = some merge_env;
          case_envs = [];
        } in
        set_env true_env (record s₃ { ifs = env ∷ s₃.ifs }))
    else if index p == 2
    then end_branch p false s
    else if index p == 3
    then end_branch p true s
    else s

unfoldable pub reduce_select : Production → BodyState → BodyState
unfolding top_of
reduce_select p s =
    if index p == 1
    then type_check_last p ast_i32 s
    else if index p == 2
    then elim (last p) [
      | none ↦ s
      | some t ↦
          let s₁ = set_production_type (top_of s) (tree_type t) s in
          if same_type (tree_type t) ast_stmt
          then fail p.pc (some (tree_pc t)) select_operand_without_value s₁
          else s₁
    ]
    else type_check_last p p.type s

-- A branch to the block that the operand names.
unfoldable pub reduce_br : Production → BodyState → BodyState
unfolding block_at
reduce_br p s =
    let (depth, s₁) = operand_u8 p.pc s in
    elim (block_at depth s₁) [
      | none ↦ fail s₁.d.pc none improperly_nested_branch s₁
      | some b ↦ reduce_break_to_expr_block p b s₁
    ]

-- The branch of br_if is taken in an environment of its own.
unfoldable pub branch_if : Production → Block → BodyState → BodyState
branch_if p b s =
    let false_env = s.ssa_env in
    let (true_env, s₁) = split false_env s in
    set_env false_env (reduce_break_to_expr_block p b (set_env true_env s₁))

unfoldable pub reduce_br_if : Production → BodyState → BodyState
unfolding block_at
reduce_br_if p s =
    let (depth, s₁) = operand_u8 p.pc s in
    if index p == 1
    then type_check_last p ast_i32 s
    else if done p
    then elim (block_at depth s₁) [
      | none ↦ fail s₁.d.pc none improperly_nested_branch s₁
      | some b ↦ branch_if p b s₁
    ]
    else s

module _ (env : FunctionEnv) where
  unfoldable pub reduce_return : Production → BodyState → BodyState
  reduce_return p s =
      let s₁ = type_check_last p (get_return env.sig (index p - 1)) s in
      if done p then kill s₁.ssa_env control_end s₁ else s₁

  unfoldable pub reduce_set_local : Production → BodyState → BodyState
  reduce_set_local p s =
      let (type, len, s₁) = local_operand env p.pc s in
      elim (last p) [
        | none ↦ s₁
        | some val ↦
            if same_type type (tree_type val)
            then s₁
            else fail p.pc (some (tree_pc val)) set_local_mismatch s₁
      ]

  unfoldable pub reduce_store_global : Production → BodyState → BodyState
  reduce_store_global p s =
      let (type, len, s₁) = global_operand env p.pc s in
      elim (last p) [
        | none ↦ s₁
        | some val ↦
            if same_type type (tree_type val)
            then s₁
            else fail p.pc (some (tree_pc val)) store_global_mismatch s₁
      ]

  unfoldable pub reduce_call_function : Production → BodyState → BodyState
  reduce_call_function p s =
      let (sig, len, s₁) = function_sig_operand env p.pc s in
      elim sig [
        | none ↦ s₁
        | some f ↦ if ltb 0 (index p) then type_check_last p (get_param f (index p - 1)) s₁ else s₁
      ]

  unfoldable pub reduce_call_indirect : Production → BodyState → BodyState
  reduce_call_indirect p s =
      let (sig, len, s₁) = sig_operand env p.pc s in
      if index p == 1
      then type_check_last p ast_i32 s₁
      else elim sig [ none ↦ s₁ | some f ↦ type_check_last p (get_param f (index p - 2)) s₁ ]
