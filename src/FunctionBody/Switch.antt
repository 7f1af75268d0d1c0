-- ===== src/FunctionBody/Switch.antt =====
-- Reduce(Production*) of LR_WasmDecoder in wasm/ast-decoder.cc for the switch.
use v8_native_prototype.Base.{
  ℕ, zero, suc, ◌+◌, ◌-◌, List, [], ◌∷◌, Option, none, some, get_elem?, leb, ◌==◌, if◌then◌else◌,
}
use v8_native_prototype.Opcodes.Types.{ast_i32}
use v8_native_prototype.FunctionBody.State.{
  Production, index, done, IfEnv, BodyState, is_reachable, set_env, split, unreachable_env, steal,
  goto, push_block, pop_if,
}
use v8_native_prototype.FunctionBody.Operands.{half_word, type_check_last}
use v8_native_prototype.FunctionBody.Reduce.{block_at, leave_block}

-- The environments of the cases, all unreachable; the number is how many are still to come.
unfoldable pub new_case_envs : ℕ → BodyState → List ℕ × BodyState
new_case_envs zero s = ([], s)
new_case_envs (suc n) s =
    let (e, s₁) = unreachable_env s in let (es, s₂) = new_case_envs n s₁ in (e ∷ es, s₂)

-- The environment that an entry of the table leads to.
unfoldable pub target_env : List ℕ → ℕ → BodyState → Option ℕ
unfolding block_at
target_env case_envs target s =
    if leb 0x8000 target
    then elim (block_at (target - 0x8000) s) [ none ↦ none | some b ↦ some b.ssa_env ]
    else get_elem? case_envs target

-- The loop over the table; the number is how many entries are still to come.
unfoldable pub goto_targets : ℕ → ℕ → List ℕ → ℕ → BodyState → BodyState
goto_targets zero copy case_envs p s = s
goto_targets (suc n) copy case_envs p s =
    let (e, s₁) = split copy s in
    let s₂ = elim (target_env case_envs (half_word s.d.mem p) s₁) as (λ t. BodyState) [
      | none ↦ s₁
      | some t ↦ goto e t s₁
    ] in
    goto_targets n copy case_envs (p + 2) s₂

-- The key of a switch with several targets is done. With no cases there is no first one to go to.
unfoldable pub begin_cases : Production → ℕ → BodyState → BodyState
begin_cases p table_count s =
    let s₁ = type_check_last p ast_i32 s in
    let (case_envs, s₂) = new_case_envs (half_word s.d.mem (p.pc + 1)) s₁ in
    let env : IfEnv = record { false_env = none; merge_env = none; case_envs = case_envs } in
    let break_env = s₂.ssa_env in
    let s₃ = push_block break_env (record s₂ { ifs = env ∷ s₂.ifs }) in
    let (copy, s₄) = steal break_env s₃ in
    let s₅ = goto_targets table_count copy case_envs (p.pc + 5) (record s₄ { ssa_env = copy }) in
    elim case_envs [ [] ↦ s₅ | e ∷ es ↦ set_env e s₅ ]

-- A case that is not the last one is done.
unfoldable pub next_case : Production → BodyState → BodyState
next_case p s = elim s.ifs [
  | [] ↦ s
  | env ∷ rest ↦ elim (get_elem? env.case_envs (index p - 1)) [
    | none ↦ s
    | some next ↦ set_env next (if is_reachable s then goto s.ssa_env next s else s)
  ]
]

-- The last case is done: ifs_ is left as well.
unfoldable pub end_cases : Production → BodyState → BodyState
end_cases p s = pop_if (leave_block p s)

-- A switch with the default target alone.
unfoldable pub reduce_default_switch : Production → BodyState → BodyState
reduce_default_switch p s =
    let break_env = s.ssa_env in
    let (e, s₁) = steal break_env (push_block break_env s) in
    let s₂ = if index p == 1 then set_env e s₁ else s in if done p then leave_block p s₂ else s₂

unfoldable pub reduce_table_switch : Production → BodyState → BodyState
reduce_table_switch p s =
    let table_count = half_word s.d.mem (p.pc + 3) in
    if table_count == 1
    then reduce_default_switch p s
    else if index p == 1
    then begin_cases p table_count s
    else if done p
    then end_cases p s
    else next_case p s
