-- ===== src/FunctionBody/BranchKeeps.antt =====
-- What Reduce(Production*) of LR_WasmDecoder in wasm/ast-decoder.cc leaves alone, for the blocks, the
-- branches and the conditions.
use v8_native_prototype.Base.{
  ℕ, ◌≡◌, refl, Bool, true, false, List, [], ◌∷◌, Option, none, some, inl, inr, arith, ◌==◌,
  Option-cases,
}
use v8_native_prototype.Opcodes.Types.{ast_i32}
use v8_native_prototype.Decoder.State.{improperly_nested_branch}
use v8_native_prototype.FunctionBody.State.{
  Tree, tree_type, Production, index, done, last, Block, BodyState, goto, split, steal, set_env,
  pop_block, pop_if, set_env_state,
}
use v8_native_prototype.FunctionBody.Operands.{fail, operand_u8, type_check_last}
use v8_native_prototype.FunctionBody.Reduce.{
  merge_into_production, reduce_break_to_expr_block, block_at, leave_block, reduce_block,
  reduce_loop_op, end_if, reduce_if, top_of, end_branch, reduce_if_else, reduce_select, reduce_br,
  branch_if, reduce_br_if,
}
use v8_native_prototype.FunctionBody.Keeps.{
  Keeps, IsBody, Keeps-refl, Keeps-trans, and_then, if-Keeps, fail-Keeps, fail_if-Keeps,
  quiet-Keeps, goto-Keeps, split-Keeps, steal-Keeps, set_production_type-Keeps, operand_u8-Keeps,
  type_check_last-Keeps,
}

pub merge_into_production-Keeps :
    (depth target : ℕ) (expr : Tree) (s : BodyState)
    → Keeps s (merge_into_production depth target expr s)
unfolding merge_into_production
merge_into_production-Keeps depth target expr s =
    let k = goto-Keeps s.ssa_env target s in
    if-Keeps _
      (if-Keeps _ k (Keeps-trans k (set_production_type-Keeps depth _ (goto s.ssa_env target s))))
      (Keeps-refl s)

pub break_value-Keeps :
    (depth target : ℕ) (o : Option Tree) (s : BodyState)
    → Keeps s (elim o [ none ↦ s | some expr ↦ merge_into_production depth target expr s ])
break_value-Keeps depth target none s = Keeps-refl s
break_value-Keeps depth target (some t) s = merge_into_production-Keeps depth target t s

pub break_to_depth-Keeps :
    (o : Option ℕ) (p : Production) (b : Block) (s : BodyState)
    → b.stack_depth ≡ o
    → Keeps s (reduce_break_to_expr_block p b s)
unfolding reduce_break_to_expr_block
break_to_depth-Keeps none p b s e =
    rw (e, reduce_break_to_expr_block) (goto-Keeps s.ssa_env b.ssa_env s)
break_to_depth-Keeps (some depth) p b s e =
    rw (e, reduce_break_to_expr_block) (break_value-Keeps depth b.ssa_env (last p) s)

pub reduce_break_to_expr_block-Keeps :
    (p : Production) (b : Block) (s : BodyState) → Keeps s (reduce_break_to_expr_block p b s)
reduce_break_to_expr_block-Keeps p b s = break_to_depth-Keeps b.stack_depth p b s refl

pub leave_block-Keeps : (p : Production) (s : BodyState) → Keeps s (leave_block p s)
unfolding leave_block pop_block set_env
leave_block-Keeps p s = elim (Option-cases (block_at 0 s)) [
  | inl e ↦ rw (e, leave_block) (Keeps-refl s)
  | inr (b, e) ↦
      rw (e, leave_block)
        (let k = reduce_break_to_expr_block-Keeps p b s in
          Keeps-trans k (quiet-Keeps (reduce_break_to_expr_block p b s) _ refl refl refl))
]

pub reduce_block-Keeps : (p : Production) (s : BodyState) → Keeps s (reduce_block p s)
unfolding reduce_block
reduce_block-Keeps p s = if-Keeps _ (leave_block-Keeps p s) (Keeps-refl s)

pub reduce_loop_op-Keeps : (p : Production) (s : BodyState) → Keeps s (reduce_loop_op p s)
unfolding reduce_loop_op pop_block
reduce_loop_op-Keeps p s =
    if-Keeps _
      (Keeps-trans (quiet-Keeps s (pop_block s) refl refl refl) (leave_block-Keeps p (pop_block s)))
      (Keeps-refl s)

pub end_if-Keeps : (s : BodyState) → Keeps s (end_if s)
unfolding end_if pop_if set_env set_env_state goto
end_if-Keeps s = ground arith

pub reduce_if-Keeps : (p : Production) (s : BodyState) → IsBody s → Keeps s (reduce_if p s)
unfolding reduce_if set_env
reduce_if-Keeps p s w =
    let k = type_check_last-Keeps p ast_i32 s w in
    let s₁ = type_check_last p ast_i32 s in
    let s₂ = (split s₁.ssa_env s₁).1 in
    if-Keeps _
      (Keeps-trans k (Keeps-trans (split-Keeps s₁.ssa_env s₁) (quiet-Keeps s₂ _ refl refl refl)))
      (if-Keeps _ (end_if-Keeps s) (Keeps-refl s))

pub option-Keeps {ℓ} :
    {A : Type ℓ} (o : Option A) {s x : BodyState} {f : A → BodyState}
    → Keeps s x
    → ((a : A) → Keeps s (f a))
    → Keeps s (elim o [ none ↦ x | some a ↦ f a ])
option-Keeps none k l = k
option-Keeps (some a) k l = l a

pub list-Keeps {ℓ} :
    {A : Type ℓ} (xs : List A) {s x : BodyState} {f : A → List A → BodyState}
    → Keeps s x
    → ((a : A) (rest : List A) → Keeps s (f a rest))
    → Keeps s (elim xs [ [] ↦ x | a ∷ rest ↦ f a rest ])
list-Keeps [] k l = k
list-Keeps (a ∷ rest) k l = l a rest

pub end_branch-Keeps :
    (p : Production) (is_last : Bool) (s : BodyState) → Keeps s (end_branch p is_last s)
unfolding end_branch pop_if set_env
end_branch-Keeps p is_last s = list-Keeps s.ifs (Keeps-refl s) λ env rest.
    option-Keeps env.merge_env (Keeps-refl s) λ merge. option-Keeps (last p) (Keeps-refl s) λ expr.
      let s₁ = merge_into_production (top_of s) merge expr s in
      let k = merge_into_production-Keeps (top_of s) merge expr s in
      if-Keeps is_last (Keeps-trans k (quiet-Keeps s₁ _ refl refl refl))
        (option-Keeps env.false_env k λ e. Keeps-trans k (quiet-Keeps s₁ _ refl refl refl))

pub reduce_if_else-Keeps :
    (p : Production) (s : BodyState) → IsBody s → Keeps s (reduce_if_else p s)
unfolding reduce_if_else set_env
reduce_if_else-Keeps p s w =
    let k = type_check_last-Keeps p ast_i32 s w in
    let s₁ = type_check_last p ast_i32 s in
    let s₂ = (split s₁.ssa_env s₁).1 in
    let s₃ = (steal s₁.ssa_env s₂).1 in
    if-Keeps _
      (Keeps-trans k (
        Keeps-trans (split-Keeps s₁.ssa_env s₁)
          (Keeps-trans (steal-Keeps s₁.ssa_env s₂) (quiet-Keeps s₃ _ refl refl refl))))
      (if-Keeps _ (end_branch-Keeps p false s)
        (if-Keeps _ (end_branch-Keeps p true s) (Keeps-refl s)))

pub reduce_select-Keeps : (p : Production) (s : BodyState) → IsBody s → Keeps s (reduce_select p s)
unfolding reduce_select
reduce_select-Keeps p s w = if-Keeps _ (type_check_last-Keeps p ast_i32 s w) (
    if-Keeps _
      (option-Keeps (last p) (Keeps-refl s) λ t.
        let k = set_production_type-Keeps (top_of s) (tree_type t) s in
        and_then w k (fail_if-Keeps _ _ _ _ _))
      (type_check_last-Keeps p p.type s w))

pub reduce_br-Keeps : (p : Production) (s : BodyState) → IsBody s → Keeps s (reduce_br p s)
unfolding reduce_br
reduce_br-Keeps p s w =
    let s₁ = (operand_u8 p.pc s).1 in
    and_then w (operand_u8-Keeps p.pc s w) λ v.
      option-Keeps (block_at (operand_u8 p.pc s).0 s₁) (fail-Keeps _ _ _ s₁ v)
        λ b. reduce_break_to_expr_block-Keeps p b s₁

pub branch_if-Keeps : (p : Production) (b : Block) (s : BodyState) → Keeps s (branch_if p b s)
unfolding branch_if set_env
branch_if-Keeps p b s =
    let r = split s.ssa_env s in
    let inner : BodyState = record r.1 { ssa_env = r.0 } in
    Keeps-trans (split-Keeps s.ssa_env s) (
      Keeps-trans (quiet-Keeps r.1 inner refl refl refl) (
        Keeps-trans (reduce_break_to_expr_block-Keeps p b inner)
          (quiet-Keeps (reduce_break_to_expr_block p b inner) _ refl refl refl)))

pub branch_at-Keeps :
    (o : Option Block) (p : Production) (s : BodyState)
    → IsBody s
    → Keeps s
        (elim o [ none ↦ fail s.d.pc none improperly_nested_branch s | some b ↦ branch_if p b s ])
branch_at-Keeps none p s w = fail-Keeps s.d.pc none improperly_nested_branch s w
branch_at-Keeps (some b) p s w = branch_if-Keeps p b s

pub reduce_br_if-Keeps : (p : Production) (s : BodyState) → IsBody s → Keeps s (reduce_br_if p s)
unfolding reduce_br_if
reduce_br_if-Keeps p s w =
    let (depth, s₁) = operand_u8 p.pc s in
    if-Keeps (index p == 1) (type_check_last-Keeps p ast_i32 s w) (
      if-Keeps (done p)
        (and_then w (operand_u8-Keeps p.pc s w) (branch_at-Keeps (block_at depth s₁) p s₁))
        (Keeps-refl s))
