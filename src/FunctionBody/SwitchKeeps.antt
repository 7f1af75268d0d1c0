-- ===== src/FunctionBody/SwitchKeeps.antt =====
-- What Reduce(Production*) of LR_WasmDecoder in wasm/ast-decoder.cc leaves alone, for the switch.
use v8_native_prototype.Base.{
  ℕ, zero, suc, ◌+◌, ◌-◌, refl, List, ◌∷◌, Option, none, some, get_elem?, ◌==◌, if◌then◌else◌,
}
use v8_native_prototype.Opcodes.Types.{ast_i32}
use v8_native_prototype.FunctionBody.State.{
  Production, index, done, IfEnv, BodyState, is_reachable, goto, split, steal, unreachable_env,
  set_env, pop_if, push_block,
}
use v8_native_prototype.FunctionBody.Operands.{half_word, type_check_last}
use v8_native_prototype.FunctionBody.Reduce.{leave_block}
use v8_native_prototype.FunctionBody.Switch.{
  new_case_envs, target_env, goto_targets, begin_cases, next_case, end_cases, reduce_default_switch,
  reduce_table_switch,
}
use v8_native_prototype.FunctionBody.Keeps.{
  Keeps, IsBody, Keeps-refl, Keeps-trans, if-Keeps, quiet-Keeps, goto-Keeps, split-Keeps,
  steal-Keeps, type_check_last-Keeps,
}
use v8_native_prototype.FunctionBody.BranchKeeps.{leave_block-Keeps, option-Keeps, list-Keeps}

pub unreachable_env-Keeps : (s : BodyState) → Keeps s (unreachable_env s).1
unfolding unreachable_env
unreachable_env-Keeps s = quiet-Keeps s _ refl refl refl

pub new_case_envs-Keeps : (n : ℕ) (s : BodyState) → Keeps s (new_case_envs n s).1
unfolding new_case_envs
new_case_envs-Keeps zero s = Keeps-refl s
new_case_envs-Keeps (suc n) s =
    Keeps-trans (unreachable_env-Keeps s) (new_case_envs-Keeps n (unreachable_env s).1)

pub goto_target-Keeps :
    (o : Option ℕ) (e : ℕ) (s : BodyState)
    → Keeps s (elim o as (λ t. BodyState) [ none ↦ s | some t ↦ goto e t s ])
goto_target-Keeps none e s = Keeps-refl s
goto_target-Keeps (some t) e s = goto-Keeps e t s

pub goto_targets-Keeps :
    (n copy : ℕ) (case_envs : List ℕ) (p : ℕ) (s : BodyState)
    → Keeps s (goto_targets n copy case_envs p s)
unfolding goto_targets
goto_targets-Keeps zero copy case_envs p s = Keeps-refl s
goto_targets-Keeps (suc n) copy case_envs p s =
    let s₁ = (split copy s).1 in
    let t = target_env case_envs (half_word s.d.mem p) s₁ in
    Keeps-trans (split-Keeps copy s) (
      Keeps-trans (goto_target-Keeps t (split copy s).0 s₁)
        (goto_targets-Keeps n copy case_envs (p + 2) _))

-- What follows the check of the key.
pub begin_cases-Keeps :
    (p : Production) (table_count : ℕ) (s : BodyState)
    → Keeps (type_check_last p ast_i32 s) (begin_cases p table_count s)
unfolding begin_cases push_block set_env
begin_cases-Keeps p table_count s =
    let s₁ = type_check_last p ast_i32 s in
    let r = new_case_envs (half_word s.d.mem (p.pc + 1)) s₁ in
    let env : IfEnv = record { false_env = none; merge_env = none; case_envs = r.0 } in
    let s₃ = push_block r.1.ssa_env (record r.1 { ifs = env ∷ r.1.ifs }) in
    let c = steal r.1.ssa_env s₃ in
    let s₄ : BodyState = record c.1 { ssa_env = c.0 } in
    let s₅ = goto_targets table_count c.0 r.0 (p.pc + 5) s₄ in
    (Keeps-trans (new_case_envs-Keeps (half_word s.d.mem (p.pc + 1)) s₁) (
      Keeps-trans (quiet-Keeps r.1 s₃ refl refl refl) (
        Keeps-trans (steal-Keeps r.1.ssa_env s₃) (
          Keeps-trans (quiet-Keeps c.1 s₄ refl refl refl) (
            Keeps-trans (goto_targets-Keeps table_count c.0 r.0 (p.pc + 5) s₄)
              (list-Keeps r.0 (Keeps-refl s₅) λ e es. quiet-Keeps s₅ _ refl refl refl))))))

pub next_case-Keeps : (p : Production) (s : BodyState) → Keeps s (next_case p s)
unfolding next_case set_env
next_case-Keeps p s = list-Keeps s.ifs (Keeps-refl s) λ env rest.
    option-Keeps (get_elem? env.case_envs (index p - 1)) (Keeps-refl s) λ next.
      Keeps-trans (if-Keeps (is_reachable s) (goto-Keeps s.ssa_env next s) (Keeps-refl s))
        (quiet-Keeps (if is_reachable s then goto s.ssa_env next s else s) _ refl refl refl)

pub end_cases-Keeps : (p : Production) (s : BodyState) → Keeps s (end_cases p s)
unfolding end_cases pop_if
end_cases-Keeps p s =
    Keeps-trans (leave_block-Keeps p s) (quiet-Keeps (leave_block p s) _ refl refl refl)

pub reduce_default_switch-Keeps :
    (p : Production) (s : BodyState) → Keeps s (reduce_default_switch p s)
unfolding reduce_default_switch push_block set_env
reduce_default_switch-Keeps p s =
    let s₁ = push_block s.ssa_env s in
    let c = steal s.ssa_env s₁ in
    let k =
      if-Keeps (index p == 1)
        (Keeps-trans (quiet-Keeps s s₁ refl refl refl) (
          Keeps-trans (steal-Keeps s.ssa_env s₁)
            (quiet-Keeps c.1 (set_env c.0 c.1) refl refl refl)))
        (Keeps-refl s) in
    if-Keeps (done p) (Keeps-trans k (leave_block-Keeps p _)) k

pub reduce_table_switch-Keeps :
    (p : Production) (s : BodyState) → IsBody s → Keeps s (reduce_table_switch p s)
unfolding reduce_table_switch
reduce_table_switch-Keeps p s w = if-Keeps _ (reduce_default_switch-Keeps p s) (
    if-Keeps _ (Keeps-trans (type_check_last-Keeps p ast_i32 s w) (begin_cases-Keeps p _ s))
      (if-Keeps _ (end_cases-Keeps p s) (next_case-Keeps p s)))
