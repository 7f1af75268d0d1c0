-- ===== src/FunctionBody/TypeLaws.antt =====
-- The type checks of Reduce(Production*) in LR_WasmDecoder of wasm/ast-decoder.cc, by the opcode.
use v8_native_prototype.Base.{
  ℕ, zero, suc, ◌+◌, ◌≡◌, ◌≢◌, refl, sym, inl, inr, true, false, Option, none, some, arith,
  Bool-cases, Option-cases, get_or, ◌==◌, if◌then◌else◌,
}
use v8_native_prototype.Opcodes.Types.{
  FunctionSig, LocalType, ast_stmt, ast_i32, ast_end, local_type_for,
}
use v8_native_prototype.Opcodes.Enum.{
  WasmOpcode, block, loop, if_op, if_else, select, br, br_if, table_switch, return, set_local,
  store_global, grow_memory, call_function, call_indirect,
}
use v8_native_prototype.Opcodes.Table.{to_opcode, signature}
use v8_native_prototype.Decoder.State.{ok, error}
use v8_native_prototype.WasmModule.Types.{
  FunctionEnv, get_local_type, get_global_type, get_function_signature, get_signature,
}
use v8_native_prototype.FunctionBody.State.{
  Tree, size, tree_type, Production, BodyState, last, same_type, same_type-eq, set_env, split,
  steal, new_env, kill, set_env_state, set_production_type, type_code,
}
use v8_native_prototype.FunctionBody.Operands.{
  fail, half_word, get_param, get_return, accepts, type_check_last, local_operand, global_operand,
  function_sig_operand, sig_operand, unsigned_leb128_operand,
}
use v8_native_prototype.FunctionBody.Reduce.{
  reduce_if, reduce_if_else, reduce_select, reduce_br_if, reduce_return, reduce_set_local,
  reduce_store_global, reduce_call_function, reduce_call_indirect,
}
use v8_native_prototype.FunctionBody.Switch.{reduce_table_switch}
use v8_native_prototype.FunctionBody.Stack.{
  MemoryUse, load, store, no_access, memory_use, reduce_memory, add_child, reduce_opcode,
  reduce_other, reduce_production,
}
use v8_native_prototype.FunctionBody.Typing.{
  immediate, anything, CanStand, Allows, first_i32, select_wants, memory_wants, params_want,
  indirect_wants, opcode_wants, other_wants, fixed_wants, operand_wants,
}
use v8_native_prototype.FunctionBody.SwitchKeeps.{begin_cases-Keeps}
use v8_native_prototype.FunctionBody.Keeps.{IsBody}

accepts-CanStand :
    (expected result : LocalType) → accepts expected result ≡ true → CanStand expected result
unfolding accepts
accepts-CanStand expected result h = elim (Bool-cases (same_type result expected)) [
  | inl e ↦ inl (same_type-eq result expected e)
  | inr e ↦ elim (Bool-cases (same_type result ast_end)) [
    | inl f ↦ inr (inl (same_type-eq result ast_end f))
    | inr f ↦ inr (inr (same_type-eq expected ast_stmt (ground (arith, e, f, h))))
  ]
]

first_i32-Allows :
    (n : ℕ) {result : LocalType} → (n ≡ 0 → CanStand ast_i32 result) → Allows (first_i32 n) result
first_i32-Allows zero f = f refl
first_i32-Allows (suc n) f = _

select-Allows :
    (n : ℕ) {result : LocalType}
    → (n ≡ 0 → CanStand ast_i32 result)
    → (n ≡ 1 → result ≢ ast_stmt)
    → Allows (select_wants n) result
select-Allows zero f g = f refl
select-Allows (suc zero) f g = g refl
select-Allows (suc (suc n)) f g = _

store-Allows :
    (n : ℕ) {type result : LocalType}
    → (n ≡ 0 → CanStand ast_i32 result)
    → (¬ (n ≡ 0) → CanStand type result)
    → Allows (memory_wants (store type) n) result
store-Allows zero f g = f refl
store-Allows (suc n) f g = g λ e. absurd (omega (arith, e))

indirect-Allows :
    (f : Option FunctionSig) (n : ℕ) {result : LocalType}
    → (n ≡ 0 → CanStand ast_i32 result)
    → ((m : ℕ) → n ≡ suc m → Allows (params_want f m) result)
    → Allows (indirect_wants f n) result
indirect-Allows f zero h k = h refl
indirect-Allows f (suc n) h k = k n refl

failed_ok : (pc : ℕ) (pt : Option ℕ) (msg : _) (s : BodyState) → ok (fail pc pt msg s).d ≡ false
unfolding fail error
failed_ok pc pt msg s = ground arith

module _ (t : Tree) (p : Production) where
  pub type_check_last-Allows :
      (expected : LocalType) (s : BodyState)
      → ok (type_check_last (add_child t p) expected s).d ≡ true
      → CanStand expected (tree_type t)
  unfolding type_check_last last add_child fail error
  type_check_last-Allows expected s h = elim (Bool-cases (accepts expected (tree_type t))) [
    | inl e ↦ accepts-CanStand expected (tree_type t) e
    | inr e ↦ absurd (ground (arith, e, h))
  ]

  -- The condition of an if, and of an if with else.
  reduce_if-Allows :
      (s : BodyState)
      → ok (reduce_if (add_child t p) s).d ≡ true
      → Allows (first_i32 (size p.children)) (tree_type t)
  unfolding reduce_if add_child set_env split new_env
  reduce_if-Allows s h =
      first_i32-Allows (size p.children)
        λ e. type_check_last-Allows ast_i32 s (ground (arith, e, h))

  steal-d : (e : ℕ) (s : BodyState) → (steal e s).1.d ≡ s.d
  unfolding steal
  steal-d e s = ground arith

  reduce_if_else-Allows :
      (s : BodyState)
      → ok (reduce_if_else (add_child t p) s).d ≡ true
      → Allows (first_i32 (size p.children)) (tree_type t)
  unfolding reduce_if_else add_child set_env split new_env
  reduce_if_else-Allows s h = first_i32-Allows (size p.children) λ e.
      let s₁ = type_check_last (add_child t p) ast_i32 s in
      let s₂ = (split s₁.ssa_env s₁).1 in
      type_check_last-Allows ast_i32 s (ground (arith, e, h, steal-d s₁.ssa_env s₂))

  reduce_br_if-Allows :
      (s : BodyState)
      → ok (reduce_br_if (add_child t p) s).d ≡ true
      → Allows (first_i32 (size p.children)) (tree_type t)
  unfolding reduce_br_if add_child
  reduce_br_if-Allows s h =
      first_i32-Allows (size p.children)
        λ e. type_check_last-Allows ast_i32 s (ground (arith, e, h))

  reduce_memory-Allows :
      (m : MemoryUse) (s : BodyState)
      → ok (reduce_memory m (add_child t p) s).d ≡ true
      → Allows (memory_wants m (size p.children)) (tree_type t)
  unfolding reduce_memory add_child
  reduce_memory-Allows (load type) s h = type_check_last-Allows ast_i32 s h
  reduce_memory-Allows (store type) s h =
      store-Allows (size p.children) (λ e. type_check_last-Allows ast_i32 s (ground (arith, e, h)))
        (λ e. type_check_last-Allows type s (ground (arith, e, h)))
  reduce_memory-Allows no_access s h = _

  reduce_select-Allows :
      (s : BodyState)
      → ok (reduce_select (add_child t p) s).d ≡ true
      → Allows (select_wants (size p.children)) (tree_type t)
  unfolding reduce_select add_child set_production_type last fail error same_type type_code
  reduce_select-Allows s h =
      select-Allows (size p.children) (λ e. type_check_last-Allows ast_i32 s (ground (arith, e, h)))
        (λ e k.
          let f : same_type (tree_type t) ast_stmt ≡ true = rw k refl in
          absurd (ground (arith, e, h, f)))

  -- The key of a switch with several entries.
  reduce_table_switch-Allows :
      (s : BodyState)
      → IsBody s
      → ok (reduce_table_switch (add_child t p) s).d ≡ true
      → Allows
          (if half_word s.d.mem (p.pc + 3) == 1 then anything else first_i32 (size p.children))
          (tree_type t)
  unfolding reduce_table_switch add_child
  reduce_table_switch-Allows s w h = elim (Bool-cases (half_word s.d.mem (p.pc + 3) == 1)) [
    | inl e ↦ rw (e, Allows) _
    | inr e ↦
        rw (e, Allows)
          (first_i32-Allows (size p.children) λ f.
            let k = begin_cases-Keeps (add_child t p) (half_word s.d.mem (p.pc + 3)) s in
            type_check_last-Allows ast_i32 s (ground (arith, e, f, h, k)))
  ]

  module _ (env : FunctionEnv) where
    reduce_return-Allows :
        (s : BodyState)
        → ok (reduce_return env (add_child t p) s).d ≡ true
        → CanStand (get_return env.sig (size p.children)) (tree_type t)
    unfolding reduce_return add_child kill set_env_state
    reduce_return-Allows s h =
        type_check_last-Allows (get_return env.sig (size p.children)) s (ground (arith, h))

    reduce_set_local-Allows :
        (s : BodyState)
        → ok (reduce_set_local env (add_child t p) s).d ≡ true
        → tree_type t ≡ get_local_type env (immediate env s.d.mem s.d.limit p.pc)
    unfolding reduce_set_local add_child local_operand unsigned_leb128_operand last fail error
    reduce_set_local-Allows s h =
        let type = get_local_type env (immediate env s.d.mem s.d.limit p.pc) in
        sym (same_type-eq type (tree_type t) (ground (arith, h)))

    reduce_store_global-Allows :
        (s : BodyState)
        → ok (reduce_store_global env (add_child t p) s).d ≡ true
        → tree_type t
          ≡ local_type_for (get_global_type env.module_env (immediate env s.d.mem s.d.limit p.pc))
    unfolding reduce_store_global add_child global_operand unsigned_leb128_operand last fail error
    reduce_store_global-Allows s h =
        let type =
          local_type_for (get_global_type env.module_env (immediate env s.d.mem s.d.limit p.pc)) in
        sym (same_type-eq type (tree_type t) (ground (arith, h)))

    reduce_call_function-Allows :
        (s : BodyState)
        → ok (reduce_call_function env (add_child t p) s).d ≡ true
        → Allows
            (params_want
              (get_function_signature env.module_env (immediate env s.d.mem s.d.limit p.pc))
              (size p.children))
            (tree_type t)
    unfolding reduce_call_function add_child function_sig_operand unsigned_leb128_operand fail error
    reduce_call_function-Allows s h =
        let g = get_function_signature env.module_env (immediate env s.d.mem s.d.limit p.pc) in
        elim (Option-cases g) [
          | inl e ↦ rw (e, Allows, params_want) _
          | inr (f, e) ↦
              rw (e, Allows, params_want)
                (type_check_last-Allows (get_param f (size p.children))
                  (function_sig_operand env p.pc s).2 (ground (arith, e, h)))
        ]

    reduce_call_indirect-Allows :
        (s : BodyState)
        → ok (reduce_call_indirect env (add_child t p) s).d ≡ true
        → Allows
            (indirect_wants
              (get_signature env.module_env (immediate env s.d.mem s.d.limit p.pc))
              (size p.children))
            (tree_type t)
    unfolding reduce_call_indirect add_child sig_operand unsigned_leb128_operand fail error
    reduce_call_indirect-Allows s h =
        let s₁ = (sig_operand env p.pc s).2 in
        let g = get_signature env.module_env (immediate env s.d.mem s.d.limit p.pc) in
        indirect-Allows g (size p.children)
          (λ e. type_check_last-Allows ast_i32 s₁ (ground (arith, e, h)))
          (λ m k. elim (Option-cases g) [
            | inl e ↦ rw (e, Allows, params_want) _
            | inr (f, e) ↦
                rw (e, Allows, params_want)
                  (type_check_last-Allows (get_param f m) s₁ (ground (arith, e, k, h)))
          ])

    reduce_opcode-Allows :
        (op : WasmOpcode) (s : BodyState)
        → IsBody s
        → ok (reduce_opcode env op (add_child t p) s).d ≡ true
        → Allows (opcode_wants env s.d.mem s.d.limit op p.pc (size p.children)) (tree_type t)
    unfolding reduce_opcode add_child memory_use
    reduce_opcode-Allows block s w h = _
    reduce_opcode-Allows loop s w h = _
    reduce_opcode-Allows br s w h = _
    reduce_opcode-Allows if_op s w h = reduce_if-Allows s h
    reduce_opcode-Allows if_else s w h = reduce_if_else-Allows s h
    reduce_opcode-Allows select s w h = reduce_select-Allows s h
    reduce_opcode-Allows br_if s w h = reduce_br_if-Allows s h
    reduce_opcode-Allows table_switch s w h = reduce_table_switch-Allows s w h
    reduce_opcode-Allows return s w h = reduce_return-Allows s h
    reduce_opcode-Allows set_local s w h = reduce_set_local-Allows s h
    reduce_opcode-Allows store_global s w h = reduce_store_global-Allows s h
    reduce_opcode-Allows grow_memory s w h = type_check_last-Allows ast_i32 s h
    reduce_opcode-Allows call_function s w h = reduce_call_function-Allows s h
    reduce_opcode-Allows call_indirect s w h = reduce_call_indirect-Allows s h
    reduce_opcode-Allows op s w h = reduce_memory-Allows (memory_use op) s h

    reduce_other-Allows :
        (o : Option WasmOpcode) (s : BodyState)
        → IsBody s
        → ok (reduce_other env o (add_child t p) s).d ≡ true
        → Allows (other_wants env s.d.mem s.d.limit o p.pc (size p.children)) (tree_type t)
    unfolding reduce_other
    reduce_other-Allows none s w h = _
    reduce_other-Allows (some op) s w h = reduce_opcode-Allows op s w h

    -- What Reduce(Production*) has checked of the last child where it raises no error.
    pub reduce_production-Allows :
        (s : BodyState)
        → IsBody s
        → ok (reduce_production env (add_child t p) s).d ≡ true
        → Allows (operand_wants env s.d.mem s.d.limit p.pc (size p.children)) (tree_type t)
    unfolding reduce_production add_child
    reduce_production-Allows s w h =
        let opcode = get_or s.d.mem p.pc 0 in
        elim (Option-cases (signature opcode)) [
          | inl e ↦
              rw (e, Allows, fixed_wants)
                (reduce_other-Allows (to_opcode opcode) s w (ground (arith, e, h)))
          | inr (f, e) ↦
              rw (e, Allows, fixed_wants)
                (type_check_last-Allows (get_param f (size p.children)) s (ground (arith, e, h)))
        ]
