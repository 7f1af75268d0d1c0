-- ===== src/FunctionBody/OpcodePushes.antt =====
-- What DecodeFunctionBody of wasm/ast-decoder.cc pushes for an opcode with operands.
use mathlib.Core.Option.{some-injective}
use v8_native_prototype.Base.{
  ℕ, suc, ◌+◌, ◌*◌, ◌≡◌, refl, ap, ◌∙◌, true, false, ◌∷◌, none, some, inl, inr, arith, length,
  get_or, ltb, leb, ◌==◌, Bool-cases,
}
use v8_native_prototype.Opcodes.Types.{LocalType, ast_stmt, ast_end}
use v8_native_prototype.Decoder.State.{Message, ok, error}
use v8_native_prototype.WasmModule.Types.{FunctionEnv}
use v8_native_prototype.FunctionBody.State.{BodyState, nil}
use v8_native_prototype.FunctionBody.Operands.{
  operand_u8, check_operand, half_word, fail, local_operand, global_operand, memory_access_operand,
}
use v8_native_prototype.FunctionBody.Stack.{MemoryUse, load, store, no_access, shift}
use v8_native_prototype.FunctionBody.Decode.{
  check_bytes, decode_block, decode_loop, decode_branch, decode_table_switch, decode_return,
  decode_set_local, decode_store_global, decode_memory,
}
use v8_native_prototype.FunctionBody.Keeps.{
  Keeps, Keeps-refl, Keeps-trans, Keeps-IsBody, IsBody, Frame, frames, fail_if-Keeps,
  operand_u8-Keeps, local_operand-Keeps, global_operand-Keeps, memory_access_operand-Keeps,
}
use v8_native_prototype.FunctionBody.StackLaws.{leaf-Checks, shift-Checks}
use v8_native_prototype.FunctionBody.DecodeMoves.{
  begin_block-Keeps, begin_loop-Keeps, verify_table-Keeps, check_bytes-Keeps,
}

-- A production that waits for all its children.
abbrev pub waiting : ℕ → ℕ → Frame
waiting count pc = record { count = count; pc = pc; children = nil }

-- A load has one operand and a store two.
abbrev pub AccessArity : MemoryUse → ℕ → Type 0
AccessArity (load type) n = 1 ≡ suc n
AccessArity (store type) n = 2 ≡ suc n
AccessArity no_access n = Unit

module _ (env : FunctionEnv) where
  -- The state in which one production with n children has been pushed.
  abbrev pub Pushes : ℕ → BodyState → BodyState → Type 0
  Pushes n s s' = frames s'.stack ≡ waiting n s.d.pc ∷ frames s.stack

  -- Operands are read before the shift, and the rest leaves the stack alone.
  pub shift-Pushes :
      (type : LocalType) (count n : ℕ) (s s₁ s₂ : BodyState)
      → count ≡ suc n
      → Keeps s s₁
      → Keeps (shift env type count s₁) s₂
      → Pushes (suc n) s s₂
  unfolding shift
  shift-Pushes type count n s s₁ s₂ e k l =
      l.same_frames
      ∙ ap (λ (c : ℕ). frames (shift env type c s₁).stack) e
      ∙ rw (k.same_pc, k.same_frames) refl

  u8_present :
      (pc : ℕ) (s : BodyState)
      → ok (operand_u8 pc s).1.d ≡ true
      → (operand_u8 pc s).0 ≡ get_or s.d.mem (pc + 1) 0
  unfolding operand_u8 check_operand fail error
  u8_present pc s h = ground (arith, h)

  pub decode_block-Pushes :
      (n : ℕ) (s : BodyState)
      → IsBody s
      → ok (decode_block env s).d ≡ true
      → get_or s.d.mem (s.d.pc + 1) 0 ≡ suc n
      → Pushes (suc n) s (decode_block env s)
  unfolding decode_block
  decode_block-Pushes n s w h e =
      let (len, s₁) = operand_u8 s.d.pc s in
      let k = operand_u8-Keeps s.d.pc s w in
      let v = Keeps-IsBody k w in
      let l = begin_block-Keeps (shift env ast_end len s₁) in
      let c = leaf-Checks env ast_stmt s₁ v in
      let d = shift-Checks env ast_end len s₁ v in
      let g : ok s₁.d ≡ true = elim (Bool-cases (ltb len 1)) [
        | inl x ↦ c.ok_before (ground (arith, x, h))
        | inr x ↦ d.ok_before (l.ok_before (ground (arith, x, h)))
      ] in
      let f : len ≡ suc n = u8_present s.d.pc s g ∙ e in
      let x : ltb len 1 ≡ false = ground (arith, f) in
      rw (x, decode_block) (shift-Pushes ast_end len n s s₁ _ f k l)

  pub decode_loop-Pushes :
      (n : ℕ) (s : BodyState)
      → IsBody s
      → ok (decode_loop env s).d ≡ true
      → get_or s.d.mem (s.d.pc + 1) 0 ≡ suc n
      → Pushes (suc n) s (decode_loop env s)
  unfolding decode_loop
  decode_loop-Pushes n s w h e =
      let (len, s₁) = operand_u8 s.d.pc s in
      let k = operand_u8-Keeps s.d.pc s w in
      let v = Keeps-IsBody k w in
      let l = begin_loop-Keeps (shift env ast_end len s₁) in
      let c = leaf-Checks env ast_stmt s₁ v in
      let d = shift-Checks env ast_end len s₁ v in
      let g : ok s₁.d ≡ true = elim (Bool-cases (ltb len 1)) [
        | inl x ↦ c.ok_before (ground (arith, x, h))
        | inr x ↦ d.ok_before (l.ok_before (ground (arith, x, h)))
      ] in
      let f : len ≡ suc n = u8_present s.d.pc s g ∙ e in
      let x : ltb len 1 ≡ false = ground (arith, f) in
      rw (x, decode_loop) (shift-Pushes ast_end len n s s₁ _ f k l)

  pub decode_branch-Pushes :
      (type : LocalType) (n : ℕ) (msg : Message) (s : BodyState)
      → IsBody s
      → Pushes (suc n) s (decode_branch env type (suc n) msg s)
  unfolding decode_branch
  decode_branch-Pushes type n msg s w =
      let (depth, s₁) = operand_u8 s.d.pc s in
      let k = operand_u8-Keeps s.d.pc s w in
      let s₂ = shift env type (suc n) s₁ in
      let d = shift-Checks env type (suc n) s₁ (Keeps-IsBody k w) in
      shift-Pushes type (suc n) n s s₁ _ refl k (
        fail_if-Keeps (leb (length s₂.blocks) depth) s₂.d.pc none msg s₂
          (d.same_class ∙ Keeps-IsBody k w))

  pub decode_table_switch-Pushes :
      (n : ℕ) (s : BodyState)
      → IsBody s
      → ok (decode_table_switch env s).1.d ≡ true
      → 1 + half_word s.d.mem (s.d.pc + 1) ≡ suc n
      → Pushes (suc n) s (decode_table_switch env s).1
  unfolding decode_table_switch fail error
  decode_table_switch-Pushes n s w h e =
      let case_count = half_word s.d.mem (s.d.pc + 1) in
      let table_count = half_word s.d.mem (s.d.pc + 3) in
      let s₁ = (check_bytes 5 s).1 in
      let s₂ = (check_bytes (5 + table_count * 2) s₁).1 in
      let k = check_bytes-Keeps 5 s w in
      let l = Keeps-trans k (check_bytes-Keeps (5 + table_count * 2) s₁ (Keeps-IsBody k w)) in
      let v = Keeps-IsBody l w in
      let s₃ = shift env ast_end (1 + case_count) s₂ in
      let d = shift-Checks env ast_end (1 + case_count) s₂ v in
      let p =
        shift-Pushes ast_end (1 + case_count) n s s₂ _ e l
          (verify_table-Keeps table_count case_count (s.d.pc + 5) s₃ (d.same_class ∙ v)) in
      ground (arith, h, p)

  pub decode_return-Pushes :
      (n : ℕ) (s : BodyState)
      → length env.sig.returns ≡ suc n
      → Pushes (suc n) s (decode_return env s)
  unfolding decode_return
  decode_return-Pushes n s e =
      let x : (length env.sig.returns == 0) ≡ false = ground (arith, e) in
      rw (x, decode_return)
        (shift-Pushes ast_end (length env.sig.returns) n s s _ e (Keeps-refl s) (Keeps-refl _))

  pub decode_set_local-Pushes : (s : BodyState) → IsBody s → Pushes 1 s (decode_set_local env s).1
  unfolding decode_set_local
  decode_set_local-Pushes s w =
      let (type, len, s₁) = local_operand env s.d.pc s in
      shift-Pushes type 1 0 s s₁ _ refl (local_operand-Keeps env s.d.pc s w) (Keeps-refl _)

  pub decode_store_global-Pushes :
      (s : BodyState) → IsBody s → Pushes 1 s (decode_store_global env s).1
  unfolding decode_store_global
  decode_store_global-Pushes s w =
      let (type, len, s₁) = global_operand env s.d.pc s in
      shift-Pushes type 1 0 s s₁ _ refl (global_operand-Keeps env s.d.pc s w) (Keeps-refl _)

  pub decode_memory-Pushes :
      (m : MemoryUse) (n : ℕ) (s : BodyState)
      → IsBody s
      → ok (decode_memory env m s).1.d ≡ true
      → AccessArity m n
      → Pushes (suc n) s (decode_memory env m s).1
  unfolding decode_memory fail error
  decode_memory-Pushes (load type) n s w h e =
      shift-Pushes type 1 n s (memory_access_operand s.d.pc s).1 _ e
        (memory_access_operand-Keeps s.d.pc s w) (Keeps-refl _)
  decode_memory-Pushes (store type) n s w h e =
      shift-Pushes type 2 n s (memory_access_operand s.d.pc s).1 _ e
        (memory_access_operand-Keeps s.d.pc s w) (Keeps-refl _)
  decode_memory-Pushes no_access n s w h e = absurd (ground (arith, h))

  pub simple_shift :
      (type : LocalType) (count n : ℕ) (s : BodyState)
      → some count ≡ some (suc n)
      → Pushes (suc n) s (shift env type count s)
  simple_shift type count n s e =
      shift-Pushes type count n s s _ (some-injective count (suc n) e) (Keeps-refl s) (Keeps-refl _)
