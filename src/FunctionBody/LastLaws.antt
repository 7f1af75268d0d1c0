-- ===== src/FunctionBody/LastLaws.antt =====
-- What Reduce(Production*) of LR_WasmDecoder in wasm/ast-decoder.cc has checked of the last operand
-- against the type of the production itself: the third operand of a select.
use v8_native_prototype.Base.{
  ℕ, zero, suc, ◌≡◌, ap, sym, refl, subst, ◌∙◌, ◌⊎◌, inl, inr, true, List, [], ◌∷◌, Option, none,
  some, arith, get_or,
}
use v8_native_prototype.Opcodes.Types.{FunctionSig, LocalType}
use v8_native_prototype.Opcodes.Enum.{WasmOpcode, select}
use v8_native_prototype.Opcodes.Table.{to_opcode, signature}
use v8_native_prototype.Decoder.State.{ok}
use v8_native_prototype.WasmModule.Types.{FunctionEnv}
use v8_native_prototype.FunctionBody.State.{Tree, size, tree_type, Production, BodyState}
use v8_native_prototype.FunctionBody.Operands.{fail, type_check_last}
use v8_native_prototype.FunctionBody.Reduce.{reduce_select}
use v8_native_prototype.FunctionBody.Stack.{
  add_child, reduce_opcode, reduce_other, reduce_production, reduce_round,
}
use v8_native_prototype.FunctionBody.Typing.{
  Wants, Allows, HasType, select_last, unless_fixed, last_wants,
}
use v8_native_prototype.FunctionBody.Keeps.{IsBody, Frame, frame, frames}
use v8_native_prototype.FunctionBody.StackLaws.{reduce_round-frames}
use v8_native_prototype.FunctionBody.TypeLaws.{type_check_last-Allows}

type_check_last-stack :
    (p : Production) (expected : LocalType) (s : BodyState)
    → (type_check_last p expected s).stack ≡ s.stack
unfolding type_check_last fail
type_check_last-stack p expected s = ground arith

module _ (env : FunctionEnv) (t : Tree) (p : Production) where
  -- Either any type of the production will do, or its type is as it was and the last operand fits it.
  abbrev Last : (LocalType → Wants) → BodyState → BodyState → Type 0
  Last wants s s' =
      ((type : LocalType) → Allows (wants type) (tree_type t))
      ⊎ ((s'.stack ≡ s.stack) × Allows (wants p.type) (tree_type t))

  reduce_select-Last :
      (s : BodyState)
      → ok (reduce_select (add_child t p) s).d ≡ true
      → (n : ℕ) → size p.children ≡ n
      → Last (λ type. select_last (some select) type n) s (reduce_select (add_child t p) s)
  reduce_select-Last s h zero e = inl λ type. _
  reduce_select-Last s h (suc zero) e = inl λ type. _
  reduce_select-Last s h (suc (suc zero)) e =
      let r : reduce_select (add_child t p) s ≡ type_check_last (add_child t p) p.type s =
        unfold reduce_select add_child in ground (arith, e) in
      inr (
        ap (λ (x : BodyState). x.stack) r ∙ type_check_last-stack (add_child t p) p.type s,
        type_check_last-Allows t p p.type s (subst (λ (x : BodyState). ok x.d ≡ true) r h),
      )
  reduce_select-Last s h (suc (suc (suc n))) e = inl λ type. _

  reduce_opcode-Last :
      (op : WasmOpcode) (s : BodyState)
      → ok (reduce_opcode env op (add_child t p) s).d ≡ true
      → Last
          (λ type. select_last (some op) type (size p.children))
          s
          (reduce_opcode env op (add_child t p) s)
  unfolding reduce_opcode
  reduce_opcode-Last select s h = reduce_select-Last s h (size p.children) refl
  reduce_opcode-Last op s h = inl λ type. _

  reduce_other-Last :
      (o : Option WasmOpcode) (s : BodyState)
      → ok (reduce_other env o (add_child t p) s).d ≡ true
      → Last (λ type. select_last o type (size p.children)) s (reduce_other env o (add_child t p) s)
  unfolding reduce_other
  reduce_other-Last none s h = inl λ type. _
  reduce_other-Last (some op) s h = reduce_opcode-Last op s h

  fixed-Last :
      (o : Option FunctionSig) (w : LocalType → Wants) (f : FunctionSig → BodyState)
      (s s' : BodyState)
      → (ok s'.d ≡ true → Last w s s')
      → let x = elim o as (λ _. BodyState) [ none ↦ s' | some sig ↦ f sig ] in
        ok x.d ≡ true → Last (λ type. unless_fixed o (w type)) s x
  fixed-Last none w f s s' l h = l h
  fixed-Last (some sig) w f s s' l h = inl λ type. _

  reduce_production-Last :
      (s : BodyState)
      → ok (reduce_production env (add_child t p) s).d ≡ true
      → Last
          (λ type. last_wants env s.d.mem s.d.limit type p.pc (size p.children))
          s
          (reduce_production env (add_child t p) s)
  unfolding reduce_production add_child
  reduce_production-Last s h =
      let opcode = get_or s.d.mem p.pc 0 in
      fixed-Last (signature opcode) (λ type. select_last (to_opcode opcode) type (size p.children))
        _ s (reduce_other env (to_opcode opcode) (add_child t p) s)
        (reduce_other-Last (to_opcode opcode) s) h

module _ (env : FunctionEnv) where
  -- The production on top of the stack has a type that its last operand fits.
  abbrev pub TopTyped : List ℕ → ℕ → List Production → Type 0
  TopTyped mem limit [] = Unit
  TopTyped mem limit (q ∷ qs) = HasType env mem limit q.type q.pc q.children

  abbrev top_frame : Frame → List Frame → Frame
  top_frame f [] = f
  top_frame f (g ∷ gs) = g

  frames-TopTyped :
      (mem : List ℕ) (limit : ℕ) (qs : List Production) (f : Frame) (fs : List Frame)
      → frames qs ≡ f ∷ fs
      → ((type : LocalType) → HasType env mem limit type f.pc f.children)
      → TopTyped mem limit qs
  frames-TopTyped mem limit [] f fs e h = _
  frames-TopTyped mem limit (q ∷ qs) f fs e h =
      subst (λ (g : Frame). HasType env mem limit q.type g.pc g.children) (sym (ap (top_frame f) e))
        (h q.type)

  pub reduce_round-TopTyped :
      (t : Tree) (p : Production) (rest : List Production) (s : BodyState)
      → IsBody s
      → ok (reduce_round env t p rest s).d ≡ true
      → TopTyped s.d.mem s.d.limit (reduce_round env t p rest s).stack
  unfolding reduce_round add_child
  reduce_round-TopTyped t p rest s w h =
      let s₁ : BodyState = record s { stack = add_child t p ∷ rest } in
      elim (reduce_production-Last env t p s₁ h) [
        | inl f ↦
            frames-TopTyped s.d.mem s.d.limit (reduce_round env t p rest s).stack
              (frame (add_child t p)) (frames rest) (reduce_round-frames env t p rest s w) f
        | inr (same, f) ↦ subst (TopTyped s.d.mem s.d.limit) (sym same) f
      ]
