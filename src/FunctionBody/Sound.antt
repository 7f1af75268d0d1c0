-- ===== src/FunctionBody/Sound.antt =====
-- VerifyWasmCode of wasm/ast-decoder.cc: what an accepted function body is.
use v8_native_prototype.Base.{
  ℕ, ◌-◌, ◌≤◌, ◌≡◌, refl, ap, subst, ◌∙◌, true, false, List, some, inl, inr, arith, All, Bool-cases,
  ltb, leb,
}
use v8_native_prototype.Decoder.State.{new_result, reset, new_decoder, ok, result_ok, to_result}
use v8_native_prototype.WasmModule.Types.{FunctionEnv}
use v8_native_prototype.FunctionBody.State.{BodyState, is_reachable}
use v8_native_prototype.FunctionBody.Decode.{init_ssa_env}
use v8_native_prototype.FunctionBody.Body.{
  decode_function_body, finish_body, start_body, run_body, first_tree, decode, verify_wasm_code,
}
use v8_native_prototype.FunctionBody.Typing.{IsTyped}
use v8_native_prototype.FunctionBody.Keeps.{IsBody}
use v8_native_prototype.FunctionBody.WellTyped.{IsWell}
use v8_native_prototype.FunctionBody.Ends.{IsInside, decode_function_body_ends}
use v8_native_prototype.FunctionBody.LoopKeeps.{decode_function_body-LoopKeeps}
use v8_native_prototype.FunctionBody.Finish.{
  FallsThrough, finish_body-Keeps, finish_body-FallsThrough,
}

module _ (env : FunctionEnv) where
  -- What an accepted body is.
  pub record Accepted (mem : List ℕ) (end : ℕ) (s : BodyState) : Type 0 where
    pub well_typed : All (IsTyped env mem end) s.trees
    pub at_end : s.d.pc ≡ end
    pub falls_through : is_reachable s ≡ true → FallsThrough env s

  start_body-IsBody : (mem : List ℕ) (pc end : ℕ) → IsBody (start_body mem pc end)
  unfolding start_body reset new_decoder init_ssa_env
  start_body-IsBody mem pc end = refl

  start_body-IsWell : (mem : List ℕ) (pc end : ℕ) → IsWell env (start_body mem pc end)
  unfolding start_body reset new_decoder init_ssa_env
  start_body-IsWell mem pc end = record { trees_typed = _; frames_open = _ }

  decoded-at_end :
      (mem : List ℕ) (pc end : ℕ)
      → pc ≤ end
      → let s = decode_function_body env (start_body mem pc end) in ok s.d ≡ true → s.d.pc ≡ end
  unfolding start_body decode_function_body reset new_decoder init_ssa_env
  decoded-at_end mem pc end l h =
      let s₀ = start_body mem pc end in
      elim (Bool-cases (leb end pc)) [
        | inl e ↦ rw (e, decode_function_body) (ground (arith, e, l))
        | inr e ↦
            let v : IsInside s₀ = record {
              body = refl;
              above = omega arith;
              below = ground (arith, e);
            } in
            elim (decode_function_body_ends env s₀ (s₀.d.limit - s₀.d.pc) v (omega arith)).1 [
              | inl f ↦ absurd (ground (arith, h, f))
              | inr (f, g) ↦ g
            ]
      ]

  -- The state in which the checks of Decode begin is that of an accepted body.
  decoded-Accepted :
      (mem : List ℕ) (pc end : ℕ)
      → pc ≤ end
      → let s = decode_function_body env (start_body mem pc end) in
        ok (finish_body env end s).d ≡ true → Accepted mem end s
  unfolding start_body reset new_decoder init_ssa_env
  decoded-Accepted mem pc end l h =
      let s₀ = start_body mem pc end in
      let s = decode_function_body env s₀ in
      let k = decode_function_body-LoopKeeps env s₀ refl in
      let m = finish_body-Keeps env end s k.same_class in
      let g = m.ok_before h in
      let o = k.well g (start_body-IsWell mem pc end) in
      record {
        well_typed =
            subst (λ n. All (IsTyped env mem n) s.trees) (k.same_limit g)
              (subst (λ b. All (IsTyped env b s.d.limit) s.trees) k.same_mem o.trees_typed);
        at_end = decoded-at_end mem pc end l g;
        falls_through = finish_body-FallsThrough env end s k.same_class h;
      }

-- A function body that VerifyWasmCode accepts, with start at most end, was read to exactly its
-- last byte. Each tree that was built has as many children as its count, and each child is of a
-- type that its place allows; a tree without children has the type that its opcode gives (a
-- constant, a local, a global, a call, an empty block and the like); the third operand of a select
-- fits the select's own type; and the same holds of each child. The types of the other trees are
-- not stated. Where the end of the body can be reached, no expression is open there and the trees
-- that were built last have the types of the function's results. The value of the result is the
-- first of the trees.
pub verify_wasm_code_sound :
    (env : FunctionEnv) (mem : List ℕ) (base start end : ℕ)
    → start ≤ end
    → result_ok (verify_wasm_code env mem base start end) ≡ true
    → let s = decode_function_body env (start_body mem start end) in
      let r = verify_wasm_code env mem base start end in
      Accepted env mem end s × (r.val ≡ some (first_tree s.trees))
unfolding verify_wasm_code decode run_body to_result new_result
verify_wasm_code_sound env mem base start end l h =
    let s = decode_function_body env (start_body mem start end) in
    let e : ltb end start ≡ false = ground (arith, l) in
    let g : ok (finish_body env end s).d ≡ true = ground (arith, e, h) in
    let k =
      decode_function_body-LoopKeeps env (start_body mem start end)
        (start_body-IsBody env mem start end) in
    let m = finish_body-Keeps env end s (k.same_class ∙ start_body-IsBody env mem start end) in
    let f : (verify_wasm_code env mem base start end).val
        ≡ some (first_tree (finish_body env end s).trees) =
      ground (arith, e, g) in
    (decoded-Accepted env mem start end l g, f ∙ ap (λ ts. some (first_tree ts)) m.same_trees)
