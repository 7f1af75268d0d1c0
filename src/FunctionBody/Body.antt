-- ===== src/FunctionBody/Body.antt =====
-- The decoding loop of LR_WasmDecoder in wasm/ast-decoder.cc, the checks behind it, and VerifyWasmCode.
use v8_native_prototype.Base.{
  ℕ, zero, suc, ◌+◌, ◌-◌, true, false, ◌&&◌, List, [], ◌∷◌, Option, none, some, length, ltb, leb,
  ◌==◌, if◌then◌else◌,
}
use v8_native_prototype.Opcodes.Types.{LocalType}
use v8_native_prototype.Decoder.State.{
  Result, ok, new_decoder, new_result, reset, to_result, wasm_decoder, fell_off_end_of_code,
  no_trees_created, beyond_end_of_code, implicit_return_count, implicit_return_type,
}
use v8_native_prototype.WasmModule.Types.{FunctionEnv}
use v8_native_prototype.FunctionBody.State.{
  Tree, Production, tree_type, tree_pc, BodyState, is_reachable, same_type,
}
use v8_native_prototype.FunctionBody.Operands.{fail}
use v8_native_prototype.FunctionBody.Decode.{fail_here, init_ssa_env, decode_one}

-- pc_ += len.
unfoldable pub advance : ℕ → BodyState → BodyState
advance len s = record s { d = record s.d { pc = s.d.pc + len } }

-- The test behind the loop's body, where pc_ >= limit_.
unfoldable pub check_end : BodyState → BodyState
check_end s = if ltb s.d.limit s.d.pc && ok s.d then fail_here beyond_end_of_code s else s

-- Behind the switch: the loop goes on, or ends with the test.
unfoldable pub after_opcode : (BodyState → BodyState) → Option ℕ × BodyState → BodyState
unfolding advance check_end
after_opcode next (none, s) = s
after_opcode next (some len, s) =
    let s₁ = advance len s in
    elim (ltb s₁.d.pc s₁.d.limit) [ true ↦ next s₁ | false ↦ check_end s₁ ]

-- The loop of AddImplicitReturnAtEnd over the results, with the trees from the last one on.
unfoldable pub check_returns : ℕ → List LocalType → List Tree → BodyState → BodyState
check_returns i [] ts s = s
check_returns i (expected ∷ rest) [] s = s
check_returns i (expected ∷ rest) (t ∷ ts) s =
    let later = check_returns (suc i) rest ts s in
    if same_type (tree_type t) expected
    then later
    else fail s.d.limit (some (tree_pc t)) (implicit_return_type i expected (tree_type t)) s

-- The state that the constructor and Decode set up for the bytes from pc to end.
unfoldable pub start_body : List ℕ → ℕ → ℕ → BodyState
start_body mem pc end = init_ssa_env (record {
  d = reset pc end (new_decoder wasm_decoder mem pc end);
  envs = [];
  ssa_env = 0;
  trees = [];
  stack = [];
  blocks = [];
  ifs = [];
})

-- The check that no production is left on the stack.
unfoldable pub check_closed : ℕ → List Production → BodyState → BodyState
check_closed end [] s = s
check_closed end (p ∷ rest) s = fail p.pc (some end) fell_off_end_of_code s

-- trees_[0].
abbrev pub first_tree : List Tree → Option Tree
first_tree [] = none
first_tree (t ∷ []) = some t
first_tree (t ∷ ts) = first_tree ts

module _ (env : FunctionEnv) where
  -- The decoding loop, with fuel.
  unfoldable pub body_loop : ℕ → BodyState → BodyState
  body_loop zero s = s
  body_loop (suc n) s = after_opcode (body_loop n) (decode_one env s)

  -- DecodeFunctionBody. Each round takes a byte at least, so limit - pc rounds are enough.
  unfoldable pub decode_function_body : BodyState → BodyState
  decode_function_body s = if leb s.d.limit s.d.pc then s else body_loop (s.d.limit - s.d.pc) s

  -- AddImplicitReturnAtEnd.
  unfoldable pub add_implicit_return : BodyState → BodyState
  add_implicit_return s =
      let count = length env.sig.returns in
      if count == 0
      then s
      else if ltb (length s.trees) count
      then fail s.d.limit none (implicit_return_count count (length s.trees)) s
      else check_returns 0 env.sig.returns s.trees s

  -- The checks of Decode on a body whose end is reachable.
  unfoldable pub check_fall_through : ℕ → BodyState → BodyState
  check_fall_through end s = add_implicit_return (check_closed end s.stack s)

  -- The check that there are trees.
  unfoldable pub check_trees : List Tree → BodyState → BodyState
  check_trees [] s =
      if ltb 0 (length env.sig.returns) then fail s.d.start none no_trees_created s else s
  check_trees (t ∷ ts) s = s

  -- The checks of Decode behind the loop.
  unfoldable pub finish_body : ℕ → BodyState → BodyState
  finish_body end s =
      let s₁ = if is_reachable s then check_fall_through end s else s in
      if ok s.d then check_trees s₁.trees s₁ else s

  -- The state of Decode at its end, for end >= pc.
  unfoldable pub run_body : List ℕ → ℕ → ℕ → BodyState
  run_body mem pc end = finish_body end (decode_function_body (start_body mem pc end))

  -- Decode. Where end is below pc the result is the member result_, which nothing has set.
  unfoldable pub decode : List ℕ → ℕ → ℕ → Result (Option Tree)
  unfolding new_result to_result
  decode mem pc end =
      let s = run_body mem pc end in
      if ltb end pc then new_result else (to_result (first_tree s.trees) s.d).0

-- VerifyWasmCode(env, base, start, end), where base is used for tracing alone.
unfoldable pub verify_wasm_code : FunctionEnv → List ℕ → ℕ → ℕ → ℕ → Result (Option Tree)
unfolding decode
verify_wasm_code env mem base start end = decode env mem start end
