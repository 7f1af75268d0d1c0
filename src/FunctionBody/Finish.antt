-- ===== src/FunctionBody/Finish.antt =====
-- The checks of Decode behind the decoding loop, in LR_WasmDecoder of wasm/ast-decoder.cc.
use v8_native_prototype.Base.{
  ℕ, suc, ◌≤◌, ◌≡◌, refl, ◌∙◌, true, List, [], ◌∷◌, inl, inr, arith, length, Bool-cases, ltb, ◌==◌,
  if◌then◌else◌,
}
use v8_native_prototype.Opcodes.Types.{LocalType}
use v8_native_prototype.Decoder.State.{ok, error}
use v8_native_prototype.WasmModule.Types.{FunctionEnv}
use v8_native_prototype.FunctionBody.State.{
  Tree, Production, tree_type, BodyState, is_reachable, same_type, same_type-eq,
}
use v8_native_prototype.FunctionBody.Operands.{fail}
use v8_native_prototype.FunctionBody.Body.{
  check_returns, add_implicit_return, check_closed, check_trees, check_fall_through, finish_body,
}
use v8_native_prototype.FunctionBody.Keeps.{
  Keeps, IsBody, Keeps-refl, and_then, if-Keeps, fail-Keeps, fail_if-Keeps,
}

-- The results that are on top of the trees, the last one of the function's on top of the stack.
abbrev pub Returns : List LocalType → List Tree → Type 0
Returns [] ts = Unit
Returns (r ∷ rs) [] = ⊥
Returns (r ∷ rs) (t ∷ ts) = (tree_type t ≡ r) × Returns rs ts

check_returns-Keeps :
    (i : ℕ) (rs : List LocalType) (ts : List Tree) (s : BodyState)
    → IsBody s
    → Keeps s (check_returns i rs ts s)
unfolding check_returns
check_returns-Keeps i [] ts s w = Keeps-refl s
check_returns-Keeps i (r ∷ rs) [] s w = Keeps-refl s
check_returns-Keeps i (r ∷ rs) (t ∷ ts) s w =
    if-Keeps _ (check_returns-Keeps (suc i) rs ts s w) (fail-Keeps _ _ _ s w)

check_returns-Returns :
    (i : ℕ) (rs : List LocalType) (ts : List Tree) (s : BodyState)
    → length rs ≤ length ts
    → ok (check_returns i rs ts s).d ≡ true
    → Returns rs ts
unfolding check_returns fail error
check_returns-Returns i [] ts s l h = _
check_returns-Returns i (r ∷ rs) [] s l h = absurd (omega (arith, l))
check_returns-Returns i (r ∷ rs) (t ∷ ts) s l h = elim (Bool-cases (same_type (tree_type t) r)) [
  | inl e ↦ (
    same_type-eq (tree_type t) r e,
    check_returns-Returns (suc i) rs ts s (omega (arith, l)) (ground (arith, e, h)),
  )
  | inr e ↦ absurd (ground (arith, e, h))
]

no_Returns : (rs : List LocalType) (ts : List Tree) → length rs ≡ 0 → Returns rs ts
no_Returns [] ts e = _
no_Returns (r ∷ rs) ts e = absurd (omega (arith, e))

module _ (env : FunctionEnv) where
  add_implicit_return-Keeps : (s : BodyState) → IsBody s → Keeps s (add_implicit_return env s)
  unfolding add_implicit_return
  add_implicit_return-Keeps s w =
      if-Keeps _ (Keeps-refl s)
        (if-Keeps _ (fail-Keeps _ _ _ s w) (check_returns-Keeps 0 env.sig.returns s.trees s w))

  add_implicit_return-Returns :
      (s : BodyState) → ok (add_implicit_return env s).d ≡ true → Returns env.sig.returns s.trees
  unfolding add_implicit_return fail error
  add_implicit_return-Returns s h = elim (Bool-cases (length env.sig.returns == 0)) [
    | inl e ↦ no_Returns env.sig.returns s.trees (ground (arith, e))
    | inr e ↦ elim (Bool-cases (ltb (length s.trees) (length env.sig.returns))) [
      | inl f ↦ absurd (ground (arith, e, f, h))
      | inr f ↦
          check_returns-Returns 0 env.sig.returns s.trees s (ground (arith, f))
            (ground (arith, e, f, h))
    ]
  ]

  -- The end of the function is reached with no expression left open, and with its results.
  pub record FallsThrough (s : BodyState) : Type 0 where
    pub closed : s.stack ≡ []
    pub returns : Returns env.sig.returns s.trees

  check_closed-Keeps :
      (end : ℕ) (ps : List Production) (s : BodyState) → IsBody s → Keeps s (check_closed end ps s)
  unfolding check_closed
  check_closed-Keeps end [] s w = Keeps-refl s
  check_closed-Keeps end (p ∷ rest) s w = fail-Keeps _ _ _ s w

  check_closed-FallsThrough :
      (end : ℕ) (ps : List Production) (s : BodyState)
      → IsBody s
      → s.stack ≡ ps
      → ok (add_implicit_return env (check_closed end ps s)).d ≡ true
      → FallsThrough s
  unfolding check_closed fail error
  check_closed-FallsThrough end [] s w e h = record {
    closed = e;
    returns = add_implicit_return-Returns s h;
  }
  check_closed-FallsThrough end (p ∷ rest) s w e h =
      let s₁ = check_closed end (p ∷ rest) s in
      let k = check_closed-Keeps end (p ∷ rest) s w in
      let l = add_implicit_return-Keeps s₁ (k.same_class ∙ w) in
      absurd (ground (arith, l.ok_before h))

  check_fall_through-Keeps :
      (end : ℕ) (s : BodyState) → IsBody s → Keeps s (check_fall_through env end s)
  unfolding check_fall_through
  check_fall_through-Keeps end s w =
      and_then w (check_closed-Keeps end s.stack s w)
        (add_implicit_return-Keeps (check_closed end s.stack s))

  check_trees-Keeps : (ts : List Tree) (s : BodyState) → IsBody s → Keeps s (check_trees env ts s)
  unfolding check_trees
  check_trees-Keeps [] s w = fail_if-Keeps _ _ _ _ s w
  check_trees-Keeps (t ∷ ts) s w = Keeps-refl s

  pub finish_body-Keeps : (end : ℕ) (s : BodyState) → IsBody s → Keeps s (finish_body env end s)
  unfolding finish_body
  finish_body-Keeps end s w =
      let s₁ = if is_reachable s then check_fall_through env end s else s in
      if-Keeps (ok s.d)
        (and_then w (if-Keeps (is_reachable s) (check_fall_through-Keeps end s w) (Keeps-refl s))
          (check_trees-Keeps s₁.trees s₁))
        (Keeps-refl s)

  pub finish_body-FallsThrough :
      (end : ℕ) (s : BodyState)
      → IsBody s
      → ok (finish_body env end s).d ≡ true
      → is_reachable s ≡ true
      → FallsThrough s
  unfolding finish_body check_fall_through
  finish_body-FallsThrough end s w h r =
      let s₁ = check_fall_through env end s in
      let k = check_fall_through-Keeps end s w in
      let l = check_trees-Keeps s₁.trees s₁ (k.same_class ∙ w) in
      let m = finish_body-Keeps end s w in
      check_closed-FallsThrough end s.stack s w refl
        (l.ok_before (ground (arith, m.ok_before h, r, h)))
