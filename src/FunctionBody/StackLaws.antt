-- ===== src/FunctionBody/StackLaws.antt =====
-- The loop Reduce(Tree*) of LR_WasmDecoder in wasm/ast-decoder.cc, with Shift and Leaf.
use Prim.Native.Nat.{min}
use v8_native_prototype.Base.{
  ℕ, zero, suc, ◌≤◌, ◌≡◌, refl, ap, ◌∙◌, List, [], ◌∷◌, inl, inr, arith, length, Bool-cases,
}
use v8_native_prototype.Opcodes.Types.{LocalType}
use v8_native_prototype.WasmModule.Types.{FunctionEnv}
use v8_native_prototype.FunctionBody.State.{Tree, nil, Production, BodyState, done, production_tree}
use v8_native_prototype.FunctionBody.Stack.{
  reduce_production, add_child, reduce_round, finish_round, round, reduce_tree, reduce, leaf, shift,
}
use v8_native_prototype.FunctionBody.Keeps.{
  IsBody, frame, frames, Checks, Keeps-Checks, Checks-refl, check_then,
}
use v8_native_prototype.FunctionBody.ReduceKeeps.{reduce_production-Keeps}

length-frames : (ps : List Production) → length (frames ps) ≡ length ps
length-frames [] = refl
length-frames (p ∷ ps) = ap suc (length-frames ps)

module _ (env : FunctionEnv) where
  -- A round keeps the decoder's place and leaves the stack as it was, but for the child and types.
  pub reduce_round-Checks :
      (t : Tree) (p : Production) (rest : List Production) (s : BodyState)
      → IsBody s
      → Checks s.d (reduce_round env t p rest s).d
  unfolding reduce_round
  reduce_round-Checks t p rest s w =
      Keeps-Checks
        (reduce_production-Keeps env (add_child t p) (record s { stack = add_child t p ∷ rest }) w)

  pub reduce_round-trees :
      (t : Tree) (p : Production) (rest : List Production) (s : BodyState)
      → IsBody s
      → (reduce_round env t p rest s).trees ≡ s.trees
  unfolding reduce_round
  reduce_round-trees t p rest s w =
      let k =
        reduce_production-Keeps env (add_child t p) (record s { stack = add_child t p ∷ rest }) w in
      k.same_trees

  pub reduce_round-frames :
      (t : Tree) (p : Production) (rest : List Production) (s : BodyState)
      → IsBody s
      → frames (reduce_round env t p rest s).stack ≡ frame (add_child t p) ∷ frames rest
  unfolding reduce_round
  reduce_round-frames t p rest s w =
      let k =
        reduce_production-Keeps env (add_child t p) (record s { stack = add_child t p ∷ rest }) w in
      k.same_frames

  -- What the loop reads and may do with an error.
  pub finish_round-Checks :
      (next : Tree → BodyState → BodyState) (qs : List Production) (s : BodyState)
      → ((t' : Tree) (s' : BodyState) → IsBody s' → Checks s'.d (next t' s').d)
      → IsBody s
      → Checks s.d (finish_round env next qs s).d
  unfolding finish_round
  finish_round-Checks next [] s h w = Checks-refl s.d
  finish_round-Checks next (q ∷ qs) s h w = elim (Bool-cases (done q)) [
    | inl e ↦ rw (e, finish_round) (h (production_tree q) (record s { stack = qs }) w)
    | inr e ↦ rw (e, finish_round) (Checks-refl s.d)
  ]

  round-Checks :
      (next : Tree → BodyState → BodyState) (t : Tree) (ps : List Production) (s : BodyState)
      → ((t' : Tree) (s' : BodyState) → IsBody s' → Checks s'.d (next t' s').d)
      → IsBody s
      → Checks s.d (round env next t ps s).d
  unfolding round
  round-Checks next t [] s h w = Checks-refl s.d
  round-Checks next t (p ∷ rest) s h w =
      let s₁ = reduce_round env t p rest s in
      check_then w (reduce_round-Checks t p rest s w) (finish_round-Checks next s₁.stack s₁ h)

  pub reduce_tree-Checks :
      (n : ℕ) (t : Tree) (s : BodyState) → IsBody s → Checks s.d (reduce_tree env n t s).d
  unfolding reduce_tree
  reduce_tree-Checks zero t s w = round-Checks _ t s.stack s (λ t' s' v. Checks-refl s'.d) w
  reduce_tree-Checks (suc n) t s w = round-Checks _ t s.stack s (reduce_tree-Checks n) w

  -- Reduce, Leaf and Shift keep the decoder's place.
  pub reduce-Checks : (t : Tree) (s : BodyState) → IsBody s → Checks s.d (reduce env t s).d
  unfolding reduce
  reduce-Checks t s w = reduce_tree-Checks (length s.stack) t s w

  pub leaf-Checks : (type : LocalType) (s : BodyState) → IsBody s → Checks s.d (leaf env type s).d
  unfolding leaf
  leaf-Checks type s w = reduce-Checks _ s w

  pub shift-Checks :
      (type : LocalType) (count : ℕ) (s : BodyState)
      → IsBody s
      → Checks s.d (shift env type count s).d
  unfolding shift
  shift-Checks type zero s w =
      let p : Production = record { type = type; count = 0; pc = s.d.pc; children = nil } in
      check_then w (Keeps-Checks (reduce_production-Keeps env p s w))
        (reduce-Checks _ (reduce_production env p s))
  shift-Checks type (suc count) s w = Checks-refl s.d

  finish_round-same :
      (next next' : Tree → BodyState → BodyState) (ps : List Production) (s : BodyState) (n : ℕ)
      → IsBody s
      → length ps ≤ suc n
      → ((t : Tree) (s' : BodyState) → IsBody s' → length s'.stack ≤ n → next t s' ≡ next' t s')
      → finish_round env next ps s ≡ finish_round env next' ps s
  unfolding finish_round
  finish_round-same next next' [] s n w h same = refl
  finish_round-same next next' (p ∷ ps) s n w h same = elim (Bool-cases (done p)) [
    | inl e ↦
        rw (e, finish_round) (same (production_tree p) (record s { stack = ps }) w (omega arith))
    | inr e ↦ rw (e, finish_round) refl
  ]

  round_length :
      (t : Tree) (p : Production) (rest : List Production) (s : BodyState)
      → IsBody s
      → length (reduce_round env t p rest s).stack ≡ suc (length rest)
  round_length t p rest s w =
      let e = ap length (reduce_round-frames t p rest s w) in
      omega (arith, e, length-frames (reduce_round env t p rest s).stack, length-frames rest)

  round-same :
      (next next' : Tree → BodyState → BodyState) (t : Tree) (ps : List Production) (s : BodyState)
      (n : ℕ)
      → IsBody s
      → length ps ≤ suc n
      → ((t' : Tree) (s' : BodyState) → IsBody s' → length s'.stack ≤ n → next t' s' ≡ next' t' s')
      → round env next t ps s ≡ round env next' t ps s
  unfolding round
  round-same next next' t [] s n w h same = refl
  round-same next next' t (p ∷ rest) s n w h same =
      let s₁ = reduce_round env t p rest s in
      let k = reduce_round-Checks t p rest s w in
      finish_round-same next next' s₁.stack s₁ n (k.same_class ∙ w)
        (omega (arith, round_length t p rest s w)) same

  -- An empty stack is left with one round.
  round-nil :
      (next next' : Tree → BodyState → BodyState) (t : Tree) (ps : List Production) (s : BodyState)
      → length ps ≤ 0
      → round env next t ps s ≡ round env next' t ps s
  unfolding round
  round-nil next next' t [] s h = refl
  round-nil next next' t (p ∷ rest) s h = absurd (omega arith)

  -- More fuel than the length of the stack changes nothing: Reduce(Tree*) ends by its own tests,
  -- whatever the productions on the stack are.
  pub reduce_tree-fuel :
      (n m : ℕ) (t : Tree) (s : BodyState)
      → IsBody s
      → length s.stack ≤ n
      → length s.stack ≤ m
      → reduce_tree env n t s ≡ reduce_tree env m t s
  unfolding reduce_tree
  reduce_tree-fuel zero zero t s w h k = refl
  reduce_tree-fuel zero (suc m) t s w h k = round-nil _ _ t s.stack s h
  reduce_tree-fuel (suc n) zero t s w h k = round-nil _ _ t s.stack s k
  reduce_tree-fuel (suc n) (suc m) t s w h k =
      round-same (reduce_tree env n) (reduce_tree env m) t s.stack s (min n m) w (omega arith)
        λ t' s' v l. reduce_tree-fuel n m t' s' v (omega arith) (omega arith)
