-- ===== src/FunctionBody/WellTyped.antt =====
-- The types of the trees and productions of LR_WasmDecoder in wasm/ast-decoder.cc, under Reduce, Leaf
-- and Shift.
use v8_native_prototype.Base.{
  some, ℕ, zero, suc, ◌≤◌, ◌<◌, ◌≡◌, refl, subst, ◌∙◌, true, false, List, [], ◌∷◌, inl, inr, arith,
  All, length, Bool-cases,
}
use v8_native_prototype.Opcodes.Types.{LocalType}
use v8_native_prototype.Decoder.State.{ok}
use v8_native_prototype.WasmModule.Types.{FunctionEnv}
use v8_native_prototype.FunctionBody.State.{
  Tree, tree, nil, size, Production, production_tree, done, BodyState,
}
use v8_native_prototype.FunctionBody.Stack.{
  reduce_production, add_child, reduce_round, finish_round, round, reduce_tree, reduce, leaf, shift,
}
use v8_native_prototype.FunctionBody.Typing.{
  IsTyped, typed, Fits, fits_nil, fits_snoc, HasType, childless_type,
}
use v8_native_prototype.FunctionBody.LastLaws.{TopTyped, reduce_round-TopTyped}
use v8_native_prototype.FunctionBody.Keeps.{
  Keeps, IsBody, Frame, frame, frames, Checks, Checks-refl, Checks-trans, Keeps-Checks,
}
use v8_native_prototype.FunctionBody.ReduceKeeps.{reduce_production-Keeps}
use v8_native_prototype.FunctionBody.TypeLaws.{reduce_production-Allows}
use v8_native_prototype.FunctionBody.StackLaws.{
  finish_round-Checks, reduce_tree-Checks, reduce_round-Checks, reduce_round-frames,
  reduce_round-trees, leaf-Checks, reduce-Checks,
}

module _ (env : FunctionEnv) (mem : List ℕ) (limit : ℕ) where
  -- A production still waits for a child, and those that it has fit.
  pub record IsOpen (f : Frame) : Type 0 where
    pub room : size f.children < f.count
    pub fits : Fits env mem limit f.pc f.children

  -- The production on top when it has just got a child.
  pub record IsGrown (f : Frame) : Type 0 where
    pub room : size f.children ≤ f.count
    pub fits : Fits env mem limit f.pc f.children

  abbrev pub Round : List Frame → Type 0
  Round [] = Unit
  Round (f ∷ fs) = IsGrown f × All IsOpen fs

  pub record Well (ts : List Tree) (fs : List Frame) : Type 0 where
    pub trees_typed : All (IsTyped env mem limit) ts
    pub frames_open : All IsOpen fs

  grown-IsTyped :
      (q : Production)
      → IsGrown (frame q)
      → HasType env mem limit q.type q.pc q.children
      → done q ≡ true
      → IsTyped env mem limit (production_tree q)
  unfolding done
  grown-IsTyped q g k h =
      let e : size q.children ≡ q.count = ground (arith, g, h) in
      subst (λ n. IsTyped env mem limit (tree q.type n q.pc q.children)) e
        (typed q.type q.pc q.children g.fits k)

  grown-IsOpen : (q : Production) → IsGrown (frame q) → done q ≡ false → IsOpen (frame q)
  unfolding done
  grown-IsOpen q g h = record { room = ground (arith, g, h); fits = g.fits }

module _ (env : FunctionEnv) where
  abbrev pub IsWell : BodyState → Type 0
  IsWell s = Well env s.d.mem s.d.limit s.trees (frames s.stack)

  abbrev pub IsTypedIn : BodyState → Tree → Type 0
  IsTypedIn s t = IsTyped env s.d.mem s.d.limit t

  pub Keeps-IsWell : {s s' : BodyState} → Keeps s s' → ok s'.d ≡ true → IsWell s → IsWell s'
  Keeps-IsWell {s} {s'} k e v = rw (k.same_mem, k.same_limit e, k.same_trees, k.same_frames) v

  -- What the next round is to keep.
  abbrev NextKeeps : (Tree → BodyState → BodyState) → Type 0
  NextKeeps next =
      (t : Tree) (s : BodyState)
      → IsBody s
      → ok (next t s).d ≡ true
      → IsTypedIn s t
      → IsWell s
      → IsWell (next t s)

  finish_round-IsWell :
      (next : Tree → BodyState → BodyState) (qs : List Production) (s : BodyState)
      → NextKeeps next
      → IsBody s
      → s.stack ≡ qs
      → ok (finish_round env next qs s).d ≡ true
      → All (IsTypedIn s) s.trees
      → Round env s.d.mem s.d.limit (frames qs)
      → TopTyped env s.d.mem s.d.limit qs
      → IsWell (finish_round env next qs s)
  unfolding finish_round
  finish_round-IsWell next [] s n w e h ts fs k = record { trees_typed = ts; frames_open = rw e _ }
  finish_round-IsWell next (q ∷ qs) s n w e h ts fs k = elim (Bool-cases (done q)) [
    | inl c ↦
        rw (c, finish_round)
          (n (production_tree q) (record s { stack = qs }) w (ground (arith, c, h))
            (grown-IsTyped env s.d.mem s.d.limit q fs.0 k c)
            (record { trees_typed = ts; frames_open = fs.1 }))
    | inr c ↦
        rw (c, finish_round)
          (record {
            trees_typed = ts;
            frames_open = rw e (grown-IsOpen env s.d.mem s.d.limit q fs.0 c, fs.1);
          })
  ]

  -- A child that Reduce(Production*) accepts makes the production grow.
  reduce_round-Round :
      (t : Tree) (p : Production) (rest : List Production) (s : BodyState)
      → IsBody s
      → ok (reduce_round env t p rest s).d ≡ true
      → IsTypedIn s t
      → All (IsOpen env s.d.mem s.d.limit) (frames (p ∷ rest))
      → let s₁ = reduce_round env t p rest s in Round env s₁.d.mem s₁.d.limit (frames s₁.stack)
  unfolding reduce_round add_child
  reduce_round-Round t p rest s w h v fs =
      let k = reduce_round-Checks env t p rest s w in
      let o = fs.0 in
      rw (k.same_mem, k.same_limit h, reduce_round-frames env t p rest s w)
        (
          record {
            room = omega (arith, o.room);
            fits =
                fits_snoc p.pc p.children t o.fits v (
                  reduce_production-Allows t p env (record s { stack = add_child t p ∷ rest }) w h);
          },
          fs.1,
        )

  round-IsWell :
      (next : Tree → BodyState → BodyState) (t : Tree) (ps : List Production) (s : BodyState)
      → ((t' : Tree) (s' : BodyState) → IsBody s' → Checks s'.d (next t' s').d)
      → NextKeeps next
      → IsBody s
      → s.stack ≡ ps
      → ok (round env next t ps s).d ≡ true
      → IsTypedIn s t
      → IsWell s
      → IsWell (round env next t ps s)
  unfolding round
  round-IsWell next t [] s c n w e h v o = record {
    trees_typed = (v, o.trees_typed);
    frames_open = o.frames_open;
  }
  round-IsWell next t (p ∷ rest) s c n w e h v o =
      let s₁ = reduce_round env t p rest s in
      let k = reduce_round-Checks env t p rest s w in
      let u : IsBody s₁ = k.same_class ∙ w in
      let l = finish_round-Checks env next s₁.stack s₁ c u in
      let g = l.ok_before h in
      finish_round-IsWell next s₁.stack s₁ n u refl h
        (rw (k.same_mem, k.same_limit g, reduce_round-trees env t p rest s w) o.trees_typed)
        (reduce_round-Round t p rest s w g v
          (subst (λ qs. All (IsOpen env s.d.mem s.d.limit) (frames qs)) e o.frames_open))
        (rw (k.same_mem, k.same_limit g) (reduce_round-TopTyped env t p rest s w g))

  reduce_tree-IsWell : (n : ℕ) → NextKeeps (reduce_tree env n)
  unfolding reduce_tree
  reduce_tree-IsWell zero t s w h v o =
      round-IsWell _ t s.stack s (λ t' s' w'. Checks-refl s'.d) (λ t' s' w' h' v' o'. o') w refl h v
        o
  reduce_tree-IsWell (suc n) t s w h v o =
      round-IsWell _ t s.stack s (reduce_tree-Checks env n) (reduce_tree-IsWell n) w refl h v o

  pub reduce-IsWell : NextKeeps (reduce env)
  unfolding reduce
  reduce-IsWell t s w h v o = reduce_tree-IsWell (length s.stack) t s w h v o

  -- What a step of the decoder does to its place, and to the types.
  pub record Moves (s s' : BodyState) : Type 0 where
    pub checks : Checks s.d s'.d
    pub well : ok s'.d ≡ true → IsWell s → IsWell s'

  pub Keeps-Moves : {s s' : BodyState} → Keeps s s' → Moves s s'
  Keeps-Moves k = record { checks = Keeps-Checks k; well = Keeps-IsWell k }

  pub Moves-trans : {s s' s'' : BodyState} → Moves s s' → Moves s' s'' → Moves s s''
  Moves-trans k l = record {
    checks = Checks-trans k.checks l.checks;
    well = λ h o. l.well h (k.well (l.checks.ok_before h) o);
  }

  pub move_then :
      {s s' s'' : BodyState} → IsBody s → Moves s s' → (IsBody s' → Moves s' s'') → Moves s s''
  move_then w k f = Moves-trans k (f (k.checks.same_class ∙ w))

  -- Where the decoder has met no error, the opcode at pc has trees of a type without children.
  abbrev pub IsChildless : LocalType → BodyState → Type 0
  IsChildless type s = ok s.d ≡ true → childless_type env s.d.mem s.d.limit s.d.pc ≡ some type

  pub leaf-Moves :
      (type : LocalType) (s : BodyState) → IsBody s → IsChildless type s → Moves s (leaf env type s)
  unfolding leaf
  leaf-Moves type s w c = record {
    checks = leaf-Checks env type s w;
    well = λ h o.
        let k = reduce-Checks env (tree type 0 s.d.pc nil) s w in
        reduce-IsWell _ s w h (typed type s.d.pc nil (fits_nil s.d.pc) (c (k.ok_before h))) o;
  }

  -- A production with children goes to the stack.
  pub shift_waiting-Moves :
      (type : LocalType) (count : ℕ) (s : BodyState)
      → IsBody s
      → Moves s (shift env type (suc count) s)
  unfolding shift
  shift_waiting-Moves type count s w = record {
    checks = Checks-refl s.d;
    well = λ h o. record {
      trees_typed = o.trees_typed;
      frames_open = (record { room = omega arith; fits = fits_nil s.d.pc }, o.frames_open);
    };
  }

  pub shift-Moves :
      (type : LocalType) (count : ℕ) (s : BodyState)
      → IsBody s
      → IsChildless type s
      → Moves s (shift env type count s)
  shift-Moves type zero s w c =
      let p : Production = record { type = type; count = 0; pc = s.d.pc; children = nil } in
      let s₁ = reduce_production env p s in
      let l = reduce_production-Keeps env p s w in
      unfold shift in
      move_then w (Keeps-Moves l) λ v.
        let k = reduce-Checks env (production_tree p) s₁ v in
        record {
          checks = k;
          well = λ h o.
              let g = k.ok_before h in
              let e : childless_type env s₁.d.mem s₁.d.limit s.d.pc ≡ some type =
                rw (l.same_mem, l.same_limit g) (c (l.ok_before g)) in
              reduce-IsWell _ s₁ v h (typed type s.d.pc nil (fits_nil s.d.pc) e) o;
        }
  shift-Moves type (suc count) s w c = shift_waiting-Moves type count s w

  pub shift_positive-Moves :
      (type : LocalType) (count : ℕ) (s : BodyState)
      → 0 < count
      → IsBody s
      → Moves s (shift env type count s)
  shift_positive-Moves type zero s h w = absurd (omega (arith, h))
  shift_positive-Moves type (suc count) s h w = shift_waiting-Moves type count s w
