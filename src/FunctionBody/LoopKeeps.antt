-- ===== src/FunctionBody/LoopKeeps.antt =====
-- The types of the trees and productions under the decoding loop of LR_WasmDecoder in
-- wasm/ast-decoder.cc.
use v8_native_prototype.Base.{
  ℕ, zero, suc, ◌-◌, ◌≡◌, refl, ◌∙◌, true, Option, none, some, inl, inr, Bool-cases, ltb, leb,
}
use v8_native_prototype.Decoder.State.{ok}
use v8_native_prototype.WasmModule.Types.{FunctionEnv}
use v8_native_prototype.FunctionBody.State.{BodyState}
use v8_native_prototype.FunctionBody.Decode.{decode_one}
use v8_native_prototype.FunctionBody.Body.{
  advance, check_end, after_opcode, body_loop, decode_function_body,
}
use v8_native_prototype.FunctionBody.Keeps.{Keeps, IsBody, Keeps-refl, fail_if-Keeps}
use v8_native_prototype.FunctionBody.WellTyped.{Moves, Keeps-Moves, IsWell}
use v8_native_prototype.FunctionBody.DecodeMoves.{decode_one-Moves}

check_end-Keeps : (s : BodyState) → IsBody s → Keeps s (check_end s)
unfolding check_end
check_end-Keeps s w = fail_if-Keeps _ _ _ _ s w

module _ (env : FunctionEnv) where
  -- An end without an error comes from a state without one, and keeps the types.
  pub record LoopKeeps (s s' : BodyState) : Type 0 where
    pub same_class : s'.d.class ≡ s.d.class
    pub same_mem : s'.d.mem ≡ s.d.mem
    pub ok_before : ok s'.d ≡ true → ok s.d ≡ true
    pub same_limit : ok s'.d ≡ true → s'.d.limit ≡ s.d.limit
    pub well : ok s'.d ≡ true → IsWell env s → IsWell env s'

  Moves-LoopKeeps : {s s' : BodyState} → Moves env s s' → LoopKeeps s s'
  Moves-LoopKeeps m =
      let k = m.checks in
      record {
        same_class = k.same_class;
        same_mem = k.same_mem;
        ok_before = k.ok_before;
        same_limit = k.same_limit;
        well = m.well;
      }

  loop_then :
      {s s' s'' : BodyState}
      → IsBody s
      → LoopKeeps s s'
      → (IsBody s' → LoopKeeps s' s'')
      → LoopKeeps s s''
  loop_then w k f =
      let l = f (k.same_class ∙ w) in
      record {
        same_class = l.same_class ∙ k.same_class;
        same_mem = l.same_mem ∙ k.same_mem;
        ok_before = λ h. k.ok_before (l.ok_before h);
        same_limit = λ h. l.same_limit h ∙ k.same_limit (l.ok_before h);
        well = λ h o. l.well h (k.well (l.ok_before h) o);
      }

  Keeps-LoopKeeps : {s s' : BodyState} → Keeps s s' → LoopKeeps s s'
  Keeps-LoopKeeps k = Moves-LoopKeeps (Keeps-Moves env k)

  advance-LoopKeeps : (len : ℕ) (s : BodyState) → LoopKeeps s (advance len s)
  unfolding advance
  advance-LoopKeeps len s = record {
    same_class = refl;
    same_mem = refl;
    ok_before = λ h. h;
    same_limit = λ h. refl;
    well = λ h o. o;
  }

  after_opcode-LoopKeeps :
      (next : BodyState → BodyState) (s : BodyState) (r : Option ℕ × BodyState)
      → IsBody s
      → Moves env s r.1
      → ((s' : BodyState) → IsBody s' → LoopKeeps s' (next s'))
      → LoopKeeps s (after_opcode next r)
  unfolding after_opcode
  after_opcode-LoopKeeps next s (none, s₁) w m ih = Moves-LoopKeeps m
  after_opcode-LoopKeeps next s (some len, s₁) w m ih =
      let s₂ = advance len s₁ in
      loop_then w (Moves-LoopKeeps m) λ v. loop_then v (advance-LoopKeeps len s₁) λ u.
        elim (Bool-cases (ltb s₂.d.pc s₂.d.limit)) [
          | inl e ↦ rw (e, after_opcode) (ih s₂ u)
          | inr e ↦ rw (e, after_opcode) (Keeps-LoopKeeps (check_end-Keeps s₂ u))
        ]

  body_loop-LoopKeeps : (n : ℕ) (s : BodyState) → IsBody s → LoopKeeps s (body_loop env n s)
  unfolding body_loop
  body_loop-LoopKeeps zero s w = Keeps-LoopKeeps (Keeps-refl s)
  body_loop-LoopKeeps (suc n) s w =
      after_opcode-LoopKeeps (body_loop env n) s (decode_one env s) w (decode_one-Moves env s w)
        (body_loop-LoopKeeps n)

  pub decode_function_body-LoopKeeps :
      (s : BodyState) → IsBody s → LoopKeeps s (decode_function_body env s)
  unfolding decode_function_body
  decode_function_body-LoopKeeps s w = elim (Bool-cases (leb s.d.limit s.d.pc)) [
    | inl e ↦ rw (e, decode_function_body) (Keeps-LoopKeeps (Keeps-refl s))
    | inr e ↦ rw (e, decode_function_body) (body_loop-LoopKeeps (s.d.limit - s.d.pc) s w)
  ]
