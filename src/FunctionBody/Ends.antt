-- ===== src/FunctionBody/Ends.antt =====
-- The end of DecodeFunctionBody of LR_WasmDecoder in wasm/ast-decoder.cc.
use v8_native_prototype.Base.{
  ℕ, zero, suc, refl, sym, ◌-◌, ◌≤◌, ◌<◌, ◌≡◌, ◌∙◌, ◌⊎◌, inl, inr, true, false, Option, none, some,
  arith, Bool-cases, ltb, leb,
}
use v8_native_prototype.Decoder.State.{ok, error}
use v8_native_prototype.WasmModule.Types.{FunctionEnv}
use v8_native_prototype.FunctionBody.State.{BodyState}
use v8_native_prototype.FunctionBody.Operands.{fail}
use v8_native_prototype.FunctionBody.Decode.{decode_one}
use v8_native_prototype.FunctionBody.Body.{
  advance, check_end, after_opcode, body_loop, decode_function_body,
}
use v8_native_prototype.FunctionBody.Keeps.{IsBody, Checks}
use v8_native_prototype.FunctionBody.DecodeMoves.{decode_one-Moves}
use v8_native_prototype.FunctionBody.DecodeSteps.{IsStep, decode_one-IsStep}

-- A body decoder with bytes left to read.
pub record IsInside (s : BodyState) : Type 0 where
  pub body : IsBody s
  pub above : s.d.start ≤ s.d.pc
  pub below : s.d.pc < s.d.limit

-- The loop ends: with an error, or without one at the limit that it began with.
abbrev pub Ends : BodyState → BodyState → Type 0
Ends s s' = (ok s'.d ≡ false) ⊎ ((ok s.d ≡ true) × (s'.d.pc ≡ s.d.limit))

check_end-Ends : (s : BodyState) → s.d.limit ≤ s.d.pc → Ends s (check_end s)
unfolding check_end fail error
check_end-Ends s h = ground arith

-- What came before an opcode and its length, and the loop behind them.
Ends-advance :
    (s s₁ s' : BodyState) (len : ℕ) → Checks s.d s₁.d → Ends (advance len s₁) s' → Ends s s'
unfolding advance
Ends-advance s s₁ s' len k (inl e) = inl e
Ends-advance s s₁ s' len k (inr (e, f)) = inr (k.ok_before e, f ∙ k.same_limit e)

after_opcode-Ends :
    (next : BodyState → BodyState) (s : BodyState) (r : Option ℕ × BodyState)
    → IsInside s
    → Checks s.d r.1.d
    → IsStep r
    → ((s' : BodyState)
        → IsInside s'
        → s'.d.limit - s'.d.pc < s.d.limit - s.d.pc
        → Ends s' (next s'))
    → Ends s (after_opcode next r)
unfolding after_opcode
after_opcode-Ends next s (none, s₁) v k h ih = inl h
after_opcode-Ends next s (some len, s₁) v k h ih =
    let s₂ = advance len s₁ in
    elim (Bool-cases (ltb s₂.d.pc s₂.d.limit)) [
      | inl e ↦
          rw (e, after_opcode)
            (Ends-advance s s₁ (next s₂) len k (
              ih s₂ (unfold advance in ground (arith, v, k))
                (unfold advance in ground (arith, v, k))))
      | inr e ↦
          rw (e, after_opcode)
            (Ends-advance s s₁ (check_end s₂) len k (check_end-Ends s₂ (ground arith)))
    ]

-- The two cases behind an opcode with a length.
after_opcode_goes_on :
    (next : BodyState → BodyState) (len : ℕ) (s : BodyState)
    → let s₁ = advance len s in
      ltb s₁.d.pc s₁.d.limit ≡ true → after_opcode next (some len, s) ≡ next s₁
unfolding after_opcode
after_opcode_goes_on next len s e = rw (e, after_opcode) refl

after_opcode_stops :
    (next : BodyState → BodyState) (len : ℕ) (s : BodyState)
    → let s₁ = advance len s in
      ltb s₁.d.pc s₁.d.limit ≡ false → after_opcode next (some len, s) ≡ check_end s₁
unfolding after_opcode
after_opcode_stops next len s e = rw (e, after_opcode) refl

-- Two ways to go on that agree on what is left agree here.
after_opcode-same :
    (next next' : BodyState → BodyState) (s : BodyState) (r : Option ℕ × BodyState)
    → IsInside s
    → Checks s.d r.1.d
    → IsStep r
    → ((s' : BodyState)
        → IsInside s'
        → s'.d.limit - s'.d.pc < s.d.limit - s.d.pc
        → next s' ≡ next' s')
    → after_opcode next r ≡ after_opcode next' r
after_opcode-same next next' s (none, s₁) v k h ih = unfold after_opcode in refl
after_opcode-same next next' s (some len, s₁) v k h ih =
    let s₂ = advance len s₁ in
    elim (Bool-cases (ltb s₂.d.pc s₂.d.limit)) [
      | inl e ↦
          after_opcode_goes_on next len s₁ e
          ∙ ih s₂ (unfold advance in ground (arith, v, k, e))
              (unfold advance in ground (arith, v, k, e))
          ∙ sym (after_opcode_goes_on next' len s₁ e)
      | inr e ↦ after_opcode_stops next len s₁ e ∙ sym (after_opcode_stops next' len s₁ e)
    ]

module _ (env : FunctionEnv) where
  body_loop-Ends :
      (n : ℕ) (s : BodyState) → IsInside s → s.d.limit - s.d.pc ≤ n → Ends s (body_loop env n s)
  unfolding body_loop
  body_loop-Ends zero s v h = absurd (omega (arith, v.below))
  body_loop-Ends (suc n) s v h =
      let m = decode_one-Moves env s v.body in
      after_opcode-Ends (body_loop env n) s (decode_one env s) v m.checks (decode_one-IsStep env s)
        λ s' v' l. body_loop-Ends n s' v' (omega arith)

  -- More rounds than there are bytes left change nothing.
  body_loop-same :
      (n m : ℕ) (s : BodyState)
      → IsInside s
      → s.d.limit - s.d.pc ≤ n
      → s.d.limit - s.d.pc ≤ m
      → body_loop env n s ≡ body_loop env m s
  unfolding body_loop
  body_loop-same zero m s v h k = absurd (omega (arith, v.below))
  body_loop-same (suc n) zero s v h k = absurd (omega (arith, v.below))
  body_loop-same (suc n) (suc m) s v h k =
      let r = decode_one-Moves env s v.body in
      after_opcode-same (body_loop env n) (body_loop env m) s (decode_one env s) v r.checks
        (decode_one-IsStep env s) λ s' v' l. body_loop-same n m s' v' (omega arith) (omega arith)

  pub decode_function_body_ends :
      (s : BodyState) (n : ℕ)
      → IsInside s
      → s.d.limit - s.d.pc ≤ n
      → let s' = decode_function_body env s in
        (body_loop env n s ≡ s') × ((ok s'.d ≡ false) ⊎ ((ok s.d ≡ true) × (s'.d.pc ≡ s.d.limit)))
  unfolding decode_function_body
  decode_function_body_ends s n v h =
      let e : leb s.d.limit s.d.pc ≡ false = ground (arith, v) in
      let m = s.d.limit - s.d.pc in
      rw e (body_loop-same n m s v h (omega arith), body_loop-Ends m s v (omega arith))
