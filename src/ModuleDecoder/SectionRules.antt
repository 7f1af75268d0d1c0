-- ===== src/ModuleDecoder/SectionRules.antt =====
-- The rules on the order of sections in DecodeModule of wasm/module-decoder.cc.
use v8_native_prototype.Base.{
  ℕ, zero, suc, ◌+◌, ◌-◌, ◌<◌, ◌≡◌, ◌≢◌, refl, ap, subst, ◌∙◌, Bool, true, false, List, [], ◌∷◌,
  some, arith, lt→ltb, get_or, set,
}
use v8_native_prototype.Decoder.State.{
  Message, Decoder, ok, error, on_first_error, section_present, section_missing,
}
use v8_native_prototype.Decoder.Steps.{IsReading, Steps, Steps-IsReading}
use v8_native_prototype.Decoder.Bytes.{IsAt, u8_lem}
use v8_native_prototype.ModuleDecoder.Sections.{
  Verifier, ModuleState, check_for_previous_section, to_section, max_module_section_code,
  function_table_section,
}
use v8_native_prototype.ModuleDecoder.Module.{run_section, decode_section, functions_section}
use v8_native_prototype.ModuleDecoder.Advance.{
  run_section-Advances, functions_section_checked, function_table_section_checked,
}
use v8_native_prototype.ModuleDecoder.EntrySteps.{Advances, check_for_previous_section-Steps}

-- The decoder has met its first error at `pc` with the message `msg`.
abbrev pub FailedAt : Decoder → ℕ → Message → Type 0
FailedAt d pc msg = (d.error_pc ≡ some pc) × (d.error_msg ≡ some msg)

pub FailedAt-Advances :
    {d d' : Decoder} (pc : ℕ) (msg : Message)
    → Advances d d'
    → FailedAt d pc msg
    → FailedAt d' pc msg
FailedAt-Advances pc msg a h = ground arith

pub FailedAt-Steps :
    {d d' : Decoder} (pc : ℕ) (msg : Message) → Steps d d' → FailedAt d pc msg → FailedAt d' pc msg
FailedAt-Steps pc msg a h = ground arith

check_present :
    (sections : List Bool) (b : ℕ) (d : Decoder)
    → ok d ≡ true
    → b < max_module_section_code
    → get_or sections b false ≡ true
    → FailedAt (check_for_previous_section sections b false d) (d.pc - 1) (section_present b)
unfolding check_for_previous_section error on_first_error
check_present sections b d h k e = ground arith

check_missing :
    (sections : List Bool) (b : ℕ) (d : Decoder)
    → ok d ≡ true
    → b < max_module_section_code
    → get_or sections b false ≡ false
    → FailedAt (check_for_previous_section sections b true d) (d.pc - 1) (section_missing b)
unfolding check_for_previous_section error on_first_error
check_missing sections b d h k e = ground arith

get_or-set_ne :
    (xs : List Bool) (i j : ℕ) (b d : Bool) → i ≢ j → get_or (set xs i b) j d ≡ get_or xs j d
get_or-set_ne [] i j b d h = refl
get_or-set_ne (x ∷ xs) zero zero b d h = absurd (h refl)
get_or-set_ne (x ∷ xs) zero (suc j) b d h = refl
get_or-set_ne (x ∷ xs) (suc i) zero b d h = refl
get_or-set_ne (x ∷ xs) (suc i) (suc j) b d h = get_or-set_ne xs i j b d (λ e. h (ap suc e))

module _ (verify : Verifier) (asm_js vb : Bool) (s : ModuleState) (v : IsReading s.d)
    (well : ok s.d ≡ true) where
  next_IsReading :
      (b : ℕ) (rest : List ℕ) → IsAt s.d (b ∷ []) rest → IsReading (record s.d { pc = s.d.pc + 1 })
  next_IsReading b rest at = ground (arith, v, at.fits)

  functions_section_missing :
      get_or s.sections 1 false ≡ false
      → FailedAt (functions_section verify asm_js vb s).d (s.d.pc - 1) (section_missing 1)
  functions_section_missing unseen =
      FailedAt-Steps _ _
        (functions_section_checked verify asm_js vb s
          (Steps-IsReading (check_for_previous_section-Steps s.sections 1 true s.d v) v))
        (check_missing s.sections 1 s.d well (omega arith) unseen)

  function_table_section_missing :
      get_or s.sections 2 false ≡ false
      → FailedAt (function_table_section s).d (s.d.pc - 1) (section_missing 2)
  function_table_section_missing unseen =
      FailedAt-Steps _ _
        (function_table_section_checked s
          (Steps-IsReading (check_for_previous_section-Steps s.sections 2 true s.d v) v))
        (check_missing s.sections 2 s.d well (omega arith) unseen)

  -- A section byte that has been seen before makes the round fail at that byte, with the message
  -- that the section is already present, whatever follows it.
  pub decode_section_twice :
      (b : ℕ) (rest : List ℕ)
      → IsAt s.d (b ∷ []) rest
      → b < max_module_section_code
      → get_or s.sections b false ≡ true
      → FailedAt (decode_section verify asm_js vb s).d s.d.pc (section_present b)
  unfolding decode_section
  decode_section_twice b rest at small seen =
      let d₁ : Decoder = record s.d { pc = s.d.pc + 1 } in
      let d₂ = check_for_previous_section s.sections b false d₁ in
      let s₁ : ModuleState = record s { d = d₂; sections = set s.sections b true } in
      let at_byte : d₁.pc - 1 ≡ s.d.pc = omega arith in
      let failed = check_present s.sections b d₁ well small seen in
      let failed' : FailedAt d₂ s.d.pc (section_present b) =
        subst (λ p. FailedAt d₂ p (section_present b)) at_byte failed in
      let w = next_IsReading b rest at in
      let w' = Steps-IsReading (check_for_previous_section-Steps s.sections b false d₁ w) w in
      rw (u8_lem s.d b rest at, lt→ltb b max_module_section_code small)
        (FailedAt-Advances s.d.pc (section_present b)
          (run_section-Advances verify asm_js vb (to_section b) b s₁ w') failed')

-- The section that another one requires: functions want the signatures, the function table wants the
-- functions.
pub data Requires : ℕ → ℕ → Type 0 where
  functions_want_signatures : Requires 2 1
  table_wants_functions : Requires 5 2

add_sub_one : (n : ℕ) → n + 1 - 1 ≡ n
add_sub_one n = omega arith

check_fresh :
    (sections : List Bool) (b : ℕ) (d : Decoder)
    → get_or sections b false ≡ false
    → check_for_previous_section sections b false d ≡ d
unfolding check_for_previous_section
check_fresh sections b d h = ground arith

module _ (verify : Verifier) (asm_js vb : Bool) (s : ModuleState) (v : IsReading s.d)
    (well : ok s.d ≡ true) where
  -- A section that is seen for the first time while the section that it requires has not been seen
  -- makes the round fail at its byte, with the message that the required section is missing.
  pub decode_section_missing :
      (b required : ℕ) (rest : List ℕ)
      → Requires b required
      → IsAt s.d (b ∷ []) rest
      → get_or s.sections b false ≡ false
      → get_or s.sections required false ≡ false
      → FailedAt (decode_section verify asm_js vb s).d s.d.pc (section_missing required)
  unfolding decode_section run_section to_section
  decode_section_missing b required rest functions_want_signatures at fresh unseen =
      let d₁ : Decoder = record s.d { pc = s.d.pc + 1 } in
      let s₁ : ModuleState = record s { d = d₁; sections = set s.sections 2 true } in
      let unseen' : get_or (set s.sections 2 true) 1 false ≡ false =
        get_or-set_ne s.sections 2 1 true false (omega arith) ∙ unseen in
      rw (u8_lem s.d 2 rest at, check_fresh s.sections 2 d₁ fresh)
        (subst (λ p. FailedAt (functions_section verify asm_js vb s₁).d p (section_missing 1))
          (add_sub_one s.d.pc)
          (functions_section_missing verify asm_js vb s₁
            (next_IsReading verify asm_js vb s v well 2 rest at) well unseen'))
  decode_section_missing b required rest table_wants_functions at fresh unseen =
      let d₁ : Decoder = record s.d { pc = s.d.pc + 1 } in
      let s₁ : ModuleState = record s { d = d₁; sections = set s.sections 5 true } in
      let unseen' : get_or (set s.sections 5 true) 2 false ≡ false =
        get_or-set_ne s.sections 5 2 true false (omega arith) ∙ unseen in
      rw (u8_lem s.d 5 rest at, check_fresh s.sections 5 d₁ fresh)
        (subst (λ p. FailedAt (function_table_section s₁).d p (section_missing 2))
          (add_sub_one s.d.pc)
          (function_table_section_missing verify asm_js vb s₁
            (next_IsReading verify asm_js vb s v well 5 rest at) well unseen'))
