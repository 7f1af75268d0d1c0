-- ===== src/ModuleDecoder/Verified.antt =====
-- DecodeModule of wasm/module-decoder.cc with the verification of bodies switched on: the functions of
-- a module without an error are those whose bodies the verifier accepts.
use v8_native_prototype.Base.{
  ℕ, zero, suc, ◌+◌, ◌-◌, ◌≡◌, ◌≢◌, refl, subst, Bool, true, false, List, [], ◌∷◌, ◌++◌, none, some,
  inl, inr, arith, All, Bool-cases, Option-cases, ltb, set,
}
use v8_native_prototype.Opcodes.Types.{FunctionSig}
use v8_native_prototype.Decoder.State.{
  ok, failed, error, result_ok, copy_from, unrecognized_section,
}
use v8_native_prototype.Decoder.Reads.{u8}
use v8_native_prototype.Decoder.Steps.{
  IsReading, Steps, Steps-IsReading, Steps-trans, ok_before, u8-Steps, error-Steps,
}
use v8_native_prototype.WasmModule.Types.{FunctionEnv, ModuleEnv, WasmFunction, WasmModule}
use v8_native_prototype.ModuleDecoder.Items.{decode_function_in_module}
use v8_native_prototype.ModuleDecoder.Steps.{decode_function_in_module-Steps}
use v8_native_prototype.ModuleDecoder.Sections.{
  WasmSectionDeclCode, decl_end, decl_memory, decl_signatures, decl_functions, decl_globals,
  decl_data_segments, decl_function_table, unrecognized, max_module_section_code, Verifier,
  ModuleState, error_copied, function_env, check_for_previous_section, decode_counted,
  memory_section, signatures_section, globals_section, data_segments_section,
  function_table_section, to_section,
}
use v8_native_prototype.ModuleDecoder.Module.{
  report_failure, verify_function_body, verify_step, verify_functions, functions_section,
  run_section, decode_section, decode_sections,
}
use v8_native_prototype.ModuleDecoder.Advance.{
  verify_step-Steps, verify_functions-Steps, memory_section-Steps, signatures_section-Steps,
  globals_section-Steps, data_segments_section-Steps, function_table_section-Steps,
  decode_section-Advances,
}
use v8_native_prototype.ModuleDecoder.EntrySteps.{
  check_for_previous_section-Steps, decode_counted-Steps, Advances-IsReading,
}
use v8_native_prototype.ModuleDecoder.InvariantLoop.{verify_functions-module}

-- A verifier that names a place where it fails.
abbrev pub Reports : Verifier → Type 0
Reports verify =
    (env : FunctionEnv) (mem : List ℕ) (base start end : ℕ)
    → let r = verify env mem base start end in result_ok r ≡ false → r.error_pc ≢ none

module _ (verify : Verifier) where
  -- The verifier accepts the body of a function that is not external.
  abbrev pub BodyVerified : ModuleEnv → List ℕ → ℕ → WasmFunction → Type 0
  BodyVerified menv mem start f =
      f.external ≡ false
      → (sg : FunctionSig) → f.sig ≡ some sg
      → result_ok (
          verify (function_env menv sg f) mem start (start + f.code_start_offset)
            (start + f.code_end_offset))
        ≡ true

  -- All functions of a module are verified, in the module as it was with just these functions.
  abbrev pub AllVerified : Bool → List ℕ → ℕ → List WasmFunction → Type 0
  AllVerified asm_js mem start fs =
      (m : WasmModule) × (m.functions ≡ fs)
      × All (BodyVerified (record { wasm_module = some m; asm_js = asm_js }) mem start) fs

  verify_step-BodyVerified :
      (i : ℕ) (menv : ModuleEnv) (f : WasmFunction) (s : ModuleState)
      → Reports verify
      → ok (verify_step verify i menv f s).d ≡ true
      → BodyVerified menv s.d.mem s.d.start f
  unfolding verify_step verify_function_body report_failure error_copied error copy_from
  verify_step-BodyVerified i menv f s r h x sg e =
      let v =
        verify (function_env menv sg f) s.d.mem s.d.start (s.d.start + f.code_start_offset)
          (s.d.start + f.code_end_offset) in
      elim (Bool-cases (result_ok v)) [
        | inl k ↦ k
        | inr k ↦ elim (Option-cases v.error_pc) [
          | inl n ↦ absurd (r _ _ _ _ _ k n)
          | inr (pc, n) ↦ absurd (ground (arith, x, e, k, n, h))
        ]
      ]

  verify_functions-BodyVerified :
      (i : ℕ) (menv : ModuleEnv) (fs : List WasmFunction) (s : ModuleState)
      → Reports verify
      → IsReading s.d
      → ok (verify_functions verify i menv fs s).d ≡ true
      → All (BodyVerified menv s.d.mem s.d.start) fs
  unfolding verify_functions
  verify_functions-BodyVerified i menv [] s r v h = _
  verify_functions-BodyVerified i menv (f ∷ fs) s r v h = elim (Bool-cases (failed s.d)) [
    | inl e ↦ absurd (ground (arith, e, h))
    | inr e ↦
        let s₁ = verify_step verify i menv f s in
        let st = verify_step-Steps verify i menv f s v in
        let v₁ = Steps-IsReading st v in
        let h₁ : ok (verify_functions verify (suc i) menv fs s₁).d ≡ true = ground (arith, e, h) in
        let rest = verify_functions-BodyVerified (suc i) menv fs s₁ r v₁ h₁ in
        (
          verify_step-BodyVerified i menv f s r
              (ok_before (verify_functions-Steps verify (suc i) menv fs s₁ v₁) h₁),
          subst (λ mem. All (BodyVerified menv mem s.d.start) fs) st.same_mem
              (subst (λ n. All (BodyVerified menv s₁.d.mem n) fs) st.same_start rest),
        )
  ]

  -- As long as there is no error, all functions that were read are verified.
  abbrev pub InvVerified : Bool → ModuleState → Type 0
  InvVerified asm_js s =
      ok s.d ≡ true → AllVerified asm_js s.d.mem s.d.start s.wasm_module.functions

  keep-InvVerified :
      (a : Bool) (s t : ModuleState)
      → Steps s.d t.d
      → t.wasm_module.functions ≡ s.wasm_module.functions
      → InvVerified a s
      → InvVerified a t
  keep-InvVerified a s t st e v h = rw (st.same_mem, st.same_start, e) (v (ok_before st h))

  functions_section-InvVerified :
      (a : Bool) (s : ModuleState)
      → Reports verify
      → IsReading s.d
      → InvVerified a (functions_section verify a true s)
  unfolding functions_section
  functions_section-InvVerified a s r v =
      let m = s.wasm_module in
      let d₁ = check_for_previous_section s.sections 1 true s.d in
      let v₁ = Steps-IsReading (check_for_previous_section-Steps s.sections 1 true s.d v) v in
      let read = decode_counted (decode_function_in_module m) d₁ in
      let st₂ = decode_counted-Steps _ (decode_function_in_module-Steps m) d₁ v₁ in
      let v₂ = Steps-IsReading st₂ v₁ in
      let m' : WasmModule = record m { functions = m.functions ++ read.0 } in
      let menv : ModuleEnv = record { wasm_module = some m'; asm_js = a } in
      let s₁ : ModuleState = record s { d = read.1; wasm_module = m' } in
      elim (Bool-cases (ok read.1)) [
        | inl e ↦
            rw (e, InvVerified, functions_section)
              (λ h.
                let st = verify_functions-Steps verify 0 menv m'.functions s₁ v₂ in
                let all = verify_functions-BodyVerified 0 menv m'.functions s₁ r v₂ h in
                rw
                  (
                    st.same_mem,
                    st.same_start,
                    verify_functions-module verify 0 0 menv m'.functions s₁,
                  )
                  (m', refl, all))
        | inr e ↦ rw (e, InvVerified, functions_section) (λ h. absurd (ground (arith, e, h)))
      ]

  run_section-InvVerified :
      (a : Bool) (c : WasmSectionDeclCode) (b : ℕ) (s : ModuleState)
      → Reports verify
      → IsReading s.d
      → InvVerified a s
      → InvVerified a (run_section verify a true c b s)
  unfolding run_section
  run_section-InvVerified a decl_end b s r w v = v
  run_section-InvVerified a decl_memory b s r w v =
      keep-InvVerified a s (memory_section s) (memory_section-Steps s w)
        (unfold memory_section in refl) v
  run_section-InvVerified a decl_signatures b s r w v =
      keep-InvVerified a s (signatures_section s) (signatures_section-Steps s w)
        (unfold signatures_section in refl) v
  run_section-InvVerified a decl_functions b s r w v = functions_section-InvVerified a s r w
  run_section-InvVerified a decl_globals b s r w v =
      keep-InvVerified a s (globals_section s) (globals_section-Steps s w)
        (unfold globals_section in refl) v
  run_section-InvVerified a decl_data_segments b s r w v =
      keep-InvVerified a s (data_segments_section s) (data_segments_section-Steps s w)
        (unfold data_segments_section in refl) v
  run_section-InvVerified a decl_function_table b s r w v =
      keep-InvVerified a s (function_table_section s) (function_table_section-Steps s w)
        (unfold function_table_section in refl) v
  run_section-InvVerified a unrecognized b s r w v =
      keep-InvVerified a s (record s { d = error (s.d.pc - 1) none (unrecognized_section b) s.d })
        (error-Steps _ _ _ s.d w) refl v

  decode_section-InvVerified :
      (a : Bool) (s : ModuleState)
      → Reports verify
      → IsReading s.d
      → InvVerified a s
      → InvVerified a (decode_section verify a true s)
  unfolding decode_section
  decode_section-InvVerified a s r w v =
      let b = (u8 s.d).0 in
      let st = u8-Steps s.d w in
      let w₁ = Steps-IsReading st w in
      let st₂ = check_for_previous_section-Steps s.sections b false _ w₁ in
      elim (Bool-cases (ltb b max_module_section_code)) [
        | inl e ↦
            let s₁ : ModuleState = record s {
              d = check_for_previous_section s.sections b false (u8 s.d).1;
              sections = set s.sections b true;
            } in
            rw (e, decode_section)
              (run_section-InvVerified a (to_section b) b s₁ r (Steps-IsReading st₂ w₁)
                (keep-InvVerified a s s₁ (Steps-trans st st₂) refl v))
        | inr e ↦
            let s₁ : ModuleState = record s { d = (u8 s.d).1 } in
            rw (e, decode_section)
              (run_section-InvVerified a (to_section b) b s₁ r w₁
                (keep-InvVerified a s s₁ st refl v))
      ]

  pub decode_sections-InvVerified :
      (a : Bool) (fuel : ℕ) (s : ModuleState)
      → Reports verify
      → IsReading s.d
      → InvVerified a s
      → InvVerified a (decode_sections verify a true fuel s)
  unfolding decode_sections
  decode_sections-InvVerified a zero s r w v = v
  decode_sections-InvVerified a (suc fuel) s r w v = elim (Bool-cases (ltb s.d.pc s.d.limit)) [
    | inl e ↦
        let (st, l) = decode_section-Advances verify a true s w (ground (arith, e)) in
        rw (e, decode_sections)
          (decode_sections-InvVerified a fuel _ r (Advances-IsReading st w)
            (decode_section-InvVerified a s r w v))
    | inr e ↦ rw (e, decode_sections) v
  ]
