-- ===== src/ModuleDecoder/InvariantLoop.antt =====
-- The functions and the loop over the sections in DecodeModule of wasm/module-decoder.cc keep the
-- invariant.
use v8_native_prototype.Base.{
  ℕ, zero, suc, ◌≡◌, refl, sym, subst, Bool, true, false, ◌&&◌, List, [], ◌∷◌, ◌++◌, some,
  Bool-cases, inl, inr, arith, length-append, All-append, ltb, if◌then◌else◌,
}
use v8_native_prototype.Decoder.State.{ok}
use v8_native_prototype.Decoder.Reads.{u8}
use v8_native_prototype.Decoder.Steps.{Steps-trans, Steps-IsReading, error-Steps, u8-Steps}
use v8_native_prototype.WasmModule.Types.{WasmFunction, WasmModule, ModuleEnv}
use v8_native_prototype.ModuleDecoder.Steps.{decode_function_in_module-Steps}
use v8_native_prototype.ModuleDecoder.Items.{decode_function_in_module}
use v8_native_prototype.ModuleDecoder.WellFormed.{FunctionIsValid, ModuleIsValid, All-map}
use v8_native_prototype.ModuleDecoder.Entries.{span, decode_function_in_module_valid}
use v8_native_prototype.ModuleDecoder.Sections.{
  WasmSectionDeclCode, decl_memory, decl_signatures, decl_functions, decl_globals,
  decl_data_segments, decl_function_table, decl_end, unrecognized, to_section,
  max_module_section_code, Verifier, ModuleState, check_for_previous_section, decode_counted,
}
use v8_native_prototype.ModuleDecoder.Module.{
  report_failure, verify_function_body, verify_step, verify_functions, functions_section,
  run_section, decode_section, decode_sections,
}
use v8_native_prototype.ModuleDecoder.Advance.{verify_functions-Steps}
use v8_native_prototype.ModuleDecoder.EntrySteps.{
  check_for_previous_section-Steps, decode_counted-Steps,
}
use v8_native_prototype.ModuleDecoder.EntryLists.{Steps-span, decode_counted_valid}
use v8_native_prototype.ModuleDecoder.Invariant.{
  Inv, FunctionIsValid-mono, keep, memory_section-Inv, signatures_section-Inv, globals_section-Inv,
  data_segments_section-Inv, function_table_section-Inv,
}

module _ (verify : Verifier) (size : ℕ) where
  pub verify_functions-module :
      (i : ℕ) (menv : ModuleEnv) (fs : List WasmFunction) (s : ModuleState)
      → (verify_functions verify i menv fs s).wasm_module ≡ s.wasm_module
  unfolding verify_functions
  verify_functions-module i menv [] s = refl
  verify_functions-module i menv (f ∷ fs) s = ground (
    arith,
    verify_step-module i menv f s,
    verify_functions-module (suc i) menv fs (verify_step verify i menv f s),
  )
    where
      verify_step-module :
          (i : ℕ) (menv : ModuleEnv) (f : WasmFunction) (s : ModuleState)
          → (verify_step verify i menv f s).wasm_module ≡ s.wasm_module
      verify_step-module i menv f s =
          unfold verify_step verify_function_body report_failure in ground arith

  functions_section-Inv :
      (asm_js vb : Bool) (s : ModuleState)
      → Inv size s
      → Inv size (functions_section verify asm_js vb s)
  unfolding functions_section
  functions_section-Inv asm_js vb s v =
      let m = s.wasm_module in
      let d₁ = check_for_previous_section s.sections 1 true s.d in
      let st₁ = check_for_previous_section-Steps s.sections 1 true s.d v.reading in
      let v₁ = Steps-IsReading st₁ v.reading in
      let read = decode_counted (decode_function_in_module m) d₁ in
      let st₂ = decode_counted-Steps _ (decode_function_in_module-Steps m) d₁ v₁ in
      let m' : WasmModule = record m { functions = m.functions ++ read.0 } in
      let menv : ModuleEnv = record { wasm_module = some m'; asm_js = asm_js } in
      let s₁ : ModuleState = record s { d = read.1; wasm_module = m' } in
      let i₁ : Inv size s₁ = keep size s s₁ v (Steps-trans st₁ st₂) λ h w. record {
        signatures = w.signatures;
        globals = w.globals;
        segments = w.segments;
        functions = All-append _ m.functions read.0 w.functions (
            decode_counted_valid (decode_function_in_module m) (decode_function_in_module-Steps m)
              size (FunctionIsValid m.signatures size)
              (λ d x k h.
                FunctionIsValid-mono size m.signatures (span d) _ k
                  (decode_function_in_module_valid m d x h))
              d₁ v₁ (omega (arith, Steps-span st₁, v.small)) h);
        table =
            All-map _ _ m.function_table (λ i h. omega (arith, h, length-append m.functions read.0))
              w.table;
      } in
      let verified = verify_functions verify 0 menv m'.functions s₁ in
      let i₂ : Inv size verified =
        keep size s₁ verified i₁ (verify_functions-Steps verify 0 menv m'.functions s₁ i₁.reading)
          λ h w.
            subst (ModuleIsValid size) (sym (verify_functions-module 0 menv m'.functions s₁)) w in
      if-Inv (ok read.1 && vb) verified s₁ i₂ i₁
    where
      if-Inv :
          (b : Bool) (x y : ModuleState) → Inv size x → Inv size y → Inv size (if b then x else y)
      if-Inv true x y h k = h
      if-Inv false x y h k = k

  run_section-Inv :
      (asm_js vb : Bool) (c : WasmSectionDeclCode) (b : ℕ) (s : ModuleState)
      → Inv size s
      → Inv size (run_section verify asm_js vb c b s)
  unfolding run_section
  run_section-Inv a vb decl_end b s v = record {
    reading = ground (arith, v.reading);
    small = omega (arith, v.small, v.reading.below);
    valid = v.valid;
  }
  run_section-Inv a vb decl_memory b s v = memory_section-Inv size s v
  run_section-Inv a vb decl_signatures b s v = signatures_section-Inv size s v
  run_section-Inv a vb decl_functions b s v = functions_section-Inv a vb s v
  run_section-Inv a vb decl_globals b s v = globals_section-Inv size s v
  run_section-Inv a vb decl_data_segments b s v = data_segments_section-Inv size s v
  run_section-Inv a vb decl_function_table b s v = function_table_section-Inv size s v
  run_section-Inv a vb unrecognized b s v =
      keep size s _ v (error-Steps _ _ _ s.d v.reading) (λ h m. m)

  decode_section-Inv :
      (asm_js vb : Bool) (s : ModuleState)
      → Inv size s
      → Inv size (decode_section verify asm_js vb s)
  unfolding decode_section
  decode_section-Inv asm_js vb s v =
      let b = (u8 s.d).0 in
      let st = u8-Steps s.d v.reading in
      let w = Steps-IsReading st v.reading in
      run_section-Inv asm_js vb (to_section b) b _ (
        seen-Inv (ltb b max_module_section_code) _ _
          (keep size s _ v
            (Steps-trans st (check_for_previous_section-Steps s.sections b false _ w)) (λ h m. m))
          (keep size s _ v st (λ h m. m)))
    where
      seen-Inv :
          (c : Bool) (x y : ModuleState) → Inv size x → Inv size y → Inv size (if c then x else y)
      seen-Inv true x y h k = h
      seen-Inv false x y h k = k

  pub decode_sections-Inv :
      (asm_js vb : Bool) (fuel : ℕ) (s : ModuleState)
      → Inv size s
      → Inv size (decode_sections verify asm_js vb fuel s)
  unfolding decode_sections
  decode_sections-Inv asm_js vb zero s v = v
  decode_sections-Inv asm_js vb (suc fuel) s v = elim (Bool-cases (ltb s.d.pc s.d.limit)) [
    | inl e ↦ rw e (decode_sections-Inv asm_js vb fuel _ (decode_section-Inv asm_js vb s v))
    | inr e ↦ rw e v
  ]
