-- ===== src/ModuleDecoder/Advance.antt =====
-- The section loop of wasm/module-decoder.cc goes forward through the module's bytes and ends.
use v8_native_prototype.Base.{
  ℕ, zero, suc, ◌-◌, ◌≤◌, ◌<◌, ◌≡◌, Bool, true, false, ◌&&◌, List, [], ◌∷◌, set, Option, none, some,
  Bool-cases, inl, inr, arith, ltb, ltb→lt, if◌then◌else◌,
}
use v8_native_prototype.Decoder.State.{Decoder, Message, ok, failed, on_first_error, result_failed}
use v8_native_prototype.Decoder.Reads.{u8}
use v8_native_prototype.Decoder.Steps.{
  IsReading, Steps, Steps-refl, Steps-trans, Steps-IsReading, and_then, error-Steps, u8-Steps,
  u32v-Steps,
}
use v8_native_prototype.WasmModule.Types.{WasmFunction, ModuleEnv}
use v8_native_prototype.ModuleDecoder.Items.{decode_function_in_module}
use v8_native_prototype.ModuleDecoder.Steps.{
  sig-Steps, decode_global_in_module-Steps, decode_data_segment_in_module-Steps,
  decode_function_in_module-Steps,
}
use v8_native_prototype.ModuleDecoder.Sections.{
  WasmSectionDeclCode, decl_memory, decl_signatures, decl_functions, decl_globals,
  decl_data_segments, decl_function_table, decl_end, unrecognized, to_section,
  max_module_section_code, Verifier, ModuleState, check_for_previous_section, decode_counted,
  memory_section, signatures_section, globals_section, data_segments_section,
  function_table_section, error_copied,
}
use v8_native_prototype.ModuleDecoder.Module.{
  report_failure, verify_step, verify_functions, functions_section, run_section, decode_section,
  decode_sections,
}
use v8_native_prototype.ModuleDecoder.EntrySteps.{
  check_for_previous_section-Steps, decode_counted-Steps, decode_table-Steps, u8_advances, Advances,
  Steps-Advances, Advances-trans, Advances-IsReading,
}

pub memory_section-Steps : (s : ModuleState) → IsReading s.d → Steps s.d (memory_section s).d
unfolding memory_section
memory_section-Steps s v = and_then v (u8-Steps _ v) λ v₁. and_then v₁ (u8-Steps _ v₁) (u8-Steps _)

pub signatures_section-Steps :
    (s : ModuleState) → IsReading s.d → Steps s.d (signatures_section s).d
unfolding signatures_section
signatures_section-Steps s = decode_counted-Steps _ sig-Steps s.d

pub globals_section-Steps : (s : ModuleState) → IsReading s.d → Steps s.d (globals_section s).d
unfolding globals_section
globals_section-Steps s = decode_counted-Steps _ decode_global_in_module-Steps s.d

pub data_segments_section-Steps :
    (s : ModuleState) → IsReading s.d → Steps s.d (data_segments_section s).d
unfolding data_segments_section
data_segments_section-Steps s = decode_counted-Steps _ decode_data_segment_in_module-Steps s.d

-- What follows the check that the functions have been seen.
pub function_table_section_checked :
    (s : ModuleState)
    → IsReading (check_for_previous_section s.sections 2 true s.d)
    → Steps (check_for_previous_section s.sections 2 true s.d) (function_table_section s).d
unfolding function_table_section
function_table_section_checked s v = and_then v (u32v-Steps _ v) (decode_table-Steps _ _ _)

pub function_table_section-Steps :
    (s : ModuleState) → IsReading s.d → Steps s.d (function_table_section s).d
function_table_section-Steps s v =
    and_then v (check_for_previous_section-Steps s.sections 2 true s.d v)
      (function_table_section_checked s)

error_copied-Steps :
    (o : Option ℕ) (msg : Message) (d : Decoder) → IsReading d → Steps d (error_copied o msg d)
unfolding error_copied on_first_error
error_copied-Steps (some pc) msg d v = error-Steps pc none msg d v
error_copied-Steps none msg d v = ground arith

pub state_if-Steps :
    (b : Bool) {d : Decoder} (x y : ModuleState)
    → Steps d x.d
    → Steps d y.d
    → Steps d (if b then x else y).d
state_if-Steps true x y h k = h
state_if-Steps false x y h k = k

report_failure-Steps : (i : ℕ) (s : ModuleState) → IsReading s.d → Steps s.d (report_failure i s).d
unfolding report_failure
report_failure-Steps i s v =
    state_if-Steps (result_failed s.result) _ _ (error_copied-Steps s.result.error_pc _ s.d v)
      (Steps-refl _ v)

module _ (verify : Verifier) where
  pub verify_step-Steps :
      (i : ℕ) (menv : ModuleEnv) (f : WasmFunction) (s : ModuleState)
      → IsReading s.d
      → Steps s.d (verify_step verify i menv f s).d
  unfolding verify_step
  verify_step-Steps i menv f s v =
      state_if-Steps f.external _ _ (Steps-refl _ v) (report_failure-Steps i _ v)

  pub verify_functions-Steps :
      (i : ℕ) (menv : ModuleEnv) (fs : List WasmFunction) (s : ModuleState)
      → IsReading s.d
      → Steps s.d (verify_functions verify i menv fs s).d
  unfolding verify_functions
  verify_functions-Steps i menv [] s v = Steps-refl _ v
  verify_functions-Steps i menv (f ∷ fs) s v = elim (Bool-cases (failed s.d)) [
    | inl e ↦ rw e (Steps-refl _ v)
    | inr e ↦
        rw e
          (and_then v (verify_step-Steps i menv f s v) (verify_functions-Steps (suc i) menv fs _))
  ]

  -- What follows the check that the signatures have been seen.
  pub functions_section_checked :
      (asm_js vb : Bool) (s : ModuleState)
      → IsReading (check_for_previous_section s.sections 1 true s.d)
      → Steps
          (check_for_previous_section s.sections 1 true s.d)
          (functions_section verify asm_js vb s).d
  unfolding functions_section
  functions_section_checked asm_js vb s v =
      let m = s.wasm_module in
      let d₁ = check_for_previous_section s.sections 1 true s.d in
      let read = decode_counted (decode_function_in_module m) d₁ in
      and_then v (decode_counted-Steps _ (decode_function_in_module-Steps m) _ v) λ w.
        state_if-Steps (ok read.1 && vb) _ _ (verify_functions-Steps 0 _ _ _ w) (Steps-refl _ w)

  pub functions_section-Steps :
      (asm_js vb : Bool) (s : ModuleState)
      → IsReading s.d
      → Steps s.d (functions_section verify asm_js vb s).d
  functions_section-Steps asm_js vb s v =
      and_then v (check_for_previous_section-Steps s.sections 1 true s.d v)
        (functions_section_checked asm_js vb s)

  pub run_section-Advances :
      (asm_js vb : Bool) (c : WasmSectionDeclCode) (b : ℕ) (s : ModuleState)
      → IsReading s.d
      → Advances s.d (run_section verify asm_js vb c b s).d
  unfolding run_section
  run_section-Advances a vb decl_end b s v = ground arith
  run_section-Advances a vb decl_memory b s v = Steps-Advances (memory_section-Steps s v)
  run_section-Advances a vb decl_signatures b s v = Steps-Advances (signatures_section-Steps s v)
  run_section-Advances a vb decl_functions b s v = Steps-Advances (functions_section-Steps a vb s v)
  run_section-Advances a vb decl_globals b s v = Steps-Advances (globals_section-Steps s v)
  run_section-Advances a vb decl_data_segments b s v =
      Steps-Advances (data_segments_section-Steps s v)
  run_section-Advances a vb decl_function_table b s v =
      Steps-Advances (function_table_section-Steps s v)
  run_section-Advances a vb unrecognized b s v = Steps-Advances (error-Steps _ _ _ s.d v)

  -- A round of the loop takes the section's byte first.
  pub decode_section-Advances :
      (asm_js vb : Bool) (s : ModuleState)
      → IsReading s.d
      → s.d.pc < s.d.limit
      → Advances s.d (decode_section verify asm_js vb s).d
        × (s.d.pc < (decode_section verify asm_js vb s).d.pc)
  unfolding decode_section
  decode_section-Advances asm_js vb s v h =
      let b = (u8 s.d).0 in
      let w = u8-Steps s.d v in
      let w' = Steps-IsReading w v in
      let seen : ModuleState =
        if ltb b max_module_section_code
        then record s {
          d = check_for_previous_section s.sections b false (u8 s.d).1;
          sections = set s.sections b true;
        }
        else record s { d = (u8 s.d).1 } in
      let t : Steps (u8 s.d).1 seen.d =
        state_if-Steps (ltb b max_module_section_code) _ _
          (check_for_previous_section-Steps s.sections b false _ w') (Steps-refl _ w') in
      let r = run_section-Advances asm_js vb (to_section b) b seen (Steps-IsReading t w') in
      (
        Advances-trans (Steps-Advances (Steps-trans w t)) r,
        omega (arith, u8_advances s.d v h, t.forward, r.forward),
      )

  -- Any number of rounds.
  pub decode_sections-Advances :
      (asm_js vb : Bool) (fuel : ℕ) (s : ModuleState)
      → IsReading s.d
      → Advances s.d (decode_sections verify asm_js vb fuel s).d
  unfolding decode_sections
  decode_sections-Advances asm_js vb zero s v = Steps-Advances (Steps-refl _ v)
  decode_sections-Advances asm_js vb (suc fuel) s v = elim (Bool-cases (ltb s.d.pc s.d.limit)) [
    | inl e ↦
        let (a, n) = decode_section-Advances asm_js vb s v (ltb→lt _ _ e) in
        rw e (
          Advances-trans a (
            decode_sections-Advances asm_js vb fuel (decode_section verify asm_js vb s)
              (Advances-IsReading a v)))
    | inr e ↦ rw e (Steps-Advances (Steps-refl _ v))
  ]

  -- With fuel for the bytes that are left, the loop ends because they are used up.
  pub decode_sections_at_limit :
      (asm_js vb : Bool) (fuel : ℕ) (s : ModuleState)
      → IsReading s.d
      → s.d.limit - s.d.pc ≤ fuel
      → let s' = decode_sections verify asm_js vb fuel s in s'.d.pc ≡ s'.d.limit
  unfolding decode_sections
  decode_sections_at_limit asm_js vb zero s v h = omega (arith, h, v.below)
  decode_sections_at_limit asm_js vb (suc fuel) s v h = elim (Bool-cases (ltb s.d.pc s.d.limit)) [
    | inl e ↦
        let (a, n) = decode_section-Advances asm_js vb s v (ltb→lt _ _ e) in
        rw e (
          decode_sections_at_limit asm_js vb fuel (decode_section verify asm_js vb s)
            (Advances-IsReading a v) (omega (arith, a.limit_falls, n, h)))
    | inr e ↦ rw e (ground (arith, v.below))
  ]
