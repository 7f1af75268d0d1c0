-- ===== src/ModuleDecoder/Module.antt =====
-- DecodeModule of class ModuleDecoder in wasm/module-decoder.cc: the loop over the sections and the
-- verification of function bodies, which calls VerifyWasmCode. That function is a parameter here.
use v8_native_prototype.Base.{
  ℕ, zero, suc, ◌+◌, ◌-◌, Bool, true, false, ◌&&◌, List, [], ◌∷◌, ◌++◌, none, some, set, replicate,
  ltb, if◌then◌else◌,
}
use v8_native_prototype.Decoder.State.{
  Decoder, Result, ok, failed, error, new_result, copy_from, to_result, result_failed,
  unrecognized_section, in_function,
}
use v8_native_prototype.Decoder.Reads.{u8}
use v8_native_prototype.WasmModule.Types.{WasmFunction, WasmModule, ModuleEnv}
use v8_native_prototype.ModuleDecoder.Items.{decode_function_in_module}
use v8_native_prototype.ModuleDecoder.Sections.{
  WasmSectionDeclCode, decl_memory, decl_signatures, decl_functions, decl_globals,
  decl_data_segments, decl_function_table, decl_end, unrecognized, to_section,
  max_module_section_code, Verifier, ModuleState, check_for_previous_section, decode_counted,
  memory_section, signatures_section, globals_section, data_segments_section,
  function_table_section, error_copied, function_env,
}

-- `if (result_.failed()) error(...)` behind a verification.
unfoldable pub report_failure : ℕ → ModuleState → ModuleState
unfolding error_copied
report_failure i s =
    if result_failed s.result
    then record s { d = error_copied s.result.error_pc (in_function i) s.d }
    else s

-- The module and the flags that DecodeModule begins with.
unfoldable pub initial_state : Decoder → ModuleState
unfolding new_result
initial_state d = record {
  d = record d { pc = d.start };
  wasm_module = record {
    module_start = d.start;
    module_end = d.limit;
    min_mem_size_log2 = 0;
    max_mem_size_log2 = 0;
    mem_export = false;
    mem_external = false;
    globals = [];
    signatures = [];
    functions = [];
    data_segments = [];
    function_table = [];
  };
  sections = replicate max_module_section_code false;
  result = record new_result { start = some d.start };
}

module _ (verify : Verifier) where
  -- VerifyFunctionBody, as what it makes of the member result_. A null signature is not met there.
  unfoldable pub verify_function_body :
      ℕ → ModuleEnv → WasmFunction → Decoder → Result (Unit {0}) → Result (Unit {0})
  unfolding function_env
  verify_function_body func_num menv f d result = elim f.sig [
    | none ↦ result
    | some sg ↦
        let r =
          verify (function_env menv sg f) d.mem d.start (d.start + f.code_start_offset)
            (d.start + f.code_end_offset) in
        if result_failed r
        then record (copy_from r result) { error_msg = some (in_function func_num) }
        else result
  ]

  -- One round of the loop that verifies the functions.
  unfoldable pub verify_step : ℕ → ModuleEnv → WasmFunction → ModuleState → ModuleState
  verify_step i menv f s =
      if f.external
      then s
      else report_failure i (record s { result = verify_function_body i menv f s.d s.result })

  unfoldable pub verify_functions : ℕ → ModuleEnv → List WasmFunction → ModuleState → ModuleState
  verify_functions i menv [] s = s
  verify_functions i menv (f ∷ fs) s =
      let rest = verify_functions (suc i) menv fs (verify_step i menv f s) in
      if failed s.d then s else rest

  unfoldable pub functions_section : Bool → Bool → ModuleState → ModuleState
  functions_section asm_js verify_bodies s =
      let d₁ = check_for_previous_section s.sections 1 true s.d in
      let m = s.wasm_module in
      let (functions, d₂) = decode_counted (decode_function_in_module m) d₁ in
      let m' : WasmModule = record m { functions = m.functions ++ functions } in
      let menv : ModuleEnv = record { wasm_module = some m'; asm_js = asm_js } in
      let s₁ : ModuleState = record s { d = d₂; wasm_module = m' } in
      if ok d₂ && verify_bodies then verify_functions 0 menv m'.functions s₁ else s₁

  -- The switch in the section loop.
  unfoldable pub run_section : Bool → Bool → WasmSectionDeclCode → ℕ → ModuleState → ModuleState
  run_section asm_js vb decl_end b s = record s { d = record s.d { limit = s.d.pc } }
  run_section asm_js vb decl_memory b s = memory_section s
  run_section asm_js vb decl_signatures b s = signatures_section s
  run_section asm_js vb decl_functions b s = functions_section asm_js vb s
  run_section asm_js vb decl_globals b s = globals_section s
  run_section asm_js vb decl_data_segments b s = data_segments_section s
  run_section asm_js vb decl_function_table b s = function_table_section s
  run_section asm_js vb unrecognized b s = record s {
    d = error (s.d.pc - 1) none (unrecognized_section b) s.d;
  }

  -- One round of the section loop: the section's byte, that it is new, and its contents.
  unfoldable pub decode_section : Bool → Bool → ModuleState → ModuleState
  decode_section asm_js vb s =
      let (b, d₁) = u8 s.d in
      let s₁ : ModuleState =
        if ltb b max_module_section_code
        then record s {
          d = check_for_previous_section s.sections b false d₁;
          sections = set s.sections b true;
        }
        else record s { d = d₁ } in
      run_section asm_js vb (to_section b) b s₁

  -- `while (pc_ < limit_)`, with fuel.
  unfoldable pub decode_sections : Bool → Bool → ℕ → ModuleState → ModuleState
  decode_sections asm_js vb zero s = s
  decode_sections asm_js vb (suc fuel) s =
      let rest = decode_sections asm_js vb fuel (decode_section asm_js vb s) in
      if ltb s.d.pc s.d.limit then rest else s

  -- DecodeModule. Each round takes a byte at least, so limit - start rounds are enough.
  unfoldable pub decode_module : Bool → Bool → Decoder → Result WasmModule × Decoder
  unfolding initial_state
  decode_module asm_js verify_bodies d =
      let s = decode_sections asm_js verify_bodies (d.limit - d.start) (initial_state d) in
      to_result s.wasm_module s.d
