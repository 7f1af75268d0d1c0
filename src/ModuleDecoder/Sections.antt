-- ===== src/ModuleDecoder/Sections.antt =====
-- The sections of a module in DecodeModule of wasm/module-decoder.cc: the state of the loop and what is
-- read for each section.
use v8_native_prototype.Base.{
  ℕ, zero, suc, ◌-◌, Bool, true, false, not, ◌||◌, List, [], ◌∷◌, ◌++◌, Option, none, some, length,
  get_or, leb, ◌==◌, if◌then◌else◌,
}
use v8_native_prototype.Decoder.State.{
  Message, Decoder, Result, ok, failed, error, on_first_error, section_missing, section_present,
  invalid_function_index,
}
use v8_native_prototype.Decoder.Reads.{u8, u16, u32v}
use v8_native_prototype.Opcodes.Types.{FunctionSig}
use v8_native_prototype.WasmModule.Types.{
  WasmFunction, WasmModule, ModuleEnv, FunctionEnv, sum_locals,
}
use v8_native_prototype.ModuleDecoder.Items.{
  sig, decode_global_in_module, decode_data_segment_in_module,
}

pub data WasmSectionDeclCode : Type 0 where
  decl_memory decl_signatures decl_functions decl_globals : WasmSectionDeclCode
  decl_data_segments decl_function_table decl_end unrecognized : WasmSectionDeclCode

-- kDeclMemory, kDeclSignatures, ...; `unrecognized` is the default of the switch.
unfoldable pub to_section : ℕ → WasmSectionDeclCode
to_section b =
    if b == 0
    then decl_memory
    else if b == 1
    then decl_signatures
    else if b == 2
    then decl_functions
    else if b == 3
    then decl_globals
    else if b == 4
    then decl_data_segments
    else if b == 5
    then decl_function_table
    else if b == 6
    then decl_end
    else unrecognized

abbrev pub max_module_section_code : ℕ
max_module_section_code = 6

-- VerifyWasmCode(env, base, start, end) over a memory. The value of the result is not used.
abbrev pub Verifier : Type 0
Verifier = FunctionEnv → List ℕ → ℕ → ℕ → ℕ → Result (Unit {0})

-- The state of DecodeModule: the decoder, the module under construction, the sections seen, and the
-- member result_.
pub record ModuleState : Type 0 where
  pub d : Decoder
  pub wasm_module : WasmModule
  pub sections : List Bool
  pub result : Result (Unit {0})

-- CheckForPreviousSection(sections, section, present).
unfoldable pub check_for_previous_section : List Bool → ℕ → Bool → Decoder → Decoder
check_for_previous_section sections section true d =
    if leb max_module_section_code section || get_or sections section false
    then d
    else error (d.pc - 1) none (section_missing section) d
check_for_previous_section sections section false d =
    if leb max_module_section_code section || not (get_or sections section false)
    then d
    else error (d.pc - 1) none (section_present section) d

-- `for (i = 0; i < count; i++) { if (failed()) break; ... }` over the entries of a section.
unfoldable pub decode_entries {ℓ} :
    {A : Type ℓ} → (Decoder → A × Decoder) → ℕ → Decoder → List A × Decoder
decode_entries read zero d = ([], d)
decode_entries read (suc n) d =
    let (a, d₁) = read d in
    let (rest, d₂) = decode_entries read n d₁ in if failed d then ([], d) else (a ∷ rest, d₂)

-- A section that is a count and its entries.
unfoldable pub decode_counted {ℓ} :
    {A : Type ℓ} → (Decoder → A × Decoder) → Decoder → List A × Decoder
decode_counted read d = let ((count, _), d₁) = u32v d in decode_entries read count d₁

-- The entries of the function table; the number is module->functions->size().
unfoldable pub decode_table : ℕ → ℕ → Decoder → List ℕ × Decoder
decode_table size zero d = ([], d)
decode_table size (suc n) d =
    let (index, d₁) = u16 d in
    let (rest, d₂) = decode_table size n d₁ in
    if failed d
    then ([], d)
    else if leb size index
    then ([], error (d₁.pc - 2) none invalid_function_index d₁)
    else (index ∷ rest, d₂)

unfoldable pub memory_section : ModuleState → ModuleState
memory_section s =
    let (min, d₁) = u8 s.d in
    let (max, d₂) = u8 d₁ in
    let (export, d₃) = u8 d₂ in
    record s {
      d = d₃;
      wasm_module = record s.wasm_module {
        min_mem_size_log2 = min;
        max_mem_size_log2 = max;
        mem_export = not (export == 0);
      };
    }

unfoldable pub signatures_section : ModuleState → ModuleState
signatures_section s =
    let (sigs, d₁) = decode_counted sig s.d in
    let m = s.wasm_module in
    record s { d = d₁; wasm_module = record m { signatures = m.signatures ++ sigs } }

unfoldable pub globals_section : ModuleState → ModuleState
globals_section s =
    let (globals, d₁) = decode_counted decode_global_in_module s.d in
    let m = s.wasm_module in
    record s { d = d₁; wasm_module = record m { globals = m.globals ++ globals } }

unfoldable pub data_segments_section : ModuleState → ModuleState
data_segments_section s =
    let (segments, d₁) = decode_counted decode_data_segment_in_module s.d in
    let m = s.wasm_module in
    record s { d = d₁; wasm_module = record m { data_segments = m.data_segments ++ segments } }

unfoldable pub function_table_section : ModuleState → ModuleState
function_table_section s =
    let m = s.wasm_module in
    let d₁ = check_for_previous_section s.sections 2 true s.d in
    let ((count, _), d₂) = u32v d₁ in
    let (table, d₃) = decode_table (length m.functions) count d₂ in
    record s { d = d₃; wasm_module = record m { function_table = m.function_table ++ table } }

-- error(result_.error_pc, result_.error_msg.get()); with a null error_pc the decoder stays ok.
unfoldable pub error_copied : Option ℕ → Message → Decoder → Decoder
error_copied (some pc) msg d = error pc none msg d
error_copied none msg d =
    if ok d then on_first_error d.class (record d { error_pt = none; error_msg = some msg }) else d

-- The environment that VerifyFunctionBody sets up; a null signature is not met there.
unfoldable pub function_env : ModuleEnv → FunctionSig → WasmFunction → FunctionEnv
function_env menv s f = sum_locals (record {
  module_env = menv;
  sig = s;
  local_int32_count = f.local_int32_count;
  local_int64_count = f.local_int64_count;
  local_float32_count = f.local_float32_count;
  local_float64_count = f.local_float64_count;
  total_locals = 0;
})
