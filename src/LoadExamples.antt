-- ===== src/LoadExamples.antt =====
-- The theorems on the calling convention and the loading of modules at concrete inputs.
use v8_native_prototype.Base.{
  ℕ, ◌≤◌, ◌≡◌, ◌↔◌, inl, inr, refl, arith, true, false, List, [], ◌∷◌, map, Option, none, some,
  length, get_elem?, get_or,
}
use v8_native_prototype.Opcodes.Types.{
  FunctionSig, MachineType, ast_i32, ast_i64, mach_int32, mach_any_tagged,
}
use v8_native_prototype.WasmModule.Types.{WasmFunction, WasmGlobal, WasmModule}
use v8_native_prototype.Linkage.Registers.{arch_unknown}
use v8_native_prototype.Linkage.Alloc.{
  Target, CallDescriptor, for_any_register, get_wasm_call_descriptor, machine_type_for,
}
use v8_native_prototype.Linkage.Placement.{
  Apart, Within, location, locations, stack_words, param_registers, return_registers,
}
use v8_native_prototype.Linkage.Refines.{get_wasm_call_descriptor_places}
use v8_native_prototype.Linkage.Apart.{param_place, get_wasm_call_descriptor-Apart}
use v8_native_prototype.Instantiate.Globals.{allocate_globals_offsets, build_function_table}
use v8_native_prototype.Instantiate.GlobalsLaws.{ElementSize, Laid, allocate_globals_offsets-Laid}
use v8_native_prototype.Instantiate.Segments.{load_data_segments}
use v8_native_prototype.Instantiate.SegmentsLaws.{
  InMemory, loaded_byte, load_data_segments_lem, load_data_segments-InMemory,
}
use v8_native_prototype.Instantiate.TableLaws.{build_function_table_lem}

-- A target with 32-bit pointers and no registers.
abbrev stack_target : Target
stack_target = record {
  architecture = arch_unknown;
  pointer_size = 4;
  register_code = λ _. 0;
  double_register_code = λ _. 0;
}

abbrev two_params : FunctionSig
two_params = record { returns = []; params = ast_i64 ∷ ast_i32 ∷ [] }

get_wasm_call_descriptor_places_example :
    get_wasm_call_descriptor stack_target two_params
    ≡ some (record {
      target_type = mach_any_tagged;
      target_loc = for_any_register;
      machine_returns = [];
      machine_params = map machine_type_for two_params.params;
      return_locations = locations stack_target (return_registers arch_unknown) [] [];
      param_locations = locations stack_target (param_registers arch_unknown) [] two_params.params;
      stack_parameter_count =
          stack_words stack_target (param_registers arch_unknown) two_params.params;
      callee_saved_registers = 0;
      callee_saved_fp_registers = 0;
    })
get_wasm_call_descriptor_places_example = get_wasm_call_descriptor_places stack_target two_params

get_wasm_call_descriptor-Apart_example :
    (d : CallDescriptor) × (get_wasm_call_descriptor stack_target two_params ≡ some d)
    × (get_elem? d.param_locations 0
        ≡ some (location stack_target (param_place stack_target [] ast_i64)))
    × (get_elem? d.param_locations 1
        ≡ some (location stack_target (param_place stack_target (ast_i64 ∷ []) ast_i32)))
    × Apart (param_place stack_target [] ast_i64) (param_place stack_target (ast_i64 ∷ []) ast_i32)
    × Within d.stack_parameter_count (param_place stack_target [] ast_i64)
    × Within d.stack_parameter_count (param_place stack_target (ast_i64 ∷ []) ast_i32)
get_wasm_call_descriptor-Apart_example =
    get_wasm_call_descriptor-Apart stack_target [] [] [] [] ast_i64 ast_i32

-- Every type takes 4 bytes here.
abbrev four_bytes : MachineType → ℕ
four_bytes type = 4

four_bytes-ElementSize : (type : MachineType) → ElementSize (four_bytes type)
four_bytes-ElementSize type = inr (inr (inl refl))

abbrev int_global : WasmGlobal
int_global = record { name_offset = 0; type = mach_int32; offset = 0; exported = false }

abbrev two_globals : List WasmGlobal
two_globals = int_global ∷ int_global ∷ []

allocate_globals_offsets-Laid_example :
    Laid four_bytes 0 two_globals
      (allocate_globals_offsets four_bytes two_globals).0
      (allocate_globals_offsets four_bytes two_globals).1
    × ((allocate_globals_offsets four_bytes two_globals).1 ≤ 32)
allocate_globals_offsets-Laid_example =
    allocate_globals_offsets-Laid four_bytes four_bytes-ElementSize two_globals (omega arith)

-- A module of the bytes 7 and 8, with a segment that holds the second of them.
abbrev source_bytes : List ℕ
source_bytes = 7 ∷ 8 ∷ []

abbrev segment_module : WasmModule
segment_module = record {
  module_start = 0;
  module_end = 2;
  min_mem_size_log2 = 2;
  max_mem_size_log2 = 2;
  mem_export = false;
  mem_external = false;
  globals = [];
  signatures = [];
  functions = [];
  data_segments = record { dest_addr = 2; source_offset = 1; source_size = 1; init = true } ∷ [];
  function_table = [];
}

abbrev four_zeros : List ℕ
four_zeros = 0 ∷ 0 ∷ 0 ∷ 0 ∷ []

segment_module-InMemory : InMemory 4 segment_module.data_segments
unfolding InMemory
segment_module-InMemory = ((λ _. (omega arith, omega arith)), _)

load_data_segments_lem_example :
    (mem : List ℕ) × (load_data_segments source_bytes segment_module four_zeros ≡ some mem)
    × (length mem ≡ 4)
    × (get_or mem 2 0 ≡ loaded_byte source_bytes 0 segment_module.data_segments 2 0)
load_data_segments_lem_example =
    load_data_segments_lem source_bytes segment_module four_zeros 2 (omega arith)
      segment_module-InMemory

load_data_segments-InMemory_example :
    ((mem : List ℕ) × (load_data_segments source_bytes segment_module four_zeros ≡ some mem))
    ↔ InMemory 4 segment_module.data_segments
load_data_segments-InMemory_example =
    load_data_segments-InMemory source_bytes segment_module four_zeros (omega arith)

abbrev no_code : WasmFunction
no_code = record {
  sig = none;
  sig_index = 3;
  name_offset = 0;
  code_start_offset = 0;
  code_end_offset = 0;
  local_int32_count = 0;
  local_int64_count = 0;
  local_float32_count = 0;
  local_float64_count = 0;
  exported = false;
  external = false;
}

-- One function, which stands in the table twice.
abbrev table_module : WasmModule
table_module = record segment_module { functions = no_code ∷ []; function_table = 0 ∷ 0 ∷ [] }

build_function_table_lem_example :
    (fixed : List (Option ℕ)) × (build_function_table table_module ≡ some fixed)
    × (length fixed ≡ 4)
    × (get_elem? fixed 1 ≡ some (some 3))
    × (get_elem? fixed 3 ≡ some none)
build_function_table_lem_example =
    build_function_table_lem table_module 1 0 no_code (omega arith, (omega arith, _)) refl refl
