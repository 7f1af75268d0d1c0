-- ===== src/WasmModule/Types.antt =====
-- The structures of wasm/wasm-module.h, FunctionEnv of wasm/ast-decoder.h, and their methods. Fields
-- that hold V8 objects (isolate, handles, the linker, addresses of live memory) are left out.
use v8_native_prototype.Base.{
  ℕ, ◌+◌, ◌-◌, ◌^◌, ◌%◌, Bool, false, ◌&&◌, List, Option, none, some, length, get_elem?, ltb,
  if◌then◌else◌,
}
use v8_native_prototype.Opcodes.Types.{
  FunctionSig, LocalType, MachineType, mach_none, ast_i32, ast_i64, ast_f32, ast_f64, ast_stmt,
}

-- `sig` is a pointer into the module's signatures, null until it is set.
pub record WasmFunction : Type 0 where
  pub sig : Option FunctionSig
  pub sig_index : ℕ
  pub name_offset : ℕ
  pub code_start_offset : ℕ
  pub code_end_offset : ℕ
  pub local_int32_count : ℕ
  pub local_int64_count : ℕ
  pub local_float32_count : ℕ
  pub local_float64_count : ℕ
  pub exported : Bool
  pub external : Bool

pub record WasmGlobal : Type 0 where
  pub name_offset : ℕ
  pub type : MachineType
  pub offset : ℕ
  pub exported : Bool

pub record WasmDataSegment : Type 0 where
  pub dest_addr : ℕ
  pub source_offset : ℕ
  pub source_size : ℕ
  pub init : Bool

pub record WasmModule : Type 0 where
  pub module_start : ℕ
  pub module_end : ℕ
  pub min_mem_size_log2 : ℕ
  pub max_mem_size_log2 : ℕ
  pub mem_export : Bool
  pub mem_external : Bool
  pub globals : List WasmGlobal
  pub signatures : List FunctionSig
  pub functions : List WasmFunction
  pub data_segments : List WasmDataSegment
  pub function_table : List ℕ

-- WasmModule::BoundsCheck.
unfoldable pub bounds_check : WasmModule → ℕ → ℕ → Bool
bounds_check m start end =
    let size = m.module_end - m.module_start in ltb start size && ltb end size

-- The part of ModuleEnv that the decoders use; the module pointer is null outside a module.
pub record ModuleEnv : Type 0 where
  pub wasm_module : Option WasmModule
  pub asm_js : Bool

unfoldable pub is_valid_global : ModuleEnv → ℕ → Bool
is_valid_global env index = elim env.wasm_module [
  | none ↦ false
  | some m ↦ ltb index (length m.globals)
]

unfoldable pub is_valid_function : ModuleEnv → ℕ → Bool
is_valid_function env index = elim env.wasm_module [
  | none ↦ false
  | some m ↦ ltb index (length m.functions)
]

unfoldable pub is_valid_signature : ModuleEnv → ℕ → Bool
is_valid_signature env index = elim env.wasm_module [
  | none ↦ false
  | some m ↦ ltb index (length m.signatures)
]

-- GetGlobalType; a null module and an index out of range are not met, mach_none stands for them.
unfoldable pub get_global_type : ModuleEnv → ℕ → MachineType
get_global_type env index = elim env.wasm_module [
  | none ↦ mach_none
  | some m ↦ elim (get_elem? m.globals index) [ none ↦ mach_none | some g ↦ g.type ]
]

-- GetFunctionSignature and GetSignature; `none` where the source would read out of range.
unfoldable pub get_function_signature : ModuleEnv → ℕ → Option FunctionSig
get_function_signature env index = elim env.wasm_module [
  | none ↦ none
  | some m ↦ elim (get_elem? m.functions index) [ none ↦ none | some f ↦ f.sig ]
]

unfoldable pub get_signature : ModuleEnv → ℕ → Option FunctionSig
get_signature env index = elim env.wasm_module [
  | none ↦ none
  | some m ↦ get_elem? m.signatures index
]

pub record FunctionEnv : Type 0 where
  pub module_env : ModuleEnv
  pub sig : FunctionSig
  pub local_int32_count : ℕ
  pub local_int64_count : ℕ
  pub local_float32_count : ℕ
  pub local_float64_count : ℕ
  pub total_locals : ℕ

unfoldable pub is_valid_local : FunctionEnv → ℕ → Bool
is_valid_local env index = ltb index env.total_locals

abbrev type_or_stmt : Option LocalType → LocalType
type_or_stmt none = ast_stmt
type_or_stmt (some t) = t

-- FunctionEnv::GetLocalType: the parameters, then the four groups of locals.
unfoldable pub get_local_type : FunctionEnv → ℕ → LocalType
get_local_type env index =
    let params = length env.sig.params in
    let i₀ = index - params in
    let i₁ = i₀ - env.local_int32_count in
    let i₂ = i₁ - env.local_int64_count in
    let i₃ = i₂ - env.local_float32_count in
    if ltb index params
    then type_or_stmt (get_elem? env.sig.params index)
    else if ltb i₀ env.local_int32_count
    then ast_i32
    else if ltb i₁ env.local_int64_count
    then ast_i64
    else if ltb i₂ env.local_float32_count
    then ast_f32
    else if ltb i₃ env.local_float64_count
    then ast_f64
    else ast_stmt

-- FunctionEnv::SumLocals, in uint32_t arithmetic.
unfoldable pub sum_locals : FunctionEnv → FunctionEnv
sum_locals env = record env {
  total_locals =
      (length env.sig.params
        + env.local_int32_count
        + env.local_int64_count
        + env.local_float32_count
        + env.local_float64_count)
      % 2 ^ 32;
}
