-- ===== src/Encoder/Builder.antt =====
-- WasmModuleBuilder of wasm/encoder.cc: the operations that append, and Build, with the signatures that the
-- functions add.
use v8_native_prototype.Base.{
  ℕ, ◌-◌, ◌^◌, ◌%◌, Bool, not, List, [], ◌∷◌, ◌++◌, Option, some, length, get_elem?, ◌==◌, ◌>>=◌,
}
use v8_native_prototype.Opcodes.Types.{FunctionSig, MachineType}
use v8_native_prototype.Encoder.Function.{
  WasmFunctionBuilder, new_function_builder, WasmFunctionEncoder, count_vars, no_vars, param_types,
}
use v8_native_prototype.Encoder.Build.{build_body, build_sig}
use v8_native_prototype.Encoder.Serialize.{WasmDataSegmentEncoder}
use v8_native_prototype.Encoder.Signatures.{SignatureMap, add_signature}
use v8_native_prototype.Encoder.Sizes.{WasmModuleWriter}

-- The map is of the type that V8's ZoneMap has.
pub record WasmModuleBuilder (m : SignatureMap) : Type 0 where
  pub signatures : List FunctionSig
  pub functions : List WasmFunctionBuilder
  pub data_segments : List WasmDataSegmentEncoder
  pub indirect_functions : List ℕ
  pub globals : List (MachineType × Bool)
  pub signature_map : m.Map

unfoldable pub add_function : {m : SignatureMap} → WasmModuleBuilder m → ℕ × WasmModuleBuilder m
add_function b =
    let functions : List WasmFunctionBuilder = b.functions ++ (new_function_builder ∷ []) in
    ((length functions - 1) % 2 ^ 16, record b { functions = functions })

unfoldable pub function_at :
    {m : SignatureMap} → ℕ → WasmModuleBuilder m → Option WasmFunctionBuilder
function_at index b = get_elem? b.functions index

unfoldable pub add_data_segment :
    {m : SignatureMap} → WasmDataSegmentEncoder → WasmModuleBuilder m → WasmModuleBuilder m
add_data_segment s b = record b { data_segments = b.data_segments ++ (s ∷ []) }

unfoldable pub add_indirect_function :
    {m : SignatureMap} → ℕ → WasmModuleBuilder m → WasmModuleBuilder m
add_indirect_function index b = record b {
  indirect_functions = b.indirect_functions ++ (index ∷ []);
}

unfoldable pub add_global :
    {m : SignatureMap} → MachineType → Bool → WasmModuleBuilder m → ℕ × WasmModuleBuilder m
add_global type exported b =
    let globals : List (MachineType × Bool) = b.globals ++ ((type, exported) ∷ []) in
    ((length globals - 1) % 2 ^ 32, record b { globals = globals })

unfoldable pub new_module_builder : (m : SignatureMap) → WasmModuleBuilder m
new_module_builder m = record {
  signatures = [];
  functions = [];
  data_segments = [];
  indirect_functions = [];
  globals = [];
  signature_map = m.empty;
}

-- WasmFunctionBuilder::Build, with the signatures and the map of the module builder passed along.
unfoldable pub build_function :
    (m : SignatureMap)
    → WasmFunctionBuilder
    → List FunctionSig
    → m.Map
    → Option (WasmFunctionEncoder × List FunctionSig × m.Map)
build_function m b signatures map = do
  body ← build_body b
  let counts = count_vars b.locals no_vars
  let (index, signatures₁, map₁) = add_signature m (build_sig b) signatures map
  let e : WasmFunctionEncoder = record {
    signature_index = index;
    params = param_types b.locals;
    local_int32_count = counts.int32;
    local_int64_count = counts.int64;
    local_float32_count = counts.float32;
    local_float64_count = counts.float64;
    exported = not (b.exported == 0);
    external = not (b.external == 0);
    body = body;
  }
  some (e, signatures₁, map₁)

-- The first loop of WasmModuleBuilder::Build.
unfoldable pub build_functions :
    (m : SignatureMap)
    → List WasmFunctionBuilder
    → List FunctionSig
    → m.Map
    → Option (List WasmFunctionEncoder × List FunctionSig × m.Map)
build_functions m [] signatures map = some ([], signatures, map)
build_functions m (b ∷ bs) signatures map = do
  (e, signatures₁, map₁) ← build_function m b signatures map
  (es, signatures₂, map₂) ← build_functions m bs signatures₁ map₁
  some (e ∷ es, signatures₂, map₂)

-- WasmModuleBuilder::Build; the builder is left with the signatures that were added.
unfoldable pub build :
    (m : SignatureMap) → WasmModuleBuilder m → Option (WasmModuleWriter × WasmModuleBuilder m)
build m b = do
  (functions, signatures, map) ← build_functions m b.functions b.signatures b.signature_map
  let w : WasmModuleWriter = record {
    functions = functions;
    data_segments = b.data_segments;
    signatures = signatures;
    indirect_functions = b.indirect_functions;
    globals = b.globals;
  }
  some (w, record b { signatures = signatures; signature_map = map })
