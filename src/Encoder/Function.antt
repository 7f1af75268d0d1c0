-- ===== src/Encoder/Function.antt =====
-- WasmFunctionBuilder and WasmFunctionEncoder of wasm/encoder.cc. The pointer arguments of EmitCode are
-- lists. A read of an index for which no variable was declared, or of a variable whose type has no
-- group of locals, is undefined in the source; Build is `none` then.
use v8_native_prototype.Base.{
  ℕ, ◌+◌, ◌-◌, ◌^◌, ◌%◌, Bool, true, false, List, [], ◌∷◌, ◌++◌, Option, none, some, map, length,
  set, if◌then◌else◌,
}
use v8_native_prototype.Opcodes.Types.{LocalType, ast_i32, ast_i64, ast_f32, ast_f64}
use v8_native_prototype.Opcodes.Enum.{WasmOpcode, opcode_byte}

-- WasmFunctionBuilder::Type.
pub record Var : Type 0 where
  pub param : Bool
  pub type : LocalType

pub record WasmFunctionBuilder : Type 0 where
  pub return_type : LocalType
  pub locals : List Var
  pub exported : ℕ
  pub external : ℕ
  pub body : List ℕ
  pub local_indices : List ℕ

unfoldable pub new_function_builder : WasmFunctionBuilder
new_function_builder = record {
  return_type = ast_i32;
  locals = [];
  exported = 0;
  external = 0;
  body = [];
  local_indices = [];
}

-- AddVar; the index is a uint16_t.
unfoldable pub add_var : LocalType → Bool → WasmFunctionBuilder → ℕ × WasmFunctionBuilder
add_var type param b =
    let locals : List Var = b.locals ++ (record { param = param; type = type } ∷ []) in
    ((length locals - 1) % 2 ^ 16, record b { locals = locals })

unfoldable pub add_param : LocalType → WasmFunctionBuilder → ℕ × WasmFunctionBuilder
unfolding add_var
add_param type b = add_var type true b

unfoldable pub add_local : LocalType → WasmFunctionBuilder → ℕ × WasmFunctionBuilder
unfolding add_var
add_local type b = add_var type false b

unfoldable pub set_return_type : LocalType → WasmFunctionBuilder → WasmFunctionBuilder
set_return_type type b = record b { return_type = type }

-- EmitCode(code, code_size, local_indices, indices_size), in uint32_t arithmetic.
unfoldable pub emit_code : List ℕ → List ℕ → WasmFunctionBuilder → WasmFunctionBuilder
emit_code code indices b =
    let size = length b.body in
    record b {
      body = b.body ++ code;
      local_indices = b.local_indices ++ map (λ i. (i + size % 2 ^ 32) % 2 ^ 32) indices;
    }

unfoldable pub emit : WasmOpcode → WasmFunctionBuilder → WasmFunctionBuilder
emit op b = record b { body = b.body ++ (opcode_byte op ∷ []) }

unfoldable pub emit_with_u8 : WasmOpcode → ℕ → WasmFunctionBuilder → WasmFunctionBuilder
emit_with_u8 op immediate b = record b { body = b.body ++ (opcode_byte op ∷ immediate ∷ []) }

-- The index recorded is that of the last byte of the body, which is the opcode.
unfoldable pub emit_with_local : WasmOpcode → WasmFunctionBuilder → WasmFunctionBuilder
emit_with_local op b =
    let body = b.body ++ (opcode_byte op ∷ []) in
    record b { body = body; local_indices = b.local_indices ++ ((length body - 1) % 2 ^ 32 ∷ []) }

unfoldable pub emit_editable_immediate : ℕ → WasmFunctionBuilder → ℕ × WasmFunctionBuilder
emit_editable_immediate immediate b =
    let body = b.body ++ (immediate ∷ []) in ((length body - 1) % 2 ^ 32, record b { body = body })

unfoldable pub edit_immediate : ℕ → ℕ → WasmFunctionBuilder → WasmFunctionBuilder
edit_immediate offset immediate b = record b { body = set b.body offset immediate }

unfoldable pub set_exported : ℕ → WasmFunctionBuilder → WasmFunctionBuilder
set_exported flag b = record b { exported = flag }

unfoldable pub set_external : ℕ → WasmFunctionBuilder → WasmFunctionBuilder
set_external flag b = record b { external = flag }

pub record WasmFunctionEncoder : Type 0 where
  pub signature_index : ℕ
  pub params : List LocalType
  pub local_int32_count : ℕ
  pub local_int64_count : ℕ
  pub local_float32_count : ℕ
  pub local_float64_count : ℕ
  pub exported : Bool
  pub external : Bool
  pub body : List ℕ

-- The five uint16_t variables of IndexVars.
pub record VarCounts : Type 0 where
  pub param : ℕ
  pub int32 : ℕ
  pub int64 : ℕ
  pub float32 : ℕ
  pub float64 : ℕ

-- x++ on a uint16_t.
abbrev pub inc16 : ℕ → ℕ
inc16 x = (x + 1) % 2 ^ 16

-- The group that a variable belongs to, by the order of the tests in IndexVars.
pub data VarGroup : Type 0 where
  param_group int32_group int64_group float32_group float64_group no_group : VarGroup

unfoldable pub var_group : Var → VarGroup
var_group v = if v.param then param_group else local_group v.type
  where
    local_group : LocalType → VarGroup
    local_group ast_i32 = int32_group
    local_group ast_i64 = int64_group
    local_group ast_f32 = float32_group
    local_group ast_f64 = float64_group
    local_group _ = no_group

-- The counter of a group, and the counters after it has gone up.
unfoldable pub group_count : VarGroup → VarCounts → Option ℕ
group_count param_group c = some c.param
group_count int32_group c = some c.int32
group_count int64_group c = some c.int64
group_count float32_group c = some c.float32
group_count float64_group c = some c.float64
group_count no_group c = none

unfoldable pub count_up : VarGroup → VarCounts → VarCounts
count_up param_group c = record c { param = inc16 c.param }
count_up int32_group c = record c { int32 = inc16 c.int32 }
count_up int64_group c = record c { int64 = inc16 c.int64 }
count_up float32_group c = record c { float32 = inc16 c.float32 }
count_up float64_group c = record c { float64 = inc16 c.float64 }
count_up no_group c = c

-- The first loop of IndexVars.
unfoldable pub count_vars : List Var → VarCounts → VarCounts
count_vars [] c = c
count_vars (v ∷ vs) c = count_vars vs (count_up (var_group v) c)

-- Where each group begins, from the counts.
unfoldable pub group_starts : VarCounts → VarCounts
group_starts c = record {
  param = 0;
  int32 = c.param;
  int64 = (c.param + c.int32) % 2 ^ 16;
  float32 = (c.param + c.int32 + c.int64) % 2 ^ 16;
  float64 = (c.param + c.int32 + c.int64 + c.float32) % 2 ^ 16;
}

-- The second loop of IndexVars: var_index[i] = group++.
unfoldable pub assign_vars : List Var → VarCounts → List (Option ℕ)
assign_vars [] c = []
assign_vars (v ∷ vs) c = let g = var_group v in group_count g c ∷ assign_vars vs (count_up g c)

-- The types that the second loop pushes to params.
unfoldable pub param_types : List Var → List LocalType
param_types [] = []
param_types (v ∷ vs) = if v.param then v.type ∷ param_types vs else param_types vs

abbrev pub no_vars : VarCounts
no_vars = record { param = 0; int32 = 0; int64 = 0; float32 = 0; float64 = 0 }

-- IndexVars, as the array var_index.
unfoldable pub index_vars : List Var → List (Option ℕ)
index_vars vars = assign_vars vars (group_starts (count_vars vars no_vars))
