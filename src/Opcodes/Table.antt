-- ===== src/Opcodes/Table.antt =====
-- The functions of class WasmOpcodes on opcodes, and the table of signatures that InitSigTable fills.
-- A byte that is no opcode is `none` after the cast. `signature` reads the table as it is once it
-- has been filled; the source fills it at the first call.
use mathlib.Core.List.{foldl}
use v8_native_prototype.Base.{
  ℕ, ◌+◌, Bool, true, false, Option, none, some, List, [], ◌∷◌, ◌++◌, map, ◌==◌, if◌then◌else◌, set,
  get_or, replicate,
}
use v8_native_prototype.Opcodes.Types.{
  MachineType, FunctionSig, mach_int8, mach_uint8, mach_int16, mach_uint16, mach_int32, mach_uint32,
  mach_int64, mach_uint64, mach_float32, mach_float64,
}
use v8_native_prototype.Opcodes.Signatures.{
  WasmOpcodeSig, i_ii, i_i, i_v, i_ff, i_f, i_dd, i_d, i_l, l_ll, i_ll, l_l, l_i, l_f, l_d, f_ff,
  f_f, f_d, f_i, f_l, d_dd, d_d, d_f, d_i, d_l, d_id, f_if, l_il, sig_of, sig_enum, simple_sig,
}
use v8_native_prototype.Opcodes.Rows.{simple_opcodes, other_opcodes}
use v8_native_prototype.Opcodes.Enum.{
  WasmOpcode, opcode_byte, f32_load_mem, f32_sconvert_i64, f32_store_mem, f32_uconvert_i64,
  f64_load_mem, f64_reinterpret_i64, f64_sconvert_i64, f64_store_mem, f64_uconvert_i64,
  i32_convert_i64, i32_load_mem, i32_load_mem16_s, i32_load_mem16_u, i32_load_mem8_s,
  i32_load_mem8_u, i32_store_mem, i32_store_mem16, i32_store_mem8, i64_add, i64_and, i64_clz,
  i64_ctz, i64_div_s, i64_div_u, i64_eq, i64_ge_s, i64_ge_u, i64_gt_s, i64_gt_u, i64_ior, i64_le_s,
  i64_le_u, i64_load_mem, i64_lt_s, i64_lt_u, i64_mul, i64_ne, i64_popcnt, i64_reinterpret_f64,
  i64_rem_s, i64_rem_u, i64_sconvert_f32, i64_sconvert_f64, i64_sconvert_i32, i64_shl, i64_shr_s,
  i64_shr_u, i64_store_mem, i64_sub, i64_uconvert_f32, i64_uconvert_f64, i64_uconvert_i32, i64_xor,
  nop,
}

unfoldable pub find_opcode : ℕ → List WasmOpcode → Option WasmOpcode
find_opcode b [] = none
find_opcode b (op ∷ ops) = if opcode_byte op == b then some op else find_opcode b ops

-- static_cast<WasmOpcode>(byte).
unfoldable pub to_opcode : ℕ → Option WasmOpcode
unfolding find_opcode opcode_byte simple_opcodes other_opcodes
to_opcode b = find_opcode b (simple_opcodes ++ other_opcodes)

-- SET_SIG_TABLE(name, opcode, sig).
set_sig_table : List ℕ → WasmOpcode → List ℕ
unfolding simple_sig sig_enum opcode_byte
set_sig_table table op = elim (simple_sig op) [
  | none ↦ table
  | some s ↦ set table (opcode_byte op) (sig_enum s + 1)
]

-- kSimpleExprSigTable after InitSigTable.
sig_table : List ℕ
unfolding set_sig_table simple_opcodes
sig_table = foldl set_sig_table (replicate 256 0) simple_opcodes

all_sigs : List WasmOpcodeSig
all_sigs =
    i_ii ∷ i_i ∷ i_v ∷ i_ff ∷ i_f ∷ i_dd ∷ i_d ∷ i_l ∷ l_ll ∷ i_ll ∷ l_l ∷ l_i ∷ l_f ∷ l_d ∷ f_ff
    ∷ f_f ∷ f_d ∷ f_i ∷ f_l ∷ d_dd ∷ d_d ∷ d_f ∷ d_i ∷ d_l ∷ d_id ∷ f_if ∷ l_il ∷ []

-- kSimpleExprSigs: a null pointer in front of the signatures.
simple_expr_sigs : List (Option FunctionSig)
unfolding all_sigs sig_of
simple_expr_sigs = none ∷ map (λ s. some (sig_of s)) all_sigs

-- WasmOpcodes::Signature; `none` is the null pointer.
unfoldable pub signature : ℕ → Option FunctionSig
unfolding simple_expr_sigs sig_table
signature b = get_or simple_expr_sigs (get_or sig_table b 0) none

-- WasmOpcodes::IsSupported, on a target with or without 64-bit registers (WASM_64).
unfoldable pub is_supported : Bool → WasmOpcode → Bool
is_supported wasm_64 i64_add = wasm_64
is_supported wasm_64 i64_sub = wasm_64
is_supported wasm_64 i64_mul = wasm_64
is_supported wasm_64 i64_div_s = wasm_64
is_supported wasm_64 i64_div_u = wasm_64
is_supported wasm_64 i64_rem_s = wasm_64
is_supported wasm_64 i64_rem_u = wasm_64
is_supported wasm_64 i64_and = wasm_64
is_supported wasm_64 i64_ior = wasm_64
is_supported wasm_64 i64_xor = wasm_64
is_supported wasm_64 i64_shl = wasm_64
is_supported wasm_64 i64_shr_u = wasm_64
is_supported wasm_64 i64_shr_s = wasm_64
is_supported wasm_64 i64_eq = wasm_64
is_supported wasm_64 i64_ne = wasm_64
is_supported wasm_64 i64_lt_s = wasm_64
is_supported wasm_64 i64_le_s = wasm_64
is_supported wasm_64 i64_lt_u = wasm_64
is_supported wasm_64 i64_le_u = wasm_64
is_supported wasm_64 i64_gt_s = wasm_64
is_supported wasm_64 i64_ge_s = wasm_64
is_supported wasm_64 i64_gt_u = wasm_64
is_supported wasm_64 i64_ge_u = wasm_64
is_supported wasm_64 i32_convert_i64 = wasm_64
is_supported wasm_64 i64_sconvert_i32 = wasm_64
is_supported wasm_64 i64_uconvert_i32 = wasm_64
is_supported wasm_64 f64_reinterpret_i64 = wasm_64
is_supported wasm_64 i64_reinterpret_f64 = wasm_64
is_supported wasm_64 i64_clz = wasm_64
is_supported wasm_64 i64_ctz = wasm_64
is_supported wasm_64 i64_popcnt = wasm_64
is_supported wasm_64 f32_sconvert_i64 = wasm_64
is_supported wasm_64 f32_uconvert_i64 = wasm_64
is_supported wasm_64 f64_sconvert_i64 = wasm_64
is_supported wasm_64 f64_uconvert_i64 = wasm_64
is_supported wasm_64 i64_sconvert_f32 = false
is_supported wasm_64 i64_sconvert_f64 = false
is_supported wasm_64 i64_uconvert_f32 = false
is_supported wasm_64 i64_uconvert_f64 = false
is_supported wasm_64 _ = true

-- WasmOpcodes::LoadStoreOpcodeOf.
unfoldable pub load_store_opcode_of : MachineType → Bool → WasmOpcode
load_store_opcode_of mach_int8 store = if store then i32_store_mem8 else i32_load_mem8_s
load_store_opcode_of mach_uint8 store = if store then i32_store_mem8 else i32_load_mem8_u
load_store_opcode_of mach_int16 store = if store then i32_store_mem16 else i32_load_mem16_s
load_store_opcode_of mach_uint16 store = if store then i32_store_mem16 else i32_load_mem16_u
load_store_opcode_of mach_int32 store = if store then i32_store_mem else i32_load_mem
load_store_opcode_of mach_uint32 store = if store then i32_store_mem else i32_load_mem
load_store_opcode_of mach_int64 store = if store then i64_store_mem else i64_load_mem
load_store_opcode_of mach_uint64 store = if store then i64_store_mem else i64_load_mem
load_store_opcode_of mach_float32 store = if store then f32_store_mem else f32_load_mem
load_store_opcode_of mach_float64 store = if store then f64_store_mem else f64_load_mem
load_store_opcode_of _ store = nop
