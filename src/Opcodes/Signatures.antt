-- ===== src/Opcodes/Signatures.antt =====
-- The signatures of wasm/wasm-opcodes.h (FOREACH_SIGNATURE) and the signature of each opcode that
-- has one in the table.
use v8_native_prototype.Base.{ℕ, Option, none, some, [], ◌∷◌}
use v8_native_prototype.Opcodes.Types.{FunctionSig, ast_i32, ast_i64, ast_f32, ast_f64}
use v8_native_prototype.Opcodes.Enum.{
  WasmOpcode, i32_add, i32_sub, i32_mul, i32_div_s, i32_div_u, i32_rem_s, i32_rem_u, i32_and,
  i32_ior, i32_xor, i32_shl, i32_shr_u, i32_shr_s, i32_eq, i32_ne, i32_lt_s, i32_le_s, i32_lt_u,
  i32_le_u, i32_gt_s, i32_ge_s, i32_gt_u, i32_ge_u, i32_clz, i32_ctz, i32_popcnt, bool_not, i64_add,
  i64_sub, i64_mul, i64_div_s, i64_div_u, i64_rem_s, i64_rem_u, i64_and, i64_ior, i64_xor, i64_shl,
  i64_shr_u, i64_shr_s, i64_eq, i64_ne, i64_lt_s, i64_le_s, i64_lt_u, i64_le_u, i64_gt_s, i64_ge_s,
  i64_gt_u, i64_ge_u, i64_clz, i64_ctz, i64_popcnt, f32_add, f32_sub, f32_mul, f32_div, f32_min,
  f32_max, f32_abs, f32_neg, f32_copy_sign, f32_ceil, f32_floor, f32_trunc, f32_nearest_int,
  f32_sqrt, f32_eq, f32_ne, f32_lt, f32_le, f32_gt, f32_ge, f64_add, f64_sub, f64_mul, f64_div,
  f64_min, f64_max, f64_abs, f64_neg, f64_copy_sign, f64_ceil, f64_floor, f64_trunc,
  f64_nearest_int, f64_sqrt, f64_eq, f64_ne, f64_lt, f64_le, f64_gt, f64_ge, i32_sconvert_f32,
  i32_sconvert_f64, i32_uconvert_f32, i32_uconvert_f64, i32_convert_i64, i64_sconvert_f32,
  i64_sconvert_f64, i64_uconvert_f32, i64_uconvert_f64, i64_sconvert_i32, i64_uconvert_i32,
  f32_sconvert_i32, f32_uconvert_i32, f32_sconvert_i64, f32_uconvert_i64, f32_convert_f64,
  f32_reinterpret_i32, f64_sconvert_i32, f64_uconvert_i32, f64_sconvert_i64, f64_uconvert_i64,
  f64_convert_f32, f64_reinterpret_i64, i32_reinterpret_f32, i64_reinterpret_f64, i32_store_mem8,
  i32_store_mem16, i64_store_mem8, i64_store_mem16, i64_store_mem32, i32_store_mem, i64_store_mem,
  f32_store_mem, f64_store_mem, i32_load_mem8_s, i32_load_mem8_u, i32_load_mem16_s,
  i32_load_mem16_u, i64_load_mem8_s, i64_load_mem8_u, i64_load_mem16_s, i64_load_mem16_u,
  i64_load_mem32_s, i64_load_mem32_u, i32_load_mem, i64_load_mem, f32_load_mem, f64_load_mem,
  memory_size, grow_memory,
}

pub data WasmOpcodeSig : Type 0 where
  i_ii i_i i_v i_ff i_f i_dd i_d i_l l_ll i_ll l_l l_i l_f l_d f_ff f_f f_d f_i f_l d_dd d_d :
      WasmOpcodeSig
  d_f d_i d_l d_id f_if l_il : WasmOpcodeSig

-- V(name, result, parameters...) of FOREACH_SIGNATURE.
unfoldable pub sig_of : WasmOpcodeSig → FunctionSig
sig_of i_ii = record { returns = ast_i32 ∷ []; params = ast_i32 ∷ ast_i32 ∷ [] }
sig_of i_i = record { returns = ast_i32 ∷ []; params = ast_i32 ∷ [] }
sig_of i_v = record { returns = ast_i32 ∷ []; params = [] }
sig_of i_ff = record { returns = ast_i32 ∷ []; params = ast_f32 ∷ ast_f32 ∷ [] }
sig_of i_f = record { returns = ast_i32 ∷ []; params = ast_f32 ∷ [] }
sig_of i_dd = record { returns = ast_i32 ∷ []; params = ast_f64 ∷ ast_f64 ∷ [] }
sig_of i_d = record { returns = ast_i32 ∷ []; params = ast_f64 ∷ [] }
sig_of i_l = record { returns = ast_i32 ∷ []; params = ast_i64 ∷ [] }
sig_of l_ll = record { returns = ast_i64 ∷ []; params = ast_i64 ∷ ast_i64 ∷ [] }
sig_of i_ll = record { returns = ast_i32 ∷ []; params = ast_i64 ∷ ast_i64 ∷ [] }
sig_of l_l = record { returns = ast_i64 ∷ []; params = ast_i64 ∷ [] }
sig_of l_i = record { returns = ast_i64 ∷ []; params = ast_i32 ∷ [] }
sig_of l_f = record { returns = ast_i64 ∷ []; params = ast_f32 ∷ [] }
sig_of l_d = record { returns = ast_i64 ∷ []; params = ast_f64 ∷ [] }
sig_of f_ff = record { returns = ast_f32 ∷ []; params = ast_f32 ∷ ast_f32 ∷ [] }
sig_of f_f = record { returns = ast_f32 ∷ []; params = ast_f32 ∷ [] }
sig_of f_d = record { returns = ast_f32 ∷ []; params = ast_f64 ∷ [] }
sig_of f_i = record { returns = ast_f32 ∷ []; params = ast_i32 ∷ [] }
sig_of f_l = record { returns = ast_f32 ∷ []; params = ast_i64 ∷ [] }
sig_of d_dd = record { returns = ast_f64 ∷ []; params = ast_f64 ∷ ast_f64 ∷ [] }
sig_of d_d = record { returns = ast_f64 ∷ []; params = ast_f64 ∷ [] }
sig_of d_f = record { returns = ast_f64 ∷ []; params = ast_f32 ∷ [] }
sig_of d_i = record { returns = ast_f64 ∷ []; params = ast_i32 ∷ [] }
sig_of d_l = record { returns = ast_f64 ∷ []; params = ast_i64 ∷ [] }
sig_of d_id = record { returns = ast_f64 ∷ []; params = ast_i32 ∷ ast_f64 ∷ [] }
sig_of f_if = record { returns = ast_f32 ∷ []; params = ast_i32 ∷ ast_f32 ∷ [] }
sig_of l_il = record { returns = ast_i64 ∷ []; params = ast_i32 ∷ ast_i64 ∷ [] }

-- The place of a signature in `WasmOpcodeSig`.
unfoldable pub sig_enum : WasmOpcodeSig → ℕ
sig_enum i_ii = 0
sig_enum i_i = 1
sig_enum i_v = 2
sig_enum i_ff = 3
sig_enum i_f = 4
sig_enum i_dd = 5
sig_enum i_d = 6
sig_enum i_l = 7
sig_enum l_ll = 8
sig_enum i_ll = 9
sig_enum l_l = 10
sig_enum l_i = 11
sig_enum l_f = 12
sig_enum l_d = 13
sig_enum f_ff = 14
sig_enum f_f = 15
sig_enum f_d = 16
sig_enum f_i = 17
sig_enum f_l = 18
sig_enum d_dd = 19
sig_enum d_d = 20
sig_enum d_f = 21
sig_enum d_i = 22
sig_enum d_l = 23
sig_enum d_id = 24
sig_enum f_if = 25
sig_enum l_il = 26

-- The third column of FOREACH_SIMPLE_OPCODE; `none` for the opcodes of the other tables.
unfoldable pub simple_sig : WasmOpcode → Option WasmOpcodeSig
simple_sig i32_add = some i_ii
simple_sig i32_sub = some i_ii
simple_sig i32_mul = some i_ii
simple_sig i32_div_s = some i_ii
simple_sig i32_div_u = some i_ii
simple_sig i32_rem_s = some i_ii
simple_sig i32_rem_u = some i_ii
simple_sig i32_and = some i_ii
simple_sig i32_ior = some i_ii
simple_sig i32_xor = some i_ii
simple_sig i32_shl = some i_ii
simple_sig i32_shr_u = some i_ii
simple_sig i32_shr_s = some i_ii
simple_sig i32_eq = some i_ii
simple_sig i32_ne = some i_ii
simple_sig i32_lt_s = some i_ii
simple_sig i32_le_s = some i_ii
simple_sig i32_lt_u = some i_ii
simple_sig i32_le_u = some i_ii
simple_sig i32_gt_s = some i_ii
simple_sig i32_ge_s = some i_ii
simple_sig i32_gt_u = some i_ii
simple_sig i32_ge_u = some i_ii
simple_sig i32_clz = some i_i
simple_sig i32_ctz = some i_i
simple_sig i32_popcnt = some i_i
simple_sig bool_not = some i_i
simple_sig i64_add = some l_ll
simple_sig i64_sub = some l_ll
simple_sig i64_mul = some l_ll
simple_sig i64_div_s = some l_ll
simple_sig i64_div_u = some l_ll
simple_sig i64_rem_s = some l_ll
simple_sig i64_rem_u = some l_ll
simple_sig i64_and = some l_ll
simple_sig i64_ior = some l_ll
simple_sig i64_xor = some l_ll
simple_sig i64_shl = some l_ll
simple_sig i64_shr_u = some l_ll
simple_sig i64_shr_s = some l_ll
simple_sig i64_eq = some i_ll
simple_sig i64_ne = some i_ll
simple_sig i64_lt_s = some i_ll
simple_sig i64_le_s = some i_ll
simple_sig i64_lt_u = some i_ll
simple_sig i64_le_u = some i_ll
simple_sig i64_gt_s = some i_ll
simple_sig i64_ge_s = some i_ll
simple_sig i64_gt_u = some i_ll
simple_sig i64_ge_u = some i_ll
simple_sig i64_clz = some l_l
simple_sig i64_ctz = some l_l
simple_sig i64_popcnt = some l_l
simple_sig f32_add = some f_ff
simple_sig f32_sub = some f_ff
simple_sig f32_mul = some f_ff
simple_sig f32_div = some f_ff
simple_sig f32_min = some f_ff
simple_sig f32_max = some f_ff
simple_sig f32_abs = some f_f
simple_sig f32_neg = some f_f
simple_sig f32_copy_sign = some f_ff
simple_sig f32_ceil = some f_f
simple_sig f32_floor = some f_f
simple_sig f32_trunc = some f_f
simple_sig f32_nearest_int = some f_f
simple_sig f32_sqrt = some f_f
simple_sig f32_eq = some i_ff
simple_sig f32_ne = some i_ff
simple_sig f32_lt = some i_ff
simple_sig f32_le = some i_ff
simple_sig f32_gt = some i_ff
simple_sig f32_ge = some i_ff
simple_sig f64_add = some d_dd
simple_sig f64_sub = some d_dd
simple_sig f64_mul = some d_dd
simple_sig f64_div = some d_dd
simple_sig f64_min = some d_dd
simple_sig f64_max = some d_dd
simple_sig f64_abs = some d_d
simple_sig f64_neg = some d_d
simple_sig f64_copy_sign = some d_dd
simple_sig f64_ceil = some d_d
simple_sig f64_floor = some d_d
simple_sig f64_trunc = some d_d
simple_sig f64_nearest_int = some d_d
simple_sig f64_sqrt = some d_d
simple_sig f64_eq = some i_dd
simple_sig f64_ne = some i_dd
simple_sig f64_lt = some i_dd
simple_sig f64_le = some i_dd
simple_sig f64_gt = some i_dd
simple_sig f64_ge = some i_dd
simple_sig i32_sconvert_f32 = some i_f
simple_sig i32_sconvert_f64 = some i_d
simple_sig i32_uconvert_f32 = some i_f
simple_sig i32_uconvert_f64 = some i_d
simple_sig i32_convert_i64 = some i_l
simple_sig i64_sconvert_f32 = some l_f
simple_sig i64_sconvert_f64 = some l_d
simple_sig i64_uconvert_f32 = some l_f
simple_sig i64_uconvert_f64 = some l_d
simple_sig i64_sconvert_i32 = some l_i
simple_sig i64_uconvert_i32 = some l_i
simple_sig f32_sconvert_i32 = some f_i
simple_sig f32_uconvert_i32 = some f_i
simple_sig f32_sconvert_i64 = some f_l
simple_sig f32_uconvert_i64 = some f_l
simple_sig f32_convert_f64 = some f_d
simple_sig f32_reinterpret_i32 = some f_i
simple_sig f64_sconvert_i32 = some d_i
simple_sig f64_uconvert_i32 = some d_i
simple_sig f64_sconvert_i64 = some d_l
simple_sig f64_uconvert_i64 = some d_l
simple_sig f64_convert_f32 = some d_f
simple_sig f64_reinterpret_i64 = some d_l
simple_sig i32_reinterpret_f32 = some i_f
simple_sig i64_reinterpret_f64 = some l_d
simple_sig _ = none

-- The third column of the tables of loads, stores and memory operations.
unfoldable pub memory_sig : WasmOpcode → Option WasmOpcodeSig
memory_sig i32_store_mem8 = some i_ii
memory_sig i32_store_mem16 = some i_ii
memory_sig i64_store_mem8 = some l_il
memory_sig i64_store_mem16 = some l_il
memory_sig i64_store_mem32 = some l_il
memory_sig i32_store_mem = some i_ii
memory_sig i64_store_mem = some l_il
memory_sig f32_store_mem = some f_if
memory_sig f64_store_mem = some d_id
memory_sig i32_load_mem8_s = some i_i
memory_sig i32_load_mem8_u = some i_i
memory_sig i32_load_mem16_s = some i_i
memory_sig i32_load_mem16_u = some i_i
memory_sig i64_load_mem8_s = some l_i
memory_sig i64_load_mem8_u = some l_i
memory_sig i64_load_mem16_s = some l_i
memory_sig i64_load_mem16_u = some l_i
memory_sig i64_load_mem32_s = some l_i
memory_sig i64_load_mem32_u = some l_i
memory_sig i32_load_mem = some i_i
memory_sig i64_load_mem = some l_i
memory_sig f32_load_mem = some f_i
memory_sig f64_load_mem = some d_i
memory_sig memory_size = some i_v
memory_sig grow_memory = some i_i
memory_sig _ = none
