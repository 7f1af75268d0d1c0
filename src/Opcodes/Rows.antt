-- ===== src/Opcodes/Rows.antt =====
-- The rows of FOREACH_OPCODE and of FOREACH_SIMPLE_OPCODE in order, for the casts and the table that
-- the macros build.
use v8_native_prototype.Base.{List, [], ◌∷◌}
use v8_native_prototype.Opcodes.Enum.{
  WasmOpcode, nop, block, loop, if_op, if_else, select, br, br_if, table_switch, return,
  unreachable, i8_const, i32_const, i64_const, f64_const, f32_const, get_local, set_local,
  load_global, store_global, call_function, call_indirect, i32_add, i32_sub, i32_mul, i32_div_s,
  i32_div_u, i32_rem_s, i32_rem_u, i32_and, i32_ior, i32_xor, i32_shl, i32_shr_u, i32_shr_s, i32_eq,
  i32_ne, i32_lt_s, i32_le_s, i32_lt_u, i32_le_u, i32_gt_s, i32_ge_s, i32_gt_u, i32_ge_u, i32_clz,
  i32_ctz, i32_popcnt, bool_not, i64_add, i64_sub, i64_mul, i64_div_s, i64_div_u, i64_rem_s,
  i64_rem_u, i64_and, i64_ior, i64_xor, i64_shl, i64_shr_u, i64_shr_s, i64_eq, i64_ne, i64_lt_s,
  i64_le_s, i64_lt_u, i64_le_u, i64_gt_s, i64_ge_s, i64_gt_u, i64_ge_u, i64_clz, i64_ctz,
  i64_popcnt, f32_add, f32_sub, f32_mul, f32_div, f32_min, f32_max, f32_abs, f32_neg, f32_copy_sign,
  f32_ceil, f32_floor, f32_trunc, f32_nearest_int, f32_sqrt, f32_eq, f32_ne, f32_lt, f32_le, f32_gt,
  f32_ge, f64_add, f64_sub, f64_mul, f64_div, f64_min, f64_max, f64_abs, f64_neg, f64_copy_sign,
  f64_ceil, f64_floor, f64_trunc, f64_nearest_int, f64_sqrt, f64_eq, f64_ne, f64_lt, f64_le, f64_gt,
  f64_ge, i32_sconvert_f32, i32_sconvert_f64, i32_uconvert_f32, i32_uconvert_f64, i32_convert_i64,
  i64_sconvert_f32, i64_sconvert_f64, i64_uconvert_f32, i64_uconvert_f64, i64_sconvert_i32,
  i64_uconvert_i32, f32_sconvert_i32, f32_uconvert_i32, f32_sconvert_i64, f32_uconvert_i64,
  f32_convert_f64, f32_reinterpret_i32, f64_sconvert_i32, f64_uconvert_i32, f64_sconvert_i64,
  f64_uconvert_i64, f64_convert_f32, f64_reinterpret_i64, i32_reinterpret_f32, i64_reinterpret_f64,
  i32_store_mem8, i32_store_mem16, i64_store_mem8, i64_store_mem16, i64_store_mem32, i32_store_mem,
  i64_store_mem, f32_store_mem, f64_store_mem, i32_load_mem8_s, i32_load_mem8_u, i32_load_mem16_s,
  i32_load_mem16_u, i64_load_mem8_s, i64_load_mem8_u, i64_load_mem16_s, i64_load_mem16_u,
  i64_load_mem32_s, i64_load_mem32_u, i32_load_mem, i64_load_mem, f32_load_mem, f64_load_mem,
  memory_size, grow_memory,
}

unfoldable pub simple_opcodes : List WasmOpcode
simple_opcodes =
    i32_add ∷ i32_sub ∷ i32_mul ∷ i32_div_s ∷ i32_div_u ∷ i32_rem_s ∷ i32_rem_u ∷ i32_and ∷ i32_ior
    ∷ i32_xor ∷ i32_shl ∷ i32_shr_u ∷ i32_shr_s ∷ i32_eq ∷ i32_ne ∷ i32_lt_s ∷ i32_le_s ∷ i32_lt_u
    ∷ i32_le_u ∷ i32_gt_s ∷ i32_ge_s ∷ i32_gt_u ∷ i32_ge_u ∷ i32_clz ∷ i32_ctz ∷ i32_popcnt
    ∷ bool_not ∷ i64_add ∷ i64_sub ∷ i64_mul ∷ i64_div_s ∷ i64_div_u ∷ i64_rem_s ∷ i64_rem_u
    ∷ i64_and ∷ i64_ior ∷ i64_xor ∷ i64_shl ∷ i64_shr_u ∷ i64_shr_s ∷ i64_eq ∷ i64_ne ∷ i64_lt_s
    ∷ i64_le_s ∷ i64_lt_u ∷ i64_le_u ∷ i64_gt_s ∷ i64_ge_s ∷ i64_gt_u ∷ i64_ge_u ∷ i64_clz ∷ i64_ctz
    ∷ i64_popcnt ∷ f32_add ∷ f32_sub ∷ f32_mul ∷ f32_div ∷ f32_min ∷ f32_max ∷ f32_abs ∷ f32_neg
    ∷ f32_copy_sign ∷ f32_ceil ∷ f32_floor ∷ f32_trunc ∷ f32_nearest_int ∷ f32_sqrt ∷ f32_eq
    ∷ f32_ne ∷ f32_lt ∷ f32_le ∷ f32_gt ∷ f32_ge ∷ f64_add ∷ f64_sub ∷ f64_mul ∷ f64_div ∷ f64_min
    ∷ f64_max ∷ f64_abs ∷ f64_neg ∷ f64_copy_sign ∷ f64_ceil ∷ f64_floor ∷ f64_trunc
    ∷ f64_nearest_int ∷ f64_sqrt ∷ f64_eq ∷ f64_ne ∷ f64_lt ∷ f64_le ∷ f64_gt ∷ f64_ge
    ∷ i32_sconvert_f32 ∷ i32_sconvert_f64 ∷ i32_uconvert_f32 ∷ i32_uconvert_f64 ∷ i32_convert_i64
    ∷ i64_sconvert_f32 ∷ i64_sconvert_f64 ∷ i64_uconvert_f32 ∷ i64_uconvert_f64 ∷ i64_sconvert_i32
    ∷ i64_uconvert_i32 ∷ f32_sconvert_i32 ∷ f32_uconvert_i32 ∷ f32_sconvert_i64 ∷ f32_uconvert_i64
    ∷ f32_convert_f64 ∷ f32_reinterpret_i32 ∷ f64_sconvert_i32 ∷ f64_uconvert_i32 ∷ f64_sconvert_i64
    ∷ f64_uconvert_i64 ∷ f64_convert_f32 ∷ f64_reinterpret_i64 ∷ i32_reinterpret_f32
    ∷ i64_reinterpret_f64 ∷ []

unfoldable pub other_opcodes : List WasmOpcode
other_opcodes =
    nop ∷ block ∷ loop ∷ if_op ∷ if_else ∷ select ∷ br ∷ br_if ∷ table_switch ∷ return ∷ unreachable
    ∷ i8_const ∷ i32_const ∷ i64_const ∷ f64_const ∷ f32_const ∷ get_local ∷ set_local ∷ load_global
    ∷ store_global ∷ call_function ∷ call_indirect ∷ i32_store_mem8 ∷ i32_store_mem16
    ∷ i64_store_mem8 ∷ i64_store_mem16 ∷ i64_store_mem32 ∷ i32_store_mem ∷ i64_store_mem
    ∷ f32_store_mem ∷ f64_store_mem ∷ i32_load_mem8_s ∷ i32_load_mem8_u ∷ i32_load_mem16_s
    ∷ i32_load_mem16_u ∷ i64_load_mem8_s ∷ i64_load_mem8_u ∷ i64_load_mem16_s ∷ i64_load_mem16_u
    ∷ i64_load_mem32_s ∷ i64_load_mem32_u ∷ i32_load_mem ∷ i64_load_mem ∷ f32_load_mem
    ∷ f64_load_mem ∷ memory_size ∷ grow_memory ∷ []
