-- ===== src/Opcodes/Enum.antt =====
-- The opcodes of wasm/wasm-opcodes.h (FOREACH_OPCODE): the enumeration, the byte of each opcode, and
-- the signature that the table gives it. The source's kExpr prefix is left out.
use v8_native_prototype.Base.{ℕ}

pub data WasmOpcode : Type 0 where
  nop block loop if_op if_else select br br_if table_switch return unreachable : WasmOpcode
  i8_const i32_const i64_const f64_const f32_const get_local set_local load_global store_global :
      WasmOpcode
  call_function call_indirect : WasmOpcode
  i32_add i32_sub i32_mul i32_div_s i32_div_u i32_rem_s i32_rem_u i32_and i32_ior i32_xor :
      WasmOpcode
  i32_shl i32_shr_u i32_shr_s i32_eq i32_ne i32_lt_s i32_le_s i32_lt_u i32_le_u i32_gt_s :
      WasmOpcode
  i32_ge_s i32_gt_u i32_ge_u i32_clz i32_ctz i32_popcnt bool_not i64_add i64_sub i64_mul :
      WasmOpcode
  i64_div_s i64_div_u i64_rem_s i64_rem_u i64_and i64_ior i64_xor i64_shl i64_shr_u i64_shr_s :
      WasmOpcode
  i64_eq i64_ne i64_lt_s i64_le_s i64_lt_u i64_le_u i64_gt_s i64_ge_s i64_gt_u i64_ge_u i64_clz :
      WasmOpcode
  i64_ctz i64_popcnt f32_add f32_sub f32_mul f32_div f32_min f32_max f32_abs f32_neg : WasmOpcode
  f32_copy_sign f32_ceil f32_floor f32_trunc f32_nearest_int f32_sqrt f32_eq f32_ne f32_lt :
      WasmOpcode
  f32_le f32_gt f32_ge f64_add f64_sub f64_mul f64_div f64_min f64_max f64_abs f64_neg : WasmOpcode
  f64_copy_sign f64_ceil f64_floor f64_trunc f64_nearest_int f64_sqrt f64_eq f64_ne f64_lt :
      WasmOpcode
  f64_le f64_gt f64_ge i32_sconvert_f32 i32_sconvert_f64 i32_uconvert_f32 i32_uconvert_f64 :
      WasmOpcode
  i32_convert_i64 i64_sconvert_f32 i64_sconvert_f64 i64_uconvert_f32 i64_uconvert_f64 : WasmOpcode
  i64_sconvert_i32 i64_uconvert_i32 f32_sconvert_i32 f32_uconvert_i32 f32_sconvert_i64 : WasmOpcode
  f32_uconvert_i64 f32_convert_f64 f32_reinterpret_i32 f64_sconvert_i32 f64_uconvert_i32 :
      WasmOpcode
  f64_sconvert_i64 f64_uconvert_i64 f64_convert_f32 f64_reinterpret_i64 i32_reinterpret_f32 :
      WasmOpcode
  i64_reinterpret_f64 : WasmOpcode
  i32_store_mem8 i32_store_mem16 i64_store_mem8 i64_store_mem16 i64_store_mem32 i32_store_mem :
      WasmOpcode
  i64_store_mem f32_store_mem f64_store_mem : WasmOpcode
  i32_load_mem8_s i32_load_mem8_u i32_load_mem16_s i32_load_mem16_u i64_load_mem8_s : WasmOpcode
  i64_load_mem8_u i64_load_mem16_s i64_load_mem16_u i64_load_mem32_s i64_load_mem32_u : WasmOpcode
  i32_load_mem i64_load_mem f32_load_mem f64_load_mem : WasmOpcode
  memory_size grow_memory : WasmOpcode

-- The second column of the table.
unfoldable pub opcode_byte : WasmOpcode → ℕ
opcode_byte nop = 0x00
opcode_byte block = 0x01
opcode_byte loop = 0x02
opcode_byte if_op = 0x03
opcode_byte if_else = 0x04
opcode_byte select = 0x05
opcode_byte br = 0x06
opcode_byte br_if = 0x07
opcode_byte table_switch = 0x08
opcode_byte return = 0x14
opcode_byte unreachable = 0x15
opcode_byte i8_const = 0x09
opcode_byte i32_const = 0x0a
opcode_byte i64_const = 0x0b
opcode_byte f64_const = 0x0c
opcode_byte f32_const = 0x0d
opcode_byte get_local = 0x0e
opcode_byte set_local = 0x0f
opcode_byte load_global = 0x10
opcode_byte store_global = 0x11
opcode_byte call_function = 0x12
opcode_byte call_indirect = 0x13
opcode_byte i32_add = 0x40
opcode_byte i32_sub = 0x41
opcode_byte i32_mul = 0x42
opcode_byte i32_div_s = 0x43
opcode_byte i32_div_u = 0x44
opcode_byte i32_rem_s = 0x45
opcode_byte i32_rem_u = 0x46
opcode_byte i32_and = 0x47
opcode_byte i32_ior = 0x48
opcode_byte i32_xor = 0x49
opcode_byte i32_shl = 0x4a
opcode_byte i32_shr_u = 0x4b
opcode_byte i32_shr_s = 0x4c
opcode_byte i32_eq = 0x4d
opcode_byte i32_ne = 0x4e
opcode_byte i32_lt_s = 0x4f
opcode_byte i32_le_s = 0x50
opcode_byte i32_lt_u = 0x51
opcode_byte i32_le_u = 0x52
opcode_byte i32_gt_s = 0x53
opcode_byte i32_ge_s = 0x54
opcode_byte i32_gt_u = 0x55
opcode_byte i32_ge_u = 0x56
opcode_byte i32_clz = 0x57
opcode_byte i32_ctz = 0x58
opcode_byte i32_popcnt = 0x59
opcode_byte bool_not = 0x5a
opcode_byte i64_add = 0x5b
opcode_byte i64_sub = 0x5c
opcode_byte i64_mul = 0x5d
opcode_byte i64_div_s = 0x5e
opcode_byte i64_div_u = 0x5f
opcode_byte i64_rem_s = 0x60
opcode_byte i64_rem_u = 0x61
opcode_byte i64_and = 0x62
opcode_byte i64_ior = 0x63
opcode_byte i64_xor = 0x64
opcode_byte i64_shl = 0x65
opcode_byte i64_shr_u = 0x66
opcode_byte i64_shr_s = 0x67
opcode_byte i64_eq = 0x68
opcode_byte i64_ne = 0x69
opcode_byte i64_lt_s = 0x6a
opcode_byte i64_le_s = 0x6b
opcode_byte i64_lt_u = 0x6c
opcode_byte i64_le_u = 0x6d
opcode_byte i64_gt_s = 0x6e
opcode_byte i64_ge_s = 0x6f
opcode_byte i64_gt_u = 0x70
opcode_byte i64_ge_u = 0x71
opcode_byte i64_clz = 0x72
opcode_byte i64_ctz = 0x73
opcode_byte i64_popcnt = 0x74
opcode_byte f32_add = 0x75
opcode_byte f32_sub = 0x76
opcode_byte f32_mul = 0x77
opcode_byte f32_div = 0x78
opcode_byte f32_min = 0x79
opcode_byte f32_max = 0x7a
opcode_byte f32_abs = 0x7b
opcode_byte f32_neg = 0x7c
opcode_byte f32_copy_sign = 0x7d
opcode_byte f32_ceil = 0x7e
opcode_byte f32_floor = 0x7f
opcode_byte f32_trunc = 0x80
opcode_byte f32_nearest_int = 0x81
opcode_byte f32_sqrt = 0x82
opcode_byte f32_eq = 0x83
opcode_byte f32_ne = 0x84
opcode_byte f32_lt = 0x85
opcode_byte f32_le = 0x86
opcode_byte f32_gt = 0x87
opcode_byte f32_ge = 0x88
opcode_byte f64_add = 0x89
opcode_byte f64_sub = 0x8a
opcode_byte f64_mul = 0x8b
opcode_byte f64_div = 0x8c
opcode_byte f64_min = 0x8d
opcode_byte f64_max = 0x8e
opcode_byte f64_abs = 0x8f
opcode_byte f64_neg = 0x90
opcode_byte f64_copy_sign = 0x91
opcode_byte f64_ceil = 0x92
opcode_byte f64_floor = 0x93
opcode_byte f64_trunc = 0x94
opcode_byte f64_nearest_int = 0x95
opcode_byte f64_sqrt = 0x96
opcode_byte f64_eq = 0x97
opcode_byte f64_ne = 0x98
opcode_byte f64_lt = 0x99
opcode_byte f64_le = 0x9a
opcode_byte f64_gt = 0x9b
opcode_byte f64_ge = 0x9c
opcode_byte i32_sconvert_f32 = 0x9d
opcode_byte i32_sconvert_f64 = 0x9e
opcode_byte i32_uconvert_f32 = 0x9f
opcode_byte i32_uconvert_f64 = 0xa0
opcode_byte i32_convert_i64 = 0xa1
opcode_byte i64_sconvert_f32 = 0xa2
opcode_byte i64_sconvert_f64 = 0xa3
opcode_byte i64_uconvert_f32 = 0xa4
opcode_byte i64_uconvert_f64 = 0xa5
opcode_byte i64_sconvert_i32 = 0xa6
opcode_byte i64_uconvert_i32 = 0xa7
opcode_byte f32_sconvert_i32 = 0xa8
opcode_byte f32_uconvert_i32 = 0xa9
opcode_byte f32_sconvert_i64 = 0xaa
opcode_byte f32_uconvert_i64 = 0xab
opcode_byte f32_convert_f64 = 0xac
opcode_byte f32_reinterpret_i32 = 0xad
opcode_byte f64_sconvert_i32 = 0xae
opcode_byte f64_uconvert_i32 = 0xaf
opcode_byte f64_sconvert_i64 = 0xb0
opcode_byte f64_uconvert_i64 = 0xb1
opcode_byte f64_convert_f32 = 0xb2
opcode_byte f64_reinterpret_i64 = 0xb3
opcode_byte i32_reinterpret_f32 = 0xb4
opcode_byte i64_reinterpret_f64 = 0xb5
opcode_byte i32_store_mem8 = 0x2e
opcode_byte i32_store_mem16 = 0x2f
opcode_byte i64_store_mem8 = 0x30
opcode_byte i64_store_mem16 = 0x31
opcode_byte i64_store_mem32 = 0x32
opcode_byte i32_store_mem = 0x33
opcode_byte i64_store_mem = 0x34
opcode_byte f32_store_mem = 0x35
opcode_byte f64_store_mem = 0x36
opcode_byte i32_load_mem8_s = 0x20
opcode_byte i32_load_mem8_u = 0x21
opcode_byte i32_load_mem16_s = 0x22
opcode_byte i32_load_mem16_u = 0x23
opcode_byte i64_load_mem8_s = 0x24
opcode_byte i64_load_mem8_u = 0x25
opcode_byte i64_load_mem16_s = 0x26
opcode_byte i64_load_mem16_u = 0x27
opcode_byte i64_load_mem32_s = 0x28
opcode_byte i64_load_mem32_u = 0x29
opcode_byte i32_load_mem = 0x2a
opcode_byte i64_load_mem = 0x2b
opcode_byte f32_load_mem = 0x2c
opcode_byte f64_load_mem = 0x2d
opcode_byte memory_size = 0x3b
opcode_byte grow_memory = 0x39
