-- ===== src/Opcodes/Access.antt =====
-- What the loads and stores do with memory, as Reduce(Production*) of LR_WasmDecoder in
-- wasm/ast-decoder.cc hands it on to ReduceLoadMem and ReduceStoreMem.
use v8_native_prototype.Base.{Bool, true, false, Option, none, some}
use v8_native_prototype.Opcodes.Types.{
  LocalType, MachineType, ast_i32, ast_i64, ast_f32, ast_f64, mach_float32, mach_float64,
  mach_int16, mach_int32, mach_int64, mach_int8, mach_uint16, mach_uint32, mach_uint8,
}
use v8_native_prototype.Opcodes.Enum.{
  WasmOpcode, i32_load_mem8_s, i32_load_mem8_u, i32_load_mem16_s, i32_load_mem16_u, i32_load_mem,
  i64_load_mem8_s, i64_load_mem8_u, i64_load_mem16_s, i64_load_mem16_u, i64_load_mem32_s,
  i64_load_mem32_u, i64_load_mem, f32_load_mem, f64_load_mem, i32_store_mem8, i32_store_mem16,
  i32_store_mem, i64_store_mem8, i64_store_mem16, i64_store_mem32, i64_store_mem, f32_store_mem,
  f64_store_mem,
}

-- Whether it is a store, the type of the value, and what stands in memory.
unfoldable pub memory_access : WasmOpcode → Option (Bool × LocalType × MachineType)
memory_access i32_load_mem8_s = some (false, ast_i32, mach_int8)
memory_access i32_load_mem8_u = some (false, ast_i32, mach_uint8)
memory_access i32_load_mem16_s = some (false, ast_i32, mach_int16)
memory_access i32_load_mem16_u = some (false, ast_i32, mach_uint16)
memory_access i32_load_mem = some (false, ast_i32, mach_int32)
memory_access i64_load_mem8_s = some (false, ast_i64, mach_int8)
memory_access i64_load_mem8_u = some (false, ast_i64, mach_uint8)
memory_access i64_load_mem16_s = some (false, ast_i64, mach_int16)
memory_access i64_load_mem16_u = some (false, ast_i64, mach_uint16)
memory_access i64_load_mem32_s = some (false, ast_i64, mach_int32)
memory_access i64_load_mem32_u = some (false, ast_i64, mach_uint32)
memory_access i64_load_mem = some (false, ast_i64, mach_int64)
memory_access f32_load_mem = some (false, ast_f32, mach_float32)
memory_access f64_load_mem = some (false, ast_f64, mach_float64)
memory_access i32_store_mem8 = some (true, ast_i32, mach_int8)
memory_access i32_store_mem16 = some (true, ast_i32, mach_int16)
memory_access i32_store_mem = some (true, ast_i32, mach_int32)
memory_access i64_store_mem8 = some (true, ast_i64, mach_int8)
memory_access i64_store_mem16 = some (true, ast_i64, mach_int16)
memory_access i64_store_mem32 = some (true, ast_i64, mach_int32)
memory_access i64_store_mem = some (true, ast_i64, mach_int64)
memory_access f32_store_mem = some (true, ast_f32, mach_float32)
memory_access f64_store_mem = some (true, ast_f64, mach_float64)
memory_access _ = none
