-- ===== src/Opcodes/Types.antt =====
-- The types of wasm/wasm-opcodes.h: machine types as far as the source names them, the local types
-- among them, and the binary codes of both. Where the source says UNREACHABLE() the model goes on as
-- a release build does.
use v8_native_prototype.Base.{ℕ, List}

-- The values of V8's MachineType that the source names.
pub data MachineType : Type 0 where
  mach_none mach_int8 mach_uint8 mach_int16 mach_uint16 mach_int32 mach_uint32 : MachineType
  mach_int64 mach_uint64 mach_float32 mach_float64 type_any mach_any_tagged : MachineType

-- `typedef MachineType LocalType` and its constants.
abbrev pub LocalType : Type 0
LocalType = MachineType

pattern abbrev pub ast_stmt : LocalType
ast_stmt = mach_none

pattern abbrev pub ast_i32 : LocalType
ast_i32 = mach_int32

pattern abbrev pub ast_i64 : LocalType
ast_i64 = mach_int64

pattern abbrev pub ast_f32 : LocalType
ast_f32 = mach_float32

pattern abbrev pub ast_f64 : LocalType
ast_f64 = mach_float64

pattern abbrev pub ast_end : LocalType
ast_end = type_any

-- Signature<LocalType>: the results and the parameters.
pub record FunctionSig : Type 0 where
  pub returns : List LocalType
  pub params : List LocalType

pub data LocalTypeCode : Type 0 where
  local_void local_i32 local_i64 local_f32 local_f64 : LocalTypeCode

unfoldable pub local_code : LocalTypeCode → ℕ
local_code local_void = 0
local_code local_i32 = 1
local_code local_i64 = 2
local_code local_f32 = 3
local_code local_f64 = 4

pub data MemTypeCode : Type 0 where
  mem_i8 mem_u8 mem_i16 mem_u16 mem_i32 mem_u32 mem_i64 mem_u64 mem_f32 mem_f64 : MemTypeCode

unfoldable pub mem_code : MemTypeCode → ℕ
mem_code mem_i8 = 0
mem_code mem_u8 = 1
mem_code mem_i16 = 2
mem_code mem_u16 = 3
mem_code mem_i32 = 4
mem_code mem_u32 = 5
mem_code mem_i64 = 6
mem_code mem_u64 = 7
mem_code mem_f32 = 8
mem_code mem_f64 = 9

unfoldable pub local_type_code_for : LocalType → LocalTypeCode
local_type_code_for ast_i32 = local_i32
local_type_code_for ast_i64 = local_i64
local_type_code_for ast_f32 = local_f32
local_type_code_for ast_f64 = local_f64
local_type_code_for ast_stmt = local_void
local_type_code_for _ = local_void

unfoldable pub mem_type_code_for : MachineType → MemTypeCode
mem_type_code_for mach_int8 = mem_i8
mem_type_code_for mach_uint8 = mem_u8
mem_type_code_for mach_int16 = mem_i16
mem_type_code_for mach_uint16 = mem_u16
mem_type_code_for mach_int32 = mem_i32
mem_type_code_for mach_uint32 = mem_u32
mem_type_code_for mach_int64 = mem_i64
mem_type_code_for mach_uint64 = mem_u64
mem_type_code_for mach_float32 = mem_f32
mem_type_code_for mach_float64 = mem_f64
mem_type_code_for _ = mem_i32

unfoldable pub local_type_for : MachineType → LocalType
local_type_for mach_int8 = ast_i32
local_type_for mach_uint8 = ast_i32
local_type_for mach_int16 = ast_i32
local_type_for mach_uint16 = ast_i32
local_type_for mach_int32 = ast_i32
local_type_for mach_uint32 = ast_i32
local_type_for mach_int64 = ast_i64
local_type_for mach_uint64 = ast_i64
local_type_for mach_float32 = ast_f32
local_type_for mach_float64 = ast_f64
local_type_for _ = ast_i32
