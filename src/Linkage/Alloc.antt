-- ===== src/Linkage/Alloc.antt =====
-- MachineTypeFor, the Allocator and ModuleEnv::GetWasmCallDescriptor of wasm/wasm-linkage.cc. The codes
-- of the registers and the size of a pointer are V8's and stand in a Target. A LinkageLocation is a
-- value of V8; here it says which function of V8 made it, and from what. Counters are ints that do
-- not overflow. The constants that every call descriptor carries are left out.
use v8_native_prototype.Base.{
  ℕ, ◌+◌, Bool, true, false, ◌&&◌, List, [], ◌∷◌, Option, some, map, length, get_elem?, ltb,
  if◌then◌else◌, ◌>>=◌,
}
use v8_native_prototype.Opcodes.Types.{
  FunctionSig, LocalType, MachineType, mach_int32, mach_int64, mach_float32, mach_float64,
  mach_any_tagged, ast_i32, ast_i64, ast_f32, ast_f64,
}
use v8_native_prototype.Linkage.Registers.{
  Architecture, Register, DoubleRegister, gp_param_registers, gp_return_registers,
  fp_param_registers, fp_return_registers,
}

-- What V8 says about the target.
pub record Target : Type 0 where
  pub architecture : Architecture
  pub pointer_size : ℕ
  pub register_code : Register → ℕ
  pub double_register_code : DoubleRegister → ℕ

-- UNREACHABLE() for a type that is not one of a value.
unfoldable pub machine_type_for : LocalType → MachineType
machine_type_for ast_i32 = mach_int32
machine_type_for ast_i64 = mach_int64
machine_type_for ast_f64 = mach_float64
machine_type_for ast_f32 = mach_float32
machine_type_for _ = mach_any_tagged

-- pos n is n, negsuc n is -1 - n.
pub data ℤ : Type 0 where
  pos negsuc : ℕ → ℤ

pub data LinkageLocation : Type 0 where
  for_register : ℕ → LinkageLocation
  for_caller_frame_slot : ℤ → LinkageLocation
  for_any_register : LinkageLocation

unfoldable pub regloc : Target → Register → LinkageLocation
regloc t reg = for_register (t.register_code reg)

-- regloc for a DoubleRegister.
unfoldable pub double_regloc : Target → DoubleRegister → LinkageLocation
double_regloc t reg = for_register (t.double_register_code reg)

unfoldable pub stackloc : ℤ → LinkageLocation
stackloc i = for_caller_frame_slot i

pub record Allocator : Type 0 where
  pub gp_count : ℕ
  pub gp_offset : ℕ
  pub gp_regs : List Register
  pub fp_count : ℕ
  pub fp_offset : ℕ
  pub fp_regs : List DoubleRegister
  pub stack_offset : ℕ

unfoldable pub new_allocator : List Register → ℕ → List DoubleRegister → ℕ → Allocator
new_allocator gp gpc fp fpc = record {
  gp_count = gpc;
  gp_offset = 0;
  gp_regs = gp;
  fp_count = fpc;
  fp_offset = 0;
  fp_regs = fp;
  stack_offset = 0;
}

unfoldable pub is_floating_point : LocalType → Bool
is_floating_point ast_f32 = true
is_floating_point ast_f64 = true
is_floating_point _ = false

-- Whether a type has 64 bits.
unfoldable pub is_wide : LocalType → Bool
is_wide ast_i64 = true
is_wide ast_f64 = true
is_wide _ = false

unfoldable pub words : Target → LocalType → ℕ
words t type = if ltb t.pointer_size 8 && is_wide type then 2 else 1

-- The three lines of Next that take a slot of the stack.
unfoldable pub next_slot : Target → LocalType → Allocator → LinkageLocation × Allocator
next_slot t type a =
    (stackloc (negsuc a.stack_offset), record a { stack_offset = a.stack_offset + words t type })

-- The lines of Next that take a register; `none` where they would read out of the array.
unfoldable pub next_fp : Target → Allocator → Option (LinkageLocation × Allocator)
next_fp t a = do
  reg ← get_elem? a.fp_regs a.fp_offset
  some (double_regloc t reg, record a { fp_offset = a.fp_offset + 1 })

unfoldable pub next_gp : Target → Allocator → Option (LinkageLocation × Allocator)
next_gp t a = do
  reg ← get_elem? a.gp_regs a.gp_offset
  some (regloc t reg, record a { gp_offset = a.gp_offset + 1 })

-- Allocator::Next.
unfoldable pub next : Target → LocalType → Allocator → Option (LinkageLocation × Allocator)
next t type a =
    if is_floating_point type
    then if ltb a.fp_offset a.fp_count then next_fp t a else some (next_slot t type a)
    else if ltb a.gp_offset a.gp_count
    then next_gp t a
    else some (next_slot t type a)

-- The two loops of GetWasmCallDescriptor: the locations of a row of types, and the allocator after it.
unfoldable pub next_all :
    Target → List LocalType → Allocator → Option (List LinkageLocation × Allocator)
next_all t [] a = some ([], a)
next_all t (type ∷ types) a = do
  (loc, a₁) ← next t type a
  (locs, a₂) ← next_all t types a₁
  some (loc ∷ locs, a₂)

-- The arguments of the CallDescriptor that depend on the signature, and its target.
pub record CallDescriptor : Type 0 where
  pub target_type : MachineType
  pub target_loc : LinkageLocation
  pub machine_returns : List MachineType
  pub machine_params : List MachineType
  pub return_locations : List LinkageLocation
  pub param_locations : List LinkageLocation
  pub stack_parameter_count : ℕ
  pub callee_saved_registers : ℕ
  pub callee_saved_fp_registers : ℕ

-- The allocators `rets` and `params`.
unfoldable pub rets_allocator : Architecture → Allocator
rets_allocator arch =
    let gp = gp_return_registers arch in
    let fp = fp_return_registers arch in new_allocator gp (length gp) fp (length fp)

unfoldable pub params_allocator : Architecture → Allocator
params_allocator arch =
    let gp = gp_param_registers arch in
    let fp = fp_param_registers arch in new_allocator gp (length gp) fp (length fp)

unfoldable pub get_wasm_call_descriptor : Target → FunctionSig → Option CallDescriptor
get_wasm_call_descriptor t fsig = do
  (ret_locs, rets) ← next_all t fsig.returns (rets_allocator t.architecture)
  (param_locs, params) ← next_all t fsig.params (params_allocator t.architecture)
  some (record {
    target_type = mach_any_tagged;
    target_loc = for_any_register;
    machine_returns = map machine_type_for fsig.returns;
    machine_params = map machine_type_for fsig.params;
    return_locations = ret_locs;
    param_locations = param_locs;
    stack_parameter_count = params.stack_offset;
    callee_saved_registers = 0;
    callee_saved_fp_registers = 0;
  })
