-- ===== src/Linkage/Placement.antt =====
-- An independent description of the calling convention of wasm/wasm-linkage.cc: the place of a value from
-- the values in front of it alone, without an allocator.
use v8_native_prototype.Base.{
  ℕ, ◌+◌, ◌≤◌, ◌≢◌, ◌⊎◌, List, [], ◌∷◌, ◌++◌, none, some, length, get_elem?, drop, if◌then◌else◌,
}
use v8_native_prototype.Opcodes.Types.{LocalType}
use v8_native_prototype.Linkage.Registers.{
  Architecture, Register, DoubleRegister, gp_param_registers, gp_return_registers,
  fp_param_registers, fp_return_registers,
}
use v8_native_prototype.Linkage.Alloc.{
  Target, negsuc, LinkageLocation, for_caller_frame_slot, regloc, double_regloc, is_floating_point,
  words,
}

-- The registers that one row of values may use.
pub record Registers : Type 0 where
  pub gp : List Register
  pub fp : List DoubleRegister

unfoldable pub param_registers : Architecture → Registers
param_registers arch = record { gp = gp_param_registers arch; fp = fp_param_registers arch }

unfoldable pub return_registers : Architecture → Registers
return_registers arch = record { gp = gp_return_registers arch; fp = fp_return_registers arch }

-- The values that go to floating point registers, and the others.
unfoldable pub floats : List LocalType → List LocalType
floats [] = []
floats (type ∷ types) = if is_floating_point type then type ∷ floats types else floats types

unfoldable pub ints : List LocalType → List LocalType
ints [] = []
ints (type ∷ types) = if is_floating_point type then ints types else type ∷ ints types

unfoldable pub words_of : Target → List LocalType → ℕ
words_of t [] = 0
words_of t (type ∷ types) = words t type + words_of t types

-- The words of the stack that a row of values takes: each class of values has as many in registers as
-- there are, and the others on the stack.
unfoldable pub stack_words : Target → Registers → List LocalType → ℕ
stack_words t regs types =
    words_of t (drop (length regs.gp) (ints types))
    + words_of t (drop (length regs.fp) (floats types))

-- A register, or words of the stack: the first one, and how many.
pub data Place : Type 0 where
  in_gp : Register → Place
  in_fp : DoubleRegister → Place
  on_stack : ℕ → ℕ → Place

-- The place of a value, behind the values `earlier`.
unfoldable pub place : Target → Registers → List LocalType → LocalType → Place
place t regs earlier type =
    let slot = on_stack (stack_words t regs earlier) (words t type) in
    if is_floating_point type
    then (elim (get_elem? regs.fp (length (floats earlier))) [ none ↦ slot | some r ↦ in_fp r ])
    else (elim (get_elem? regs.gp (length (ints earlier))) [ none ↦ slot | some r ↦ in_gp r ])

unfoldable pub location : Target → Place → LinkageLocation
location t (in_gp r) = regloc t r
location t (in_fp r) = double_regloc t r
location t (on_stack first n) = for_caller_frame_slot (negsuc first)

-- The locations of a row of values behind others.
unfoldable pub locations :
    Target → Registers → List LocalType → List LocalType → List LinkageLocation
locations t regs earlier [] = []
locations t regs earlier (type ∷ types) =
    location t (place t regs earlier type) ∷ locations t regs (earlier ++ (type ∷ [])) types

-- Places that share no register and no word of the stack.
unfoldable pub Apart : Place → Place → Type 0
Apart (in_gp r) (in_gp s) = r ≢ s
Apart (in_fp r) (in_fp s) = r ≢ s
Apart (on_stack i m) (on_stack j n) = (i + m ≤ j) ⊎ (j + n ≤ i)
Apart _ _ = Unit

-- Places that lie within the first n words, where they are on the stack.
unfoldable pub Within : ℕ → Place → Type 0
Within n (on_stack i m) = i + m ≤ n
Within n _ = Unit
