-- ===== src/FunctionBody/Typing.antt =====
-- What the operands of each opcode must be, for the trees that LR_WasmDecoder of wasm/ast-decoder.cc
-- builds: a description by opcode and place, apart from the order in which the decoder checks.
use v8_native_prototype.Base.{
  ℕ, zero, suc, ◌+◌, ◌≡◌, ◌≢◌, ◌⊎◌, List, Option, none, some, get_or, ◌==◌, if◌then◌else◌,
}
use v8_native_prototype.Opcodes.Types.{
  FunctionSig, LocalType, ast_stmt, ast_i32, ast_i64, ast_f32, ast_f64, ast_end, local_type_for,
}
use v8_native_prototype.Opcodes.Enum.{
  WasmOpcode, nop, block, loop, unreachable, i8_const, i32_const, i64_const, f32_const, f64_const,
  get_local, load_global, memory_size, if_op, if_else, select, br_if, table_switch, return,
  set_local, store_global, grow_memory, call_function, call_indirect,
}
use v8_native_prototype.Opcodes.Table.{to_opcode, signature}
use v8_native_prototype.Leb.Read.{read_unsigned_leb128_operand}
use v8_native_prototype.WasmModule.Types.{
  FunctionEnv, get_local_type, get_global_type, get_function_signature, get_signature,
}
use v8_native_prototype.FunctionBody.State.{Tree, tree, Trees, nil, snoc, size, tree_type}
use v8_native_prototype.FunctionBody.Operands.{half_word, get_param, get_return}
use v8_native_prototype.FunctionBody.Stack.{MemoryUse, load, store, no_access, memory_use}

-- What a place wants of the type of its operand.
pub data Wants : Type 0 where
  anything a_value : Wants
  fitting exactly : LocalType → Wants

-- A type may stand where another is expected if it is that type, if it is the type of an expression
-- that does not come back, or if nothing is expected.
abbrev pub CanStand : LocalType → LocalType → Type 0
CanStand expected result = (result ≡ expected) ⊎ ((result ≡ ast_end) ⊎ (expected ≡ ast_stmt))

abbrev pub Allows : Wants → LocalType → Type 0
Allows anything result = Unit
Allows a_value result = result ≢ ast_stmt
Allows (fitting expected) result = CanStand expected result
Allows (exactly expected) result = result ≡ expected

-- A condition, an index or a key in front of operands of any type.
abbrev pub first_i32 : ℕ → Wants
first_i32 zero = fitting ast_i32
first_i32 (suc i) = anything

abbrev pub select_wants : ℕ → Wants
select_wants zero = fitting ast_i32
select_wants (suc zero) = a_value
select_wants (suc (suc i)) = anything

abbrev pub memory_wants : MemoryUse → ℕ → Wants
memory_wants (load type) i = fitting ast_i32
memory_wants (store type) zero = fitting ast_i32
memory_wants (store type) (suc i) = fitting type
memory_wants no_access i = anything

abbrev pub params_want : Option FunctionSig → ℕ → Wants
params_want none i = anything
params_want (some f) i = fitting (get_param f i)

-- An index into the function table in front of the parameters.
abbrev pub indirect_wants : Option FunctionSig → ℕ → Wants
indirect_wants f zero = fitting ast_i32
indirect_wants f (suc i) = params_want f i

-- The result of a call of a signature.
abbrev pub result_of : FunctionSig → LocalType
result_of sig = get_or sig.returns 0 ast_stmt

-- Without a signature a call is a tree of type i32 without children.
abbrev pub called : Option FunctionSig → LocalType
called none = ast_i32
called (some sig) = result_of sig

abbrev pub uncalled : Option FunctionSig → Option LocalType
uncalled none = some ast_i32
uncalled (some sig) = none

-- The third operand of a select stands where the select's own type is expected.
abbrev pub select_last : Option WasmOpcode → LocalType → ℕ → Wants
select_last (some select) type (suc (suc zero)) = fitting type
select_last op type i = anything

abbrev pub unless_fixed : Option FunctionSig → Wants → Wants
unless_fixed none wants = wants
unless_fixed (some sig) wants = anything

abbrev pub fixed_type : Option FunctionSig → Option LocalType → Option LocalType
fixed_type none other = other
fixed_type (some sig) other = some (result_of sig)

-- The bytes of the function, the bytes up to its end, and its environment.
module _ (env : FunctionEnv) (mem : List ℕ) (limit : ℕ) where
  -- The number behind the opcode at pc.
  abbrev pub immediate : ℕ → ℕ
  immediate pc = let r = read_unsigned_leb128_operand mem (pc + 1) limit in r.value

  -- Operand i of the opcode at pc. A switch with one entry takes any key.
  abbrev pub opcode_wants : WasmOpcode → ℕ → ℕ → Wants
  opcode_wants if_op pc i = first_i32 i
  opcode_wants if_else pc i = first_i32 i
  opcode_wants select pc i = select_wants i
  opcode_wants br_if pc i = first_i32 i
  opcode_wants table_switch pc i = if half_word mem (pc + 3) == 1 then anything else first_i32 i
  opcode_wants return pc i = fitting (get_return env.sig i)
  opcode_wants set_local pc i = exactly (get_local_type env (immediate pc))
  opcode_wants store_global pc i =
      exactly (local_type_for (get_global_type env.module_env (immediate pc)))
  opcode_wants grow_memory pc i = fitting ast_i32
  opcode_wants call_function pc i =
      params_want (get_function_signature env.module_env (immediate pc)) i
  opcode_wants call_indirect pc i = indirect_wants (get_signature env.module_env (immediate pc)) i
  opcode_wants op pc i = memory_wants (memory_use op) i

  abbrev pub other_wants : Option WasmOpcode → ℕ → ℕ → Wants
  other_wants none pc i = anything
  other_wants (some op) pc i = opcode_wants op pc i

  abbrev pub fixed_wants : Option FunctionSig → Wants → ℕ → Wants
  fixed_wants none other i = other
  fixed_wants (some sig) other i = fitting (get_param sig i)

  abbrev pub operand_wants : ℕ → ℕ → Wants
  operand_wants pc i =
      let opcode = get_or mem pc 0 in
      fixed_wants (signature opcode) (other_wants (to_opcode opcode) pc i) i

  -- The type of a tree without children of an opcode at pc; only these opcodes have such trees.
  abbrev pub opcode_type : WasmOpcode → ℕ → Option LocalType
  opcode_type nop pc = some ast_stmt
  opcode_type block pc = some ast_stmt
  opcode_type loop pc = some ast_stmt
  opcode_type return pc = some ast_end
  opcode_type unreachable pc = some ast_end
  opcode_type i8_const pc = some ast_i32
  opcode_type i32_const pc = some ast_i32
  opcode_type i64_const pc = some ast_i64
  opcode_type f32_const pc = some ast_f32
  opcode_type f64_const pc = some ast_f64
  opcode_type get_local pc = some (get_local_type env (immediate pc))
  opcode_type load_global pc = some (local_type_for (get_global_type env.module_env (immediate pc)))
  opcode_type memory_size pc = some ast_i32
  opcode_type call_function pc =
      some (called (get_function_signature env.module_env (immediate pc)))
  opcode_type call_indirect pc = uncalled (get_signature env.module_env (immediate pc))
  opcode_type op pc = none

  abbrev pub other_type : Option WasmOpcode → ℕ → Option LocalType
  other_type none pc = none
  other_type (some op) pc = opcode_type op pc

  abbrev pub childless_type : ℕ → Option LocalType
  childless_type pc =
      let opcode = get_or mem pc 0 in
      fixed_type (signature opcode) (other_type (to_opcode opcode) pc)

  -- What the last operand of the opcode at pc must be, for the type of the tree itself.
  abbrev pub last_wants : LocalType → ℕ → ℕ → Wants
  last_wants type pc i =
      let opcode = get_or mem pc 0 in
      unless_fixed (signature opcode) (select_last (to_opcode opcode) type i)

  -- A tree without children has the type of its opcode; for others the last child fits the type.
  abbrev pub HasType : LocalType → ℕ → Trees → Type 0
  HasType type pc nil = childless_type pc ≡ some type
  HasType type pc (snoc ts t) = Allows (last_wants type pc (size ts)) (tree_type t)

  -- A tree has all its children; each is typed, and of a type that its place allows; and its own type
  -- is as above.
  mutual
    pub data IsTyped : Tree → Type 0 where
      typed :
          (type : LocalType) (pc : ℕ) (ts : Trees)
          → Fits pc ts
          → HasType type pc ts
          → IsTyped (tree type (size ts) pc ts)

    pub data Fits : ℕ → Trees → Type 0 where
      fits_nil : (pc : ℕ) → Fits pc nil
      fits_snoc :
          (pc : ℕ) (ts : Trees) (t : Tree)
          → Fits pc ts
          → IsTyped t
          → Allows (operand_wants pc (size ts)) (tree_type t)
          → Fits pc (snoc ts t)
