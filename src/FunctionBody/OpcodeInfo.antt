-- ===== src/FunctionBody/OpcodeInfo.antt =====
-- OpcodeLength and OpcodeArity of wasm/ast-decoder.cc.
use mathlib.Core.Option
use v8_native_prototype.Base.{ℕ, ◌+◌, ◌*◌, List, Option, none, some, length, get_or}
use v8_native_prototype.Opcodes.Types.{FunctionSig}
use v8_native_prototype.Opcodes.Enum.{
  WasmOpcode, nop, block, loop, if_op, if_else, select, br, br_if, table_switch, return,
  unreachable, i8_const, i32_const, i64_const, f32_const, f64_const, get_local, set_local,
  load_global, store_global, call_function, call_indirect,
}
use v8_native_prototype.Opcodes.Signatures.{WasmOpcodeSig, sig_of, simple_sig, memory_sig}
use v8_native_prototype.Opcodes.Table.{to_opcode}
use v8_native_prototype.Leb.Read.{read_unsigned_leb128_operand}
use v8_native_prototype.WasmModule.Types.{FunctionEnv, get_function_signature, get_signature}
use v8_native_prototype.FunctionBody.Operands.{half_word}
use v8_native_prototype.FunctionBody.Stack.{MemoryUse, load, store, no_access, memory_use}

-- The length of an opcode with a LEB128 number behind it.
unfoldable pub immediate_length : List ℕ → ℕ → ℕ
immediate_length mem pc = let r = read_unsigned_leb128_operand mem (pc + 1) (pc + 6) in 1 + r.len

abbrev pub access_length : MemoryUse → ℕ
access_length (load type) = 2
access_length (store type) = 2
access_length no_access = 1

-- The switch of OpcodeLength.
unfoldable pub length_of : WasmOpcode → List ℕ → ℕ → ℕ
length_of i8_const mem pc = 2
length_of block mem pc = 2
length_of loop mem pc = 2
length_of br mem pc = 2
length_of br_if mem pc = 2
length_of i32_const mem pc = 5
length_of f32_const mem pc = 5
length_of i64_const mem pc = 9
length_of f64_const mem pc = 9
length_of store_global mem pc = immediate_length mem pc
length_of set_local mem pc = immediate_length mem pc
length_of load_global mem pc = immediate_length mem pc
length_of call_function mem pc = immediate_length mem pc
length_of call_indirect mem pc = immediate_length mem pc
length_of get_local mem pc = immediate_length mem pc
length_of table_switch mem pc = 5 + half_word mem (pc + 3) * 2
length_of op mem pc = access_length (memory_use op)

unfoldable pub length_of_other : Option WasmOpcode → List ℕ → ℕ → ℕ
length_of_other none mem pc = 1
length_of_other (some op) mem pc = length_of op mem pc

-- OpcodeLength(pc).
unfoldable pub opcode_length : List ℕ → ℕ → ℕ
opcode_length mem pc = length_of_other (to_opcode (get_or mem pc 0)) mem pc

-- kArity of a signature.
abbrev pub sig_arity : WasmOpcodeSig → ℕ
sig_arity s = let f = sig_of s in length f.params

-- The cases that the macros make, by the row of the opcode.
unfoldable pub row_arity : WasmOpcode → Option ℕ
row_arity op = elim (memory_sig op) [
  | none ↦ Option.map sig_arity (simple_sig op)
  | some s ↦ some (sig_arity s)
]

-- The switch of OpcodeArity. The index of a call is taken to be one byte; a null signature is not met.
unfoldable pub arity_of : FunctionEnv → WasmOpcode → List ℕ → ℕ → Option ℕ
arity_of env i8_const mem pc = some 0
arity_of env i32_const mem pc = some 0
arity_of env i64_const mem pc = some 0
arity_of env f64_const mem pc = some 0
arity_of env f32_const mem pc = some 0
arity_of env get_local mem pc = some 0
arity_of env load_global mem pc = some 0
arity_of env nop mem pc = some 0
arity_of env unreachable mem pc = some 0
arity_of env br mem pc = some 1
arity_of env store_global mem pc = some 1
arity_of env set_local mem pc = some 1
arity_of env if_op mem pc = some 2
arity_of env br_if mem pc = some 2
arity_of env if_else mem pc = some 3
arity_of env select mem pc = some 3
arity_of env block mem pc = some (get_or mem (pc + 1) 0)
arity_of env loop mem pc = some (get_or mem (pc + 1) 0)
arity_of env call_function mem pc =
    Option.map (λ (f : FunctionSig). length f.params)
      (get_function_signature env.module_env (get_or mem (pc + 1) 0))
arity_of env call_indirect mem pc =
    Option.map (λ (f : FunctionSig). 1 + length f.params)
      (get_signature env.module_env (get_or mem (pc + 1) 0))
arity_of env return mem pc = some (length env.sig.returns)
arity_of env table_switch mem pc = some (1 + half_word mem (pc + 1))
arity_of env op mem pc = row_arity op

-- A byte that is no opcode runs off the end of the function, which is undefined.
unfoldable pub arity_of_other : FunctionEnv → Option WasmOpcode → List ℕ → ℕ → Option ℕ
arity_of_other env none mem pc = none
arity_of_other env (some op) mem pc = arity_of env op mem pc

-- OpcodeArity(env, pc).
unfoldable pub opcode_arity : FunctionEnv → List ℕ → ℕ → Option ℕ
opcode_arity env mem pc = arity_of_other env (to_opcode (get_or mem pc 0)) mem pc
