-- ===== src/FunctionBody/OpcodeLength.antt =====
-- OpcodeLength of wasm/ast-decoder.cc and the length by which DecodeFunctionBody moves on.
use v8_native_prototype.Base.{
  ℕ, ◌+◌, ◌*◌, ◌≡◌, refl, ap, sym, Bool, true, false, List, Option, none, some, inl, inr, arith,
  All, length, get_or, ◌==◌, ==_iff, Option-cases,
}
use v8_native_prototype.Opcodes.Types.{FunctionSig, ast_i32, ast_stmt}
use v8_native_prototype.Opcodes.Table.{to_opcode, signature}
use v8_native_prototype.Decoder.State.{ok, error}
use v8_native_prototype.Leb.ReadLaws.{IsByte, get_or-IsByte}
use v8_native_prototype.FunctionBody.State.{BodyState}
use v8_native_prototype.WasmModule.Types.{FunctionEnv}
use v8_native_prototype.FunctionBody.Operands.{
  has_offset, half_word, memory_access_operand, fail, local_operand, global_operand,
  function_sig_operand, sig_operand,
}
use v8_native_prototype.Opcodes.Enum.{
  WasmOpcode, nop, block, loop, if_op, if_else, select, br, br_if, table_switch, return,
  unreachable, i8_const, i32_const, i64_const, f32_const, f64_const, get_local, set_local,
  load_global, store_global, memory_size, grow_memory, call_function, call_indirect, i32_add,
}
use v8_native_prototype.Opcodes.Signatures.{simple_sig}
use v8_native_prototype.Opcodes.TableLaws.{signature_lem, row_signature}
use v8_native_prototype.FunctionBody.Stack.{
  MemoryUse, load, store, no_access, memory_use, leaf, shift,
}
use v8_native_prototype.FunctionBody.Decode.{
  some_length, decode_get_local, decode_set_local, decode_load_global, decode_store_global,
  decode_call_function, decode_call_indirect, call_type, decode_table_switch, decode_memory,
  decode_opcode, decode_other, decode_one,
}
use v8_native_prototype.FunctionBody.Keeps.{
  IsBody, memory_access_operand-Keeps, Keeps-IsBody, local_operand-Keeps, global_operand-Keeps,
  function_sig_operand-Keeps, sig_operand-Keeps,
}
use v8_native_prototype.FunctionBody.StackLaws.{leaf-Checks, shift-Checks}
use v8_native_prototype.FunctionBody.OpcodeInfo.{
  access_length, immediate_length, length_of, length_of_other, opcode_length,
}
use v8_native_prototype.FunctionBody.OperandLength.{
  local_operand-length, global_operand-length, function_sig_operand-length, sig_operand-length,
  memory_operand-length,
}

-- A memory access whose byte of flags does not have the bit for an offset.
abbrev pub IsPlain : MemoryUse → List ℕ → ℕ → Type 0
IsPlain (load type) mem pc = has_offset (get_or mem (pc + 1) 0) ≡ false
IsPlain (store type) mem pc = has_offset (get_or mem (pc + 1) 0) ≡ false
IsPlain no_access mem pc = Unit

abbrev pub IsPlainOpcode : Option WasmOpcode → List ℕ → ℕ → Type 0
IsPlainOpcode none mem pc = Unit
IsPlainOpcode (some op) mem pc = IsPlain (memory_use op) mem pc

-- An opcode with a fixed signature is one byte.
abbrev is_short : {A : Type 0} → Option A → ℕ → Bool
is_short none len = true
is_short (some a) len = len == 1

length_of_simple :
    (op : WasmOpcode) (mem : List ℕ) (pc : ℕ)
    → is_short (simple_sig op) (length_of op mem pc) ≡ true
unfolding length_of memory_use simple_sig
length_of_simple i32_add mem pc = refl
length_of_simple op mem pc = refl

simple-length :
    (op : WasmOpcode) (mem : List ℕ) (pc : ℕ) (f : FunctionSig)
    → some f ≡ row_signature (some op)
    → length_of op mem pc ≡ 1
simple-length op mem pc f k = elim (Option-cases (simple_sig op)) [
  | inl e ↦ absurd (ground (arith, e, k))
  | inr (sig, e) ↦ (==_iff _ _).0 (rw e at (length_of_simple op mem pc))
]

module _ (env : FunctionEnv) where
  -- What the decoder is to give for an opcode: the length of OpcodeLength.
  abbrev HasLength : ℕ → Option ℕ × BodyState → Type 0
  HasLength len r = ok r.1.d ≡ true → r.0 ≡ some len

  get_local-length :
      (s : BodyState)
      → IsBody s
      → All IsByte s.d.mem
      → HasLength (immediate_length s.d.mem s.d.pc) (some_length (decode_get_local env s))
  unfolding decode_get_local
  get_local-length s w bytes h =
      let (type, len, s₁) = local_operand env s.d.pc s in
      let k = local_operand-Keeps env s.d.pc s w in
      let c = leaf-Checks env type s₁ (Keeps-IsBody k w) in
      ap some (local_operand-length env s.d.pc s bytes (c.ok_before h))

  set_local-length :
      (s : BodyState)
      → IsBody s
      → All IsByte s.d.mem
      → HasLength (immediate_length s.d.mem s.d.pc) (some_length (decode_set_local env s))
  unfolding decode_set_local
  set_local-length s w bytes h =
      let (type, len, s₁) = local_operand env s.d.pc s in
      let k = local_operand-Keeps env s.d.pc s w in
      let c = shift-Checks env type 1 s₁ (Keeps-IsBody k w) in
      ap some (local_operand-length env s.d.pc s bytes (c.ok_before h))

  load_global-length :
      (s : BodyState)
      → IsBody s
      → All IsByte s.d.mem
      → HasLength (immediate_length s.d.mem s.d.pc) (some_length (decode_load_global env s))
  unfolding decode_load_global
  load_global-length s w bytes h =
      let (type, len, s₁) = global_operand env s.d.pc s in
      let k = global_operand-Keeps env s.d.pc s w in
      let c = leaf-Checks env type s₁ (Keeps-IsBody k w) in
      ap some (global_operand-length env s.d.pc s bytes (c.ok_before h))

  store_global-length :
      (s : BodyState)
      → IsBody s
      → All IsByte s.d.mem
      → HasLength (immediate_length s.d.mem s.d.pc) (some_length (decode_store_global env s))
  unfolding decode_store_global
  store_global-length s w bytes h =
      let (type, len, s₁) = global_operand env s.d.pc s in
      let k = global_operand-Keeps env s.d.pc s w in
      let c = shift-Checks env type 1 s₁ (Keeps-IsBody k w) in
      ap some (global_operand-length env s.d.pc s bytes (c.ok_before h))

  call_ok :
      (count : FunctionSig → ℕ) (o : Option FunctionSig) (s : BodyState)
      → IsBody s
      → ok
          (elim o as (λ x. BodyState) [
            | none ↦ leaf env ast_i32 s
            | some f ↦ shift env (call_type f) (count f) s
          ]).d
        ≡ true
      → ok s.d ≡ true
  call_ok count none s w h = let c = leaf-Checks env ast_i32 s w in c.ok_before h
  call_ok count (some f) s w h =
      let c = shift-Checks env (call_type f) (count f) s w in c.ok_before h

  call_function-length :
      (s : BodyState)
      → IsBody s
      → All IsByte s.d.mem
      → HasLength (immediate_length s.d.mem s.d.pc) (some_length (decode_call_function env s))
  unfolding decode_call_function
  call_function-length s w bytes h =
      let (o, len, s₁) = function_sig_operand env s.d.pc s in
      let v = Keeps-IsBody (function_sig_operand-Keeps env s.d.pc s w) w in
      ap some (
        function_sig_operand-length env s.d.pc s bytes
          (call_ok (λ (f : FunctionSig). length f.params) o s₁ v h))

  call_indirect-length :
      (s : BodyState)
      → IsBody s
      → All IsByte s.d.mem
      → HasLength (immediate_length s.d.mem s.d.pc) (some_length (decode_call_indirect env s))
  unfolding decode_call_indirect
  call_indirect-length s w bytes h =
      let (o, len, s₁) = sig_operand env s.d.pc s in
      let v = Keeps-IsBody (sig_operand-Keeps env s.d.pc s w) w in
      ap some (
        sig_operand-length env s.d.pc s bytes
          (call_ok (λ (f : FunctionSig). 1 + length f.params) o s₁ v h))

  table_switch-length :
      (s : BodyState)
      → HasLength (5 + half_word s.d.mem (s.d.pc + 3) * 2) (some_length (decode_table_switch env s))
  unfolding decode_table_switch fail error
  table_switch-length s h = ground (arith, h)

  memory-length :
      (m : MemoryUse) (s : BodyState)
      → IsBody s
      → IsPlain m s.d.mem s.d.pc
      → HasLength (access_length m) (decode_memory env m s)
  unfolding decode_memory fail error
  memory-length (load type) s w e h =
      let (len, s₁) = memory_access_operand s.d.pc s in
      let k = memory_access_operand-Keeps s.d.pc s w in
      let c = shift-Checks env type 1 s₁ (Keeps-IsBody k w) in
      ap some (memory_operand-length s.d.pc s w e (c.ok_before h))
  memory-length (store type) s w e h =
      let (len, s₁) = memory_access_operand s.d.pc s in
      let k = memory_access_operand-Keeps s.d.pc s w in
      let c = shift-Checks env type 2 s₁ (Keeps-IsBody k w) in
      ap some (memory_operand-length s.d.pc s w e (c.ok_before h))
  memory-length no_access s w e h = absurd (ground (arith, h))

  decode_opcode-length :
      (op : WasmOpcode) (s : BodyState)
      → IsBody s
      → All IsByte s.d.mem
      → IsPlain (memory_use op) s.d.mem s.d.pc
      → HasLength (length_of op s.d.mem s.d.pc) (decode_opcode env op s)
  unfolding decode_opcode length_of memory_use
  decode_opcode-length get_local s w b e h = get_local-length s w b h
  decode_opcode-length set_local s w b e h = set_local-length s w b h
  decode_opcode-length load_global s w b e h = load_global-length s w b h
  decode_opcode-length store_global s w b e h = store_global-length s w b h
  decode_opcode-length call_function s w b e h = call_function-length s w b h
  decode_opcode-length call_indirect s w b e h = call_indirect-length s w b h
  decode_opcode-length table_switch s w b e h = table_switch-length s h
  decode_opcode-length nop s w b e h = refl
  decode_opcode-length block s w b e h = refl
  decode_opcode-length loop s w b e h = refl
  decode_opcode-length if_op s w b e h = refl
  decode_opcode-length if_else s w b e h = refl
  decode_opcode-length select s w b e h = refl
  decode_opcode-length br s w b e h = refl
  decode_opcode-length br_if s w b e h = refl
  decode_opcode-length return s w b e h = refl
  decode_opcode-length unreachable s w b e h = refl
  decode_opcode-length i8_const s w b e h = refl
  decode_opcode-length i32_const s w b e h = refl
  decode_opcode-length i64_const s w b e h = refl
  decode_opcode-length f32_const s w b e h = refl
  decode_opcode-length f64_const s w b e h = refl
  decode_opcode-length memory_size s w b e h = refl
  decode_opcode-length grow_memory s w b e h = refl
  decode_opcode-length op s w b e h = memory-length (memory_use op) s w e h

  -- The decoder goes on by the length that OpcodeLength gives, where it meets no error.
  one-length :
      (o : Option WasmOpcode) (f : Option FunctionSig) (s : BodyState)
      → IsBody s
      → All IsByte s.d.mem
      → IsPlainOpcode o s.d.mem s.d.pc
      → f ≡ row_signature o
      → HasLength (length_of_other o s.d.mem s.d.pc) (elim f as (λ x. Option ℕ × BodyState) [
        | none ↦ decode_other env o s
        | some sig ↦ (some 1, shift env (get_or sig.returns 0 ast_stmt) (length sig.params) s)
      ])
  unfolding decode_other length_of_other fail error
  one-length none none s w b e k h = absurd (ground (arith, h))
  one-length none (some sig) s w b e k h = cc
  one-length (some op) none s w b e k h = decode_opcode-length op s w b e h
  one-length (some op) (some sig) s w b e k h =
      ap some (sym (simple-length op s.d.mem s.d.pc sig k))

-- Where decoding an opcode meets no error, DecodeFunctionBody moves on by the length that OpcodeLength
-- gives, on a memory of bytes, if the opcode is not a memory access with an offset, which OpcodeLength
-- leaves out.
pub decode_one-opcode_length :
    (env : FunctionEnv) (s : BodyState)
    → IsBody s
    → All IsByte s.d.mem
    → IsPlainOpcode (to_opcode (get_or s.d.mem s.d.pc 0)) s.d.mem s.d.pc
    → ok (decode_one env s).1.d ≡ true
    → (decode_one env s).0 ≡ some (opcode_length s.d.mem s.d.pc)
unfolding decode_one opcode_length
decode_one-opcode_length env s w b e h =
    let byte = get_or s.d.mem s.d.pc 0 in
    one-length env (to_opcode byte) (signature byte) s w b e
      (signature_lem byte (get_or-IsByte s.d.mem s.d.pc b)) h
