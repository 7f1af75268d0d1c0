-- ===== src/FunctionBody/OpcodeRows.antt =====
-- What DecodeFunctionBody of wasm/ast-decoder.cc pushes for an opcode, against the opcode's row in
-- wasm/wasm-opcodes.h.
use mathlib.Core.Option
use mathlib.Core.Option.{some-injective}
use v8_native_prototype.Base.{
  ℕ, zero, suc, ◌<◌, ◌≡◌, refl, ap, sym, subst, ◌∙◌, true, [], ◌∷◌, Option, none, some, arith, All,
  length, get_or,
}
use v8_native_prototype.Opcodes.Types.{FunctionSig, ast_stmt, ast_i32}
use v8_native_prototype.Opcodes.Enum.{
  WasmOpcode, memory_size, grow_memory, nop, block, loop, if_op, if_else, select, br, br_if,
  table_switch, return, unreachable, i8_const, i32_const, i64_const, f32_const, f64_const,
  get_local, set_local, load_global, store_global, call_function, call_indirect, i32_load_mem8_s,
  i32_load_mem8_u, i32_load_mem16_s, i32_load_mem16_u, i32_load_mem, i64_load_mem8_s,
  i64_load_mem8_u, i64_load_mem16_s, i64_load_mem16_u, i64_load_mem32_s, i64_load_mem32_u,
  i64_load_mem, f32_load_mem, f64_load_mem, i32_store_mem8, i32_store_mem16, i32_store_mem,
  i64_store_mem8, i64_store_mem16, i64_store_mem32, i64_store_mem, f32_store_mem, f64_store_mem,
}
use v8_native_prototype.Opcodes.Signatures.{WasmOpcodeSig, simple_sig, memory_sig, sig_of}
use v8_native_prototype.Opcodes.Table.{to_opcode, signature}
use v8_native_prototype.Opcodes.TableLaws.{signature_lem, row_signature}
use v8_native_prototype.Decoder.State.{ok, error}
use v8_native_prototype.Leb.ReadLaws.{IsByte, get_or-IsByte}
use v8_native_prototype.WasmModule.Types.{FunctionEnv}
use v8_native_prototype.FunctionBody.State.{BodyState, Production, nil}
use v8_native_prototype.FunctionBody.Operands.{
  fail, memory_access_operand, unsigned_leb128_operand, leb_error, operand_u8, check_operand,
}
use v8_native_prototype.FunctionBody.Stack.{MemoryUse, load, store, no_access, memory_use, shift}
use v8_native_prototype.FunctionBody.Decode.{decode_memory, decode_opcode, decode_other, decode_one}
use v8_native_prototype.FunctionBody.Keeps.{IsBody, memory_access_operand-Keeps}

abbrev pub first_row : Option WasmOpcodeSig → Option FunctionSig → Option FunctionSig
first_row none o = o
first_row (some sig) o = some (sig_of sig)

same_row :
    (x : Option WasmOpcodeSig) (o : Option FunctionSig) (g f : FunctionSig)
    → some g ≡ Option.map sig_of x
    → first_row x o ≡ some f
    → g ≡ f
same_row none o g f k e = cc
same_row (some sig) o g f k e = some-injective g f (k ∙ e)

-- The signature of an opcode with a row: a fixed one, or that of an access to memory.
abbrev pub opcode_row : WasmOpcode → Option FunctionSig
opcode_row op = first_row (simple_sig op) (Option.map sig_of (memory_sig op))

-- The production of a signature at pc, with no children yet.
abbrev pub begun : FunctionSig → ℕ → Production
begun f pc = record {
  type = get_or f.returns 0 ast_stmt;
  count = length f.params;
  pc = pc;
  children = nil;
}

-- What the row of a load or a store must say.
abbrev MemoryRow : MemoryUse → Option FunctionSig → Type 0
MemoryRow (load type) o = o ≡ some (record { returns = type ∷ []; params = ast_i32 ∷ [] })
MemoryRow (store type) o = o ≡ some (record { returns = type ∷ []; params = ast_i32 ∷ type ∷ [] })
MemoryRow no_access o = Unit {0}

memory_use-MemoryRow : (op : WasmOpcode) → MemoryRow (memory_use op) (opcode_row op)
unfolding memory_use memory_sig sig_of simple_sig
memory_use-MemoryRow i32_load_mem8_s = refl
memory_use-MemoryRow i32_load_mem8_u = refl
memory_use-MemoryRow i32_load_mem16_s = refl
memory_use-MemoryRow i32_load_mem16_u = refl
memory_use-MemoryRow i32_load_mem = refl
memory_use-MemoryRow i64_load_mem8_s = refl
memory_use-MemoryRow i64_load_mem8_u = refl
memory_use-MemoryRow i64_load_mem16_s = refl
memory_use-MemoryRow i64_load_mem16_u = refl
memory_use-MemoryRow i64_load_mem32_s = refl
memory_use-MemoryRow i64_load_mem32_u = refl
memory_use-MemoryRow i64_load_mem = refl
memory_use-MemoryRow f32_load_mem = refl
memory_use-MemoryRow f64_load_mem = refl
memory_use-MemoryRow i32_store_mem8 = refl
memory_use-MemoryRow i32_store_mem16 = refl
memory_use-MemoryRow i32_store_mem = refl
memory_use-MemoryRow i64_store_mem8 = refl
memory_use-MemoryRow i64_store_mem16 = refl
memory_use-MemoryRow i64_store_mem32 = refl
memory_use-MemoryRow i64_store_mem = refl
memory_use-MemoryRow f32_store_mem = refl
memory_use-MemoryRow f64_store_mem = refl
memory_use-MemoryRow op = tt

memory_access_operand-stack :
    (pc : ℕ) (s : BodyState) → (memory_access_operand pc s).1.stack ≡ s.stack
unfolding memory_access_operand unsigned_leb128_operand leb_error operand_u8 check_operand fail
memory_access_operand-stack pc s = ground arith

module _ (env : FunctionEnv) where
  shift-begun :
      (f : FunctionSig) (s : BodyState)
      → 0 < length f.params
      → (shift env (get_or f.returns 0 ast_stmt) (length f.params) s).stack
        ≡ begun f s.d.pc ∷ s.stack
  unfolding shift
  shift-begun f s h = positive (length f.params) h
    where
      positive :
          (n : ℕ)
          → 0 < n
          → (shift env (get_or f.returns 0 ast_stmt) n s).stack
            ≡ record (begun f s.d.pc) { count = n } ∷ s.stack
      positive zero h = absurd (omega (arith, h))
      positive (suc n) h = refl

  decode_memory-begun :
      (m : MemoryUse) (o : Option FunctionSig) (f : FunctionSig) (s : BodyState)
      → IsBody s
      → MemoryRow m o
      → o ≡ some f
      → ok (decode_memory env m s).1.d ≡ true
      → (decode_memory env m s).1.stack ≡ begun f s.d.pc ∷ s.stack
  unfolding decode_memory fail error shift
  decode_memory-begun (load type) o f s w r e h =
      let k = memory_access_operand-Keeps s.d.pc s w in
      subst
        (λ (g : FunctionSig). (decode_memory env (load type) s).1.stack ≡ begun g s.d.pc ∷ s.stack)
        (some-injective _ f (sym r ∙ e)) (rw (k.same_pc, memory_access_operand-stack s.d.pc s) refl)
  decode_memory-begun (store type) o f s w r e h =
      let k = memory_access_operand-Keeps s.d.pc s w in
      subst
        (λ (g : FunctionSig). (decode_memory env (store type) s).1.stack ≡ begun g s.d.pc ∷ s.stack)
        (some-injective _ f (sym r ∙ e)) (rw (k.same_pc, memory_access_operand-stack s.d.pc s) refl)
  decode_memory-begun no_access o f s w r e h = absurd (ground (arith, h))

  decode_opcode-begun :
      (op : WasmOpcode) (f : FunctionSig) (s : BodyState)
      → IsBody s
      → opcode_row op ≡ some f
      → 0 < length f.params
      → ok (decode_opcode env op s).1.d ≡ true
      → (decode_opcode env op s).1.stack ≡ begun f s.d.pc ∷ s.stack
  unfolding decode_opcode memory_sig sig_of simple_sig
  decode_opcode-begun nop f s w e p h = cc
  decode_opcode-begun block f s w e p h = cc
  decode_opcode-begun loop f s w e p h = cc
  decode_opcode-begun if_op f s w e p h = cc
  decode_opcode-begun if_else f s w e p h = cc
  decode_opcode-begun select f s w e p h = cc
  decode_opcode-begun br f s w e p h = cc
  decode_opcode-begun br_if f s w e p h = cc
  decode_opcode-begun table_switch f s w e p h = cc
  decode_opcode-begun return f s w e p h = cc
  decode_opcode-begun unreachable f s w e p h = cc
  decode_opcode-begun i8_const f s w e p h = cc
  decode_opcode-begun i32_const f s w e p h = cc
  decode_opcode-begun i64_const f s w e p h = cc
  decode_opcode-begun f32_const f s w e p h = cc
  decode_opcode-begun f64_const f s w e p h = cc
  decode_opcode-begun get_local f s w e p h = cc
  decode_opcode-begun set_local f s w e p h = cc
  decode_opcode-begun load_global f s w e p h = cc
  decode_opcode-begun store_global f s w e p h = cc
  decode_opcode-begun call_function f s w e p h = cc
  decode_opcode-begun call_indirect f s w e p h = cc
  decode_opcode-begun memory_size f s w e p h = absurd (
      subst (λ (g : FunctionSig). 0 < length g.params → ⊥) (some-injective _ f e)
        (λ q. omega (arith, q)) p)
  decode_opcode-begun grow_memory f s w e p h =
      subst (λ (g : FunctionSig). (shift env ast_i32 1 s).stack ≡ begun g s.d.pc ∷ s.stack)
        (some-injective _ f e)
        (shift-begun (record { returns = ast_i32 ∷ []; params = ast_i32 ∷ [] }) s (omega arith))
  decode_opcode-begun op f s w e p h =
      decode_memory-begun (memory_use op) (opcode_row op) f s w (memory_use-MemoryRow op) e h

  one-begun :
      (x : Option WasmOpcode) (op : WasmOpcode) (o : Option FunctionSig) (f : FunctionSig)
      (s : BodyState)
      → IsBody s
      → x ≡ some op
      → o ≡ row_signature x
      → opcode_row op ≡ some f
      → 0 < length f.params
      → let r = elim o as (λ y. Option ℕ × BodyState) [
        | none ↦ decode_other env x s
        | some sig ↦ (some 1, shift env (get_or sig.returns 0 ast_stmt) (length sig.params) s)
      ] in
        ok r.1.d ≡ true → r.1.stack ≡ begun f s.d.pc ∷ s.stack
  unfolding decode_other
  one-begun none op o f s w i k e p h = cc
  one-begun (some x) op none f s w i k e p h =
      decode_opcode-begun x f s w (ap opcode_row (some-injective x op i) ∙ e) p h
  one-begun (some x) op (some g) f s w i k e p h =
      let same =
        same_row (simple_sig x) (Option.map sig_of (memory_sig x)) g f k
          (ap opcode_row (some-injective x op i) ∙ e) in
      subst
        (λ (f : FunctionSig).
          (shift env (get_or g.returns 0 ast_stmt) (length g.params) s).stack
          ≡ begun f s.d.pc ∷ s.stack)
        same (shift-begun g s (subst (λ (f : FunctionSig). 0 < length f.params) (sym same) p))

-- Where decoding an opcode meets no error, and the opcode's row in wasm-opcodes.h gives it a signature
-- with parameters, DecodeFunctionBody pushes exactly one production on the stack, whose type is the
-- result of that signature and which waits for as many children as it has parameters; on a memory
-- of bytes.
pub decode_one-begun :
    (env : FunctionEnv) (op : WasmOpcode) (f : FunctionSig) (s : BodyState)
    → IsBody s
    → All IsByte s.d.mem
    → to_opcode (get_or s.d.mem s.d.pc 0) ≡ some op
    → opcode_row op ≡ some f
    → 0 < length f.params
    → ok (decode_one env s).1.d ≡ true
    → (decode_one env s).1.stack ≡ begun f s.d.pc ∷ s.stack
unfolding decode_one decode_other
decode_one-begun env op f s w b o e p h =
    let byte = get_or s.d.mem s.d.pc 0 in
    let k = signature_lem byte (get_or-IsByte s.d.mem s.d.pc b) in
    one-begun env (to_opcode byte) op (signature byte) f s w o k e p h
