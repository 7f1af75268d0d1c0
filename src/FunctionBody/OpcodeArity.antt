-- ===== src/FunctionBody/OpcodeArity.antt =====
-- OpcodeArity of wasm/ast-decoder.cc and the number of children that DecodeFunctionBody waits for.
use mathlib.Core.Option.{some-injective}
use v8_native_prototype.Base.{
  ℕ, suc, ◌≡◌, refl, ap, sym, ◌∙◌, subst, Bool, true, false, List, ◌∷◌, Option, none, some, inl,
  inr, arith, All, length, get_or, ◌==◌, ==_iff, Option-cases,
}
use v8_native_prototype.Opcodes.Types.{FunctionSig, ast_i32, ast_stmt, ast_end}
use v8_native_prototype.Opcodes.Table.{to_opcode, signature}
use v8_native_prototype.Opcodes.TableLaws.{signature_lem, row_signature}
use v8_native_prototype.Opcodes.Signatures.{WasmOpcodeSig, simple_sig, memory_sig, sig_of}
use v8_native_prototype.Opcodes.Enum.{
  WasmOpcode, nop, block, loop, if_op, if_else, select, br, br_if, table_switch, return,
  unreachable, i8_const, i32_const, i64_const, f32_const, f64_const, get_local, set_local,
  load_global, store_global, memory_size, grow_memory, call_function, call_indirect, i32_add,
}
use v8_native_prototype.Decoder.State.{
  ok, improperly_nested_branch, improperly_nested_conditional_branch,
}
use v8_native_prototype.Leb.ReadLaws.{IsByte, get_or-IsByte}
use v8_native_prototype.WasmModule.Types.{FunctionEnv}
use v8_native_prototype.FunctionBody.State.{BodyState}
use v8_native_prototype.FunctionBody.Stack.{MemoryUse, load, store, no_access, memory_use, shift}
use v8_native_prototype.FunctionBody.Decode.{
  decode_branch, decode_set_local, decode_store_global, decode_opcode, decode_other, decode_one,
}
use v8_native_prototype.FunctionBody.OpcodeInfo.{
  row_arity, arity_of, arity_of_other, opcode_arity, sig_arity,
}
use v8_native_prototype.FunctionBody.Keeps.{IsBody, frames}
use v8_native_prototype.FunctionBody.OpcodePushes.{
  waiting, AccessArity, Pushes, decode_block-Pushes, decode_loop-Pushes, decode_branch-Pushes,
  decode_table_switch-Pushes, decode_return-Pushes, decode_set_local-Pushes,
  decode_store_global-Pushes, decode_memory-Pushes, simple_shift,
}

abbrev access_agrees : MemoryUse → Option ℕ → Bool
access_agrees (load type) none = false
access_agrees (load type) (some k) = k == 1
access_agrees (store type) none = false
access_agrees (store type) (some k) = k == 2
access_agrees no_access o = true

row_access : (op : WasmOpcode) → access_agrees (memory_use op) (row_arity op) ≡ true
unfolding memory_use row_arity memory_sig simple_sig sig_of
row_access i32_add = refl
row_access op = refl

access_arity :
    (m : MemoryUse) (n : ℕ) (o : Option ℕ)
    → access_agrees m o ≡ true
    → o ≡ some (suc n)
    → AccessArity m n
access_arity (load type) n none h e = cc
access_arity (load type) n (some k) h e = sym ((==_iff _ _).0 h) ∙ some-injective k (suc n) e
access_arity (store type) n none h e = cc
access_arity (store type) n (some k) h e = sym ((==_iff _ _).0 h) ∙ some-injective k (suc n) e
access_arity no_access n o h e = _

-- OpcodeArity takes the index of a call to be one byte.
abbrev pub IsNoCall : WasmOpcode → Type 0
IsNoCall call_function = ⊥
IsNoCall call_indirect = ⊥
IsNoCall op = Unit

abbrev pub IsNoCallByte : Option WasmOpcode → Type 0
IsNoCallByte none = Unit
IsNoCallByte (some op) = IsNoCall op

-- The row of an opcode with a fixed signature gives the number of its parameters.
abbrev simple_agrees : Option WasmOpcodeSig → Option ℕ → Bool
simple_agrees none o = true
simple_agrees (some sig) none = false
simple_agrees (some sig) (some k) = k == sig_arity sig

module _ (env : FunctionEnv) where
  arity_of_simple :
      (op : WasmOpcode) (mem : List ℕ) (pc : ℕ)
      → simple_agrees (simple_sig op) (arity_of env op mem pc) ≡ true
  unfolding arity_of row_arity memory_sig simple_sig sig_of
  arity_of_simple i32_add mem pc = refl
  arity_of_simple op mem pc = refl

  simple_arity :
      (sig : WasmOpcodeSig) (o : Option ℕ)
      → simple_agrees (some sig) o ≡ true
      → o ≡ some (sig_arity sig)
  simple_arity sig none h = cc
  simple_arity sig (some k) h = ap some ((==_iff _ _).0 h)

  simple-arity :
      (op : WasmOpcode) (mem : List ℕ) (pc : ℕ) (f : FunctionSig)
      → some f ≡ row_signature (some op)
      → arity_of env op mem pc ≡ some (length f.params)
  simple-arity op mem pc f k = elim (Option-cases (simple_sig op)) [
    | inl e ↦ absurd (ground (arith, e, k))
    | inr (sig, e) ↦
        let g : f ≡ sig_of sig = some-injective f (sig_of sig) (rw e at k) in
        simple_arity sig (arity_of env op mem pc) (rw e at (arity_of_simple op mem pc)) ∙ rw g refl
  ]

module _ (env : FunctionEnv) where
  decode_opcode-Pushes :
      (op : WasmOpcode) (n : ℕ) (s : BodyState)
      → IsBody s
      → ok (decode_opcode env op s).1.d ≡ true
      → IsNoCall op
      → arity_of env op s.d.mem s.d.pc ≡ some (suc n)
      → Pushes env (suc n) s (decode_opcode env op s).1
  unfolding decode_opcode arity_of memory_use row_arity memory_sig simple_sig sig_of
  decode_opcode-Pushes call_function n s w h c e = absurd c
  decode_opcode-Pushes call_indirect n s w h c e = absurd c
  decode_opcode-Pushes i8_const n s w h c e = cc
  decode_opcode-Pushes i32_const n s w h c e = cc
  decode_opcode-Pushes i64_const n s w h c e = cc
  decode_opcode-Pushes f64_const n s w h c e = cc
  decode_opcode-Pushes f32_const n s w h c e = cc
  decode_opcode-Pushes get_local n s w h c e = cc
  decode_opcode-Pushes load_global n s w h c e = cc
  decode_opcode-Pushes nop n s w h c e = cc
  decode_opcode-Pushes unreachable n s w h c e = cc
  decode_opcode-Pushes memory_size n s w h c e = cc
  decode_opcode-Pushes grow_memory n s w h c e = simple_shift env ast_i32 1 n s e
  decode_opcode-Pushes block n s w h c e = decode_block-Pushes env n s w h (some-injective _ _ e)
  decode_opcode-Pushes loop n s w h c e = decode_loop-Pushes env n s w h (some-injective _ _ e)
  decode_opcode-Pushes if_op n s w h c e = simple_shift env ast_stmt 2 n s e
  decode_opcode-Pushes if_else n s w h c e = simple_shift env ast_end 3 n s e
  decode_opcode-Pushes select n s w h c e = simple_shift env ast_stmt 3 n s e
  decode_opcode-Pushes br n s w h c e =
      subst (λ (k : ℕ). Pushes env k s (decode_branch env ast_end 1 improperly_nested_branch s))
        (some-injective _ _ e) (decode_branch-Pushes env ast_end 0 improperly_nested_branch s w)
  decode_opcode-Pushes br_if n s w h c e =
      subst
        (λ (k : ℕ).
          Pushes env k s (decode_branch env ast_stmt 2 improperly_nested_conditional_branch s))
        (some-injective _ _ e)
        (decode_branch-Pushes env ast_stmt 1 improperly_nested_conditional_branch s w)
  decode_opcode-Pushes table_switch n s w h c e =
      decode_table_switch-Pushes env n s w h (some-injective _ _ e)
  decode_opcode-Pushes return n s w h c e = decode_return-Pushes env n s (some-injective _ _ e)
  decode_opcode-Pushes set_local n s w h c e =
      subst (λ (k : ℕ). Pushes env k s (decode_set_local env s).1) (some-injective _ _ e)
        (decode_set_local-Pushes env s w)
  decode_opcode-Pushes store_global n s w h c e =
      subst (λ (k : ℕ). Pushes env k s (decode_store_global env s).1) (some-injective _ _ e)
        (decode_store_global-Pushes env s w)
  decode_opcode-Pushes op n s w h c e =
      decode_memory-Pushes env (memory_use op) n s w h
        (access_arity (memory_use op) n (row_arity op) (row_access op) e)

  one-Pushes :
      (o : Option WasmOpcode) (f : Option FunctionSig) (n : ℕ) (s : BodyState)
      → IsBody s
      → IsNoCallByte o
      → f ≡ row_signature o
      → arity_of_other env o s.d.mem s.d.pc ≡ some (suc n)
      → let r = elim f as (λ x. Option ℕ × BodyState) [
        | none ↦ decode_other env o s
        | some sig ↦ (some 1, shift env (get_or sig.returns 0 ast_stmt) (length sig.params) s)
      ] in
        ok r.1.d ≡ true → Pushes env (suc n) s r.1
  unfolding decode_other arity_of_other
  one-Pushes none f n s w c k e h = cc
  one-Pushes (some op) none n s w c k e h = decode_opcode-Pushes op n s w h c e
  one-Pushes (some op) (some sig) n s w c k e h =
      simple_shift env (get_or sig.returns 0 ast_stmt) (length sig.params) n s
        (sym (simple-arity env op s.d.mem s.d.pc sig k) ∙ e)

-- Where decoding an opcode meets no error, and OpcodeArity gives the opcode n children, n at least 1,
-- DecodeFunctionBody pushes one production at pc that waits for n children, and leaves the others as they
-- are, up to their types; on a memory of bytes, for every opcode but the two calls.
pub decode_one-opcode_arity :
    (env : FunctionEnv) (n : ℕ) (s : BodyState)
    → IsBody s
    → All IsByte s.d.mem
    → IsNoCallByte (to_opcode (get_or s.d.mem s.d.pc 0))
    → opcode_arity env s.d.mem s.d.pc ≡ some (suc n)
    → ok (decode_one env s).1.d ≡ true
    → frames (decode_one env s).1.stack ≡ waiting (suc n) s.d.pc ∷ frames s.stack
unfolding decode_one opcode_arity
decode_one-opcode_arity env n s w b c e h =
    let byte = get_or s.d.mem s.d.pc 0 in
    one-Pushes env (to_opcode byte) (signature byte) n s w c
      (signature_lem byte (get_or-IsByte s.d.mem s.d.pc b)) e h
