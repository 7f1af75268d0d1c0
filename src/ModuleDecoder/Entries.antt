-- ===== src/ModuleDecoder/Entries.antt =====
-- An entry that class ModuleDecoder of wasm/module-decoder.cc reads without an error is valid.
use v8_native_prototype.Base.{
  ℕ, zero, suc, ◌-◌, ◌≤◌, ◌≡◌, refl, inl, inr, Bool, true, false, List, Option, none, some,
  Bool-cases, arith, get_elem?, All,
}
use v8_native_prototype.Opcodes.Types.{FunctionSig}
use v8_native_prototype.Decoder.State.{Decoder, ok, error}
use v8_native_prototype.Decoder.Reads.{u8, u32}
use v8_native_prototype.Decoder.Steps.{
  IsReading, Steps-IsReading, ok_before, u8-Steps, u16-Steps, u32-Steps,
}
use v8_native_prototype.WasmModule.Types.{WasmFunction, WasmModule}
use v8_native_prototype.ModuleDecoder.Items.{
  offset, string, local_type_of, local_type, is_stmt, param_type, sig_params, sig,
  decode_global_in_module, decode_data_segment_in_module, has_bit, decl_function_import,
  decl_function_locals, new_function, read_local_counts, read_body, read_locals_and_body, read_name,
  with_signature, decode_function_in_module,
}
use v8_native_prototype.ModuleDecoder.Steps.{
  offset-Steps, local_type-Steps, mem_type-Steps, param_type-Steps, sig_params-Steps,
  read_local_counts-Steps, read_locals_and_body-Steps, read_name-Steps,
}
use v8_native_prototype.ModuleDecoder.WellFormed.{
  IsValueType, SigIsValid, FunctionIsValid, GlobalIsValid, SegmentIsValid,
}

-- The number of bytes between start and limit.
abbrev pub span : Decoder → ℕ
span d = d.limit - d.start

pub offset_valid : (d : Decoder) → IsReading d → ok (offset d).1 ≡ true → (offset d).0 ≤ span d
unfolding offset error
offset_valid d v h = ground (arith, u32-Steps d v)

local_type_valid :
    (d : Decoder)
    → ok (local_type d).1 ≡ true
    → is_stmt (local_type d).0 ≡ false
    → IsValueType (local_type d).0
unfolding local_type error local_type_of
local_type_valid d h k = ground arith

param_type_valid :
    (d : Decoder) → IsReading d → ok (param_type d).1 ≡ true → IsValueType (param_type d).0
unfolding param_type error
param_type_valid d v h = ground (arith, local_type_valid d, local_type-Steps d v)

sig_params_valid :
    (n : ℕ) (d : Decoder)
    → IsReading d
    → ok (sig_params n d).1 ≡ true
    → All IsValueType (sig_params n d).0
unfolding sig_params
sig_params_valid zero d v h = tt
sig_params_valid (suc n) d v h =
    let w = Steps-IsReading (param_type-Steps d v) v in
    (param_type_valid d v (ok_before (sig_params-Steps n _ w) h), sig_params_valid n _ w h)

pub sig_valid : (d : Decoder) → IsReading d → ok (sig d).1 ≡ true → SigIsValid (sig d).0
unfolding sig
sig_valid d v h =
    let w = Steps-IsReading (u8-Steps d v) v in
    let w' = Steps-IsReading (local_type-Steps _ w) w in
    let ret_ok = ok_before (sig_params-Steps (u8 d).0 _ w') h in
    let ret = (local_type (u8 d).1).0 in
    let ret_valid = local_type_valid (u8 d).1 ret_ok in
    record {
      one_return = ground arith;
      returns_valid = ground (arith, ret_valid);
      params_valid = sig_params_valid (u8 d).0 _ w' h;
    }

pub decode_global_in_module_valid :
    (d : Decoder)
    → IsReading d
    → ok (decode_global_in_module d).1 ≡ true
    → GlobalIsValid (span d) (decode_global_in_module d).0
unfolding decode_global_in_module string
decode_global_in_module_valid d v h =
    let w = Steps-IsReading (offset-Steps d v) v in
    let w' = Steps-IsReading (mem_type-Steps _ w) w in
    offset_valid d v (ok_before (mem_type-Steps _ w) (ok_before (u8-Steps _ w') h))

pub decode_data_segment_in_module_valid :
    (d : Decoder)
    → IsReading d
    → ok (decode_data_segment_in_module d).1 ≡ true
    → SegmentIsValid (span d) (decode_data_segment_in_module d).0
unfolding decode_data_segment_in_module
decode_data_segment_in_module_valid d v h =
    let s₁ = u32-Steps d v in
    let w₁ = Steps-IsReading s₁ v in
    let w₂ = Steps-IsReading (offset-Steps _ w₁) w₁ in
    let w₃ = Steps-IsReading (u32-Steps _ w₂) w₂ in
    let h₂ = ok_before (u32-Steps _ w₂) (ok_before (u8-Steps _ w₃) h) in
    omega (arith, offset_valid (u32 d).1 w₁ h₂, s₁.same_limit, s₁.same_start)

module _ (sigs : List FunctionSig) (size : ℕ) where
  read_name_valid :
      (bits : ℕ) (f : WasmFunction) (d : Decoder)
      → IsReading d
      → span d ≤ size
      → FunctionIsValid sigs size f
      → ok (read_name bits f d).1 ≡ true
      → FunctionIsValid sigs size (read_name bits f d).0
  unfolding read_name string
  read_name_valid bits f d v k w h = record {
    signature = w.signature;
    has_sig = ground (arith, w.has_sig);
    sig_in_table = ground (arith, w.sig_in_table);
    code_in_order = ground (arith, w.code_in_order);
    code_in_module = ground (arith, w.code_in_module);
    name_in_module = ground (arith, w.name_in_module, offset_valid d v);
  }

  read_local_counts_valid :
      (f : WasmFunction) (d : Decoder)
      → FunctionIsValid sigs size f
      → FunctionIsValid sigs size (read_local_counts f d).0
  unfolding read_local_counts
  read_local_counts_valid f d w = record {
    signature = w.signature;
    has_sig = w.has_sig;
    sig_in_table = w.sig_in_table;
    code_in_order = w.code_in_order;
    code_in_module = w.code_in_module;
    name_in_module = w.name_in_module;
  }

  read_body_valid :
      (f : WasmFunction) (d : Decoder)
      → IsReading d
      → span d ≤ size
      → FunctionIsValid sigs size f
      → ok (read_body f d).1 ≡ true
      → FunctionIsValid sigs size (read_body f d).0
  unfolding read_body error
  read_body_valid f d v k w h = record {
    signature = w.signature;
    has_sig = ground (arith, w.has_sig);
    sig_in_table = ground (arith, w.sig_in_table);
    code_in_order = ground (arith, w.code_in_order);
    code_in_module = ground (arith, w.code_in_module, u16-Steps d v);
    name_in_module = ground (arith, w.name_in_module);
  }

  read_locals_and_body_valid :
      (bits : ℕ) (f : WasmFunction) (d : Decoder)
      → IsReading d
      → span d ≤ size
      → FunctionIsValid sigs size f
      → ok (read_locals_and_body bits f d).1 ≡ true
      → FunctionIsValid sigs size (read_locals_and_body bits f d).0
  unfolding read_locals_and_body
  read_locals_and_body_valid bits f d v k w =
      elim (Bool-cases (has_bit bits decl_function_import)) [
        | inl e ↦ rw e (λ h. record {
          signature = w.signature;
          has_sig = w.has_sig;
          sig_in_table = w.sig_in_table;
          code_in_order = w.code_in_order;
          code_in_module = w.code_in_module;
          name_in_module = w.name_in_module;
        })
        | inr e ↦ rw e (elim (Bool-cases (has_bit bits decl_function_locals)) [
          | inl l ↦ rw l (
              let s = read_local_counts-Steps f d v in
              read_body_valid _ _ (Steps-IsReading s v) (omega (arith, s.same_limit, s.same_start))
                (read_local_counts_valid f d w))
          | inr l ↦ rw l (read_body_valid f d v k w)
        ])
      ]

  exported_valid :
      (f : WasmFunction) (b : Bool)
      → FunctionIsValid sigs size f
      → FunctionIsValid sigs size (record f { exported = b })
  exported_valid f b w = record {
    signature = w.signature;
    has_sig = w.has_sig;
    sig_in_table = w.sig_in_table;
    code_in_order = w.code_in_order;
    code_in_module = w.code_in_module;
    name_in_module = w.name_in_module;
  }

  with_signature_valid :
      (pos bits index : ℕ) (o : Option FunctionSig) (d : Decoder)
      → IsReading d
      → span d ≤ size
      → get_elem? sigs index ≡ o
      → ok (with_signature pos bits index o d).1 ≡ true
      → FunctionIsValid sigs size (with_signature pos bits index o d).0
  unfolding with_signature new_function
  with_signature_valid pos bits index none d v k e h = absurd (unfold error in ground arith)
  with_signature_valid pos bits index (some s) d v k e h =
      let f : WasmFunction = record new_function { sig_index = index; sig = some s } in
      let fresh : FunctionIsValid sigs size f = record {
        signature = s;
        has_sig = refl;
        sig_in_table = e;
        code_in_order = omega arith;
        code_in_module = omega arith;
        name_in_module = omega arith;
      } in
      let named = read_name-Steps bits f d v in
      let v₁ = Steps-IsReading named v in
      let named_ok = ok_before (read_locals_and_body-Steps bits _ _ v₁) h in
      read_locals_and_body_valid bits _ _ v₁ (omega (arith, named.same_limit, named.same_start))
        (exported_valid _ _ (read_name_valid bits f d v k fresh named_ok)) h

-- An entry of the function section that is read without an error: its index is in the signature
-- table, and its name and its code lie in the module.
pub decode_function_in_module_valid :
    (m : WasmModule) (d : Decoder)
    → IsReading d
    → ok (decode_function_in_module m d).1 ≡ true
    → FunctionIsValid m.signatures (span d) (decode_function_in_module m d).0
unfolding decode_function_in_module
decode_function_in_module_valid m d v h =
    let s₁ = u8-Steps d v in
    let v₁ = Steps-IsReading s₁ v in
    let s₂ = u16-Steps (u8 d).1 v₁ in
    with_signature_valid m.signatures (span d) _ _ _ _ _ (Steps-IsReading s₂ v₁)
      (omega (arith, s₁.same_limit, s₁.same_start, s₂.same_limit, s₂.same_start)) refl h
