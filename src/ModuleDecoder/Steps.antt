-- ===== src/ModuleDecoder/Steps.antt =====
-- The readers of class ModuleDecoder of wasm/module-decoder.cc stay within the bytes of the module,
-- and the first error stays.
use v8_native_prototype.Base.{
  ℕ, zero, suc, ◌-◌, Option, none, some, inl, inr, Bool-cases, arith, get_elem?,
}
use v8_native_prototype.Opcodes.Types.{FunctionSig}
use v8_native_prototype.Decoder.State.{
  Decoder, invalid_local_type, invalid_memory_type, expected_function_body,
}
use v8_native_prototype.Decoder.Reads.{u8, u16, u32}
use v8_native_prototype.Decoder.Steps.{
  IsReading, Steps, Steps-refl, and_then, error-Steps, error_if-Steps, u8-Steps, u16-Steps,
  u32-Steps,
}
use v8_native_prototype.WasmModule.Types.{WasmFunction, WasmModule}
use v8_native_prototype.ModuleDecoder.Items.{
  offset, string, local_type, mem_type, param_type, sig_params, sig, decode_global_in_module,
  decode_data_segment_in_module, has_bit, decl_function_name, decl_function_import,
  decl_function_locals, read_local_counts, read_body, read_locals_and_body, read_name,
  with_signature, decode_function_in_module,
}

pub offset-Steps : (d : Decoder) → IsReading d → Steps d (offset d).1
unfolding offset
offset-Steps d v = and_then v (u32-Steps d v) (error_if-Steps _ _ _ _ (u32 d).1)

pub string-Steps : (d : Decoder) → IsReading d → Steps d (string d).1
unfolding string
string-Steps d v = offset-Steps d v

pub local_type-Steps : (d : Decoder) → IsReading d → Steps d (local_type d).1
unfolding local_type
local_type-Steps d v = and_then v (u8-Steps d v) λ w.
    ground (
      arith,
      Steps-refl (u8 d).1 w,
      error-Steps ((u8 d).1.pc - 1) none invalid_local_type (u8 d).1 w,
    )

pub mem_type-Steps : (d : Decoder) → IsReading d → Steps d (mem_type d).1
unfolding mem_type
mem_type-Steps d v = and_then v (u8-Steps d v) λ w. ground (
  arith,
  Steps-refl (u8 d).1 w,
  error-Steps ((u8 d).1.pc - 1) none invalid_memory_type (u8 d).1 w,
)

pub param_type-Steps : (d : Decoder) → IsReading d → Steps d (param_type d).1
unfolding param_type
param_type-Steps d v = and_then v (local_type-Steps d v) (error_if-Steps _ _ _ _ (local_type d).1)

pub sig_params-Steps : (n : ℕ) (d : Decoder) → IsReading d → Steps d (sig_params n d).1
unfolding sig_params
sig_params-Steps zero d v = Steps-refl d v
sig_params-Steps (suc n) d v = and_then v (param_type-Steps d v) (sig_params-Steps n _)

pub sig-Steps : (d : Decoder) → IsReading d → Steps d (sig d).1
unfolding sig
sig-Steps d v =
    and_then v (u8-Steps d v) λ v₁. and_then v₁ (local_type-Steps _ v₁) (sig_params-Steps _ _)

pub decode_global_in_module-Steps :
    (d : Decoder) → IsReading d → Steps d (decode_global_in_module d).1
unfolding decode_global_in_module
decode_global_in_module-Steps d v =
    and_then v (string-Steps d v) λ v₁. and_then v₁ (mem_type-Steps _ v₁) (u8-Steps _)

pub decode_data_segment_in_module-Steps :
    (d : Decoder) → IsReading d → Steps d (decode_data_segment_in_module d).1
unfolding decode_data_segment_in_module
decode_data_segment_in_module-Steps d v =
    and_then v (u32-Steps d v)
      λ v₁. and_then v₁ (offset-Steps _ v₁) λ v₂. and_then v₂ (u32-Steps _ v₂) (u8-Steps _)

pub read_local_counts-Steps :
    (f : WasmFunction) (d : Decoder) → IsReading d → Steps d (read_local_counts f d).1
unfolding read_local_counts
read_local_counts-Steps f d v =
    and_then v (u16-Steps d v)
      λ v₁. and_then v₁ (u16-Steps _ v₁) λ v₂. and_then v₂ (u16-Steps _ v₂) (u16-Steps _)

pub read_body-Steps : (f : WasmFunction) (d : Decoder) → IsReading d → Steps d (read_body f d).1
unfolding read_body
read_body-Steps f d v = and_then v (u16-Steps d v) λ w. ground (
  arith,
  Steps-refl (u16 d).1 w,
  error-Steps (u16 d).1.pc (some (u16 d).1.limit) (expected_function_body (u16 d).0) (u16 d).1 w,
)

pub read_locals_and_body-Steps :
    (bits : ℕ) (f : WasmFunction) (d : Decoder)
    → IsReading d
    → Steps d (read_locals_and_body bits f d).1
unfolding read_locals_and_body
read_locals_and_body-Steps bits f d v = elim (Bool-cases (has_bit bits decl_function_import)) [
  | inl e ↦ rw e (Steps-refl d v)
  | inr e ↦ rw e (elim (Bool-cases (has_bit bits decl_function_locals)) [
    | inl k ↦ rw k (and_then v (read_local_counts-Steps f d v) (read_body-Steps _ _))
    | inr k ↦ rw k (read_body-Steps f d v)
  ])
]

pub read_name-Steps :
    (bits : ℕ) (f : WasmFunction) (d : Decoder) → IsReading d → Steps d (read_name bits f d).1
unfolding read_name
read_name-Steps bits f d v = elim (Bool-cases (has_bit bits decl_function_name)) [
  | inl e ↦ rw e (string-Steps d v)
  | inr e ↦ rw e (Steps-refl d v)
]

with_signature-Steps :
    (pos bits index : ℕ) (o : Option FunctionSig) (d : Decoder)
    → IsReading d
    → Steps d (with_signature pos bits index o d).1
unfolding with_signature
with_signature-Steps pos bits index none d v = error-Steps _ _ _ _ v
with_signature-Steps pos bits index (some s) d v =
    and_then v (read_name-Steps _ _ _ v) (read_locals_and_body-Steps _ _ _)

pub decode_function_in_module-Steps :
    (m : WasmModule) (d : Decoder) → IsReading d → Steps d (decode_function_in_module m d).1
unfolding decode_function_in_module
decode_function_in_module-Steps m d v =
    and_then v (u8-Steps d v)
      λ v₁. and_then v₁ (u16-Steps _ v₁) (with_signature-Steps _ _ _ (get_elem? m.signatures _) _)
