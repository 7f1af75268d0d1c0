-- ===== src/RoundTrip/Items.antt =====
-- The entry for a signature: what wasm/encoder.cc writes, wasm/module-decoder.cc reads.
use v8_native_prototype.Base.{
  ℕ, ◌+◌, ◌%◌, ◌^◌, ◌<◌, ◌≤◌, ◌≡◌, refl, sym, ap, subst, arith, false, List, [], ◌∷◌, some, length,
  if◌then◌else◌, All,
}
use v8_native_prototype.Opcodes.Types.{
  FunctionSig, LocalType, mach_none, mach_int8, mach_uint8, mach_int16, mach_uint16, mach_int32,
  mach_uint32, mach_int64, mach_uint64, mach_float32, mach_float64, type_any, mach_any_tagged,
  ast_stmt, local_void, local_code, local_type_code_for,
}
use v8_native_prototype.Decoder.Reads.{u8}
use v8_native_prototype.ModuleDecoder.WellFormed.{IsValueType, SigIsValid}
use v8_native_prototype.ModuleDecoder.Items.{
  local_type_of, local_type, is_stmt, param_type, sig_params, sig,
}
use v8_native_prototype.Encoder.Emit.{u8_bytes}
use v8_native_prototype.Encoder.Writer.{return_code}
use v8_native_prototype.Encoder.Layout.{each_bytes, signature_bytes}
use v8_native_prototype.RoundTrip.Parse.{Parses, Parses-then, u8-Parses}
use v8_native_prototype.RoundTrip.EntryItems.{local_type_of_code, local_type-Parses}

value_is_no_stmt : (t : LocalType) → IsValueType t → is_stmt t ≡ false
value_is_no_stmt mach_none h = cc
value_is_no_stmt mach_int8 h = cc
value_is_no_stmt mach_uint8 h = cc
value_is_no_stmt mach_int16 h = cc
value_is_no_stmt mach_uint16 h = cc
value_is_no_stmt mach_int32 h = refl
value_is_no_stmt mach_uint32 h = cc
value_is_no_stmt mach_int64 h = refl
value_is_no_stmt mach_uint64 h = cc
value_is_no_stmt mach_float32 h = refl
value_is_no_stmt mach_float64 h = refl
value_is_no_stmt type_any h = cc
value_is_no_stmt mach_any_tagged h = cc

abbrev type_bytes : LocalType → List ℕ
type_bytes t = u8_bytes (local_code (local_type_code_for t))

param_type-Parses :
    (size : ℕ) (t : LocalType) → IsValueType t → Parses size param_type (type_bytes t) (λ _. t)
unfolding param_type
param_type-Parses size t h = record {
  run = λ d rest v. ground (
    arith,
    (local_type-Parses size _ t (local_type_of_code t h)).run d rest v,
    value_is_no_stmt t h,
  );
}

sig_params-Parses :
    (size : ℕ) (ts : List LocalType)
    → All IsValueType ts
    → Parses size (sig_params (length ts)) (each_bytes type_bytes ts) (λ _. ts)
unfolding sig_params each_bytes
sig_params-Parses size [] h = record {
  run = λ d rest v. ap (λ n. ([], record d { pc = n })) (stay d.pc);
}
  where
    stay : (n : ℕ) → n ≡ n + 0
    stay n = omega arith
sig_params-Parses size (t ∷ ts) h =
    Parses-then size param_type (λ _. sig_params (length ts)) (λ u us. u ∷ us) (type_bytes t)
      (each_bytes type_bytes ts) (λ _. t) (λ _ _. ts) (param_type-Parses size t h.0)
      (λ _. sig_params-Parses size ts h.1)

void_read : local_type_of (local_code local_void % 256) ≡ some ast_stmt
unfolding local_type_of local_code
void_read = refl

-- The result of a signature, whose byte says void where there is none.
return_type-Parses :
    (size : ℕ) (rs : List LocalType)
    → length rs ≤ 1
    → All IsValueType rs
    → (t : LocalType) × Parses size local_type (u8_bytes (local_code (return_code rs))) (λ _. t)
      × ((if is_stmt t then [] else t ∷ []) ≡ rs)
unfolding return_code
return_type-Parses size [] one h = (ast_stmt, local_type-Parses size _ ast_stmt void_read, refl)
return_type-Parses size (t ∷ []) one h = (
  t,
  local_type-Parses size _ t (local_type_of_code t h.0),
  ap (λ b. if b then [] else t ∷ []) (value_is_no_stmt t h.0),
)
return_type-Parses size (t ∷ u ∷ rs) one h = absurd (omega arith)

pub sig-Parses :
    (size : ℕ) (s : FunctionSig)
    → SigIsValid s
    → length s.params < 2 ^ 8
    → Parses size sig (signature_bytes s) (λ _. s)
unfolding sig signature_bytes
sig-Parses size s valid small =
    let (t, ret, same) = return_type-Parses size s.returns valid.one_return valid.returns_valid in
    subst
      (λ rs. Parses size sig (signature_bytes s) (λ _. record { returns = rs; params = s.params }))
      same
      (Parses-then size _ (λ (x : ℕ × LocalType). sig_params x.0)
        (λ (x : ℕ × LocalType) ts. record {
          returns = if is_stmt x.1 then [] else x.1 ∷ [];
          params = ts;
        })
        _ (each_bytes type_bytes s.params) (λ _. (length s.params % 2 ^ 8 % 256, t))
        (λ _ _. s.params)
        (Parses-then size u8 (λ _. local_type) (λ x y. (x, y)) _ _
          (λ _. length s.params % 2 ^ 8 % 256) (λ _ _. t) (u8-Parses size (length s.params % 2 ^ 8))
          (λ _. ret))
        (λ _.
          subst (λ n. Parses size (sig_params n) (each_bytes type_bytes s.params) (λ _. s.params))
            (sym (below (length s.params) small))
            (sig_params-Parses size s.params valid.params_valid)))
  where
    below : (n : ℕ) → n < 2 ^ 8 → n % 2 ^ 8 % 256 ≡ n
    below n h = omega arith
