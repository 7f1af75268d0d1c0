-- ===== src/RoundTrip/FunctionParts.antt =====
-- The parts of a function's entry: what wasm/module-decoder.cc reads from the bytes that
-- wasm/encoder.cc writes for them.
use v8_native_prototype.Base.{
  ℕ, ◌+◌, ◌%◌, ◌^◌, ◌<◌, ◌≡◌, refl, subst, arith, Bool, true, false, bit_or, List, ◌++◌, some,
  length, length-append, get_elem?, if◌then◌else◌,
}
use v8_native_prototype.Opcodes.Types.{FunctionSig}
use v8_native_prototype.Decoder.Reads.{u16}
use v8_native_prototype.WasmModule.Types.{WasmFunction}
use v8_native_prototype.ModuleDecoder.Items.{
  decl_function_name, decl_function_import, decl_function_locals, decl_function_export, has_bit,
  read_local_counts, read_body,
}
use v8_native_prototype.Encoder.Emit.{u16_bytes}
use v8_native_prototype.Encoder.Function.{WasmFunctionEncoder}
use v8_native_prototype.Encoder.Serialize.{has_locals, function_header_size}
use v8_native_prototype.Encoder.Layout.{counts_bytes}
use v8_native_prototype.RoundTrip.Parse.{At-first, Parses, Parses-then, u16-Parses}

-- What Serialize needs to write a function that can be read back.
pub record FunctionFits (sigs : List FunctionSig) (e : WasmFunctionEncoder) : Type 0 where
  pub signature : FunctionSig
  pub sig_in_table : get_elem? sigs e.signature_index ≡ some signature
  pub index_small : e.signature_index < 2 ^ 16
  pub int32_small : e.local_int32_count < 2 ^ 16
  pub int64_small : e.local_int64_count < 2 ^ 16
  pub float32_small : e.local_float32_count < 2 ^ 16
  pub float64_small : e.local_float64_count < 2 ^ 16
  pub body_small : length e.body < 2 ^ 16
  pub external_has_no_locals : e.external ≡ true → has_locals e ≡ false

-- The function that is read, where its bytes begin at p.
unfoldable pub decoded_function : List FunctionSig → WasmFunctionEncoder → ℕ → WasmFunction
decoded_function sigs e p =
    let code = p + function_header_size e in
    record {
      sig = get_elem? sigs e.signature_index;
      sig_index = e.signature_index;
      name_offset = 0;
      code_start_offset = if e.external then 0 else code;
      code_end_offset = if e.external then 0 else code + length e.body;
      local_int32_count = e.local_int32_count;
      local_int64_count = e.local_int64_count;
      local_float32_count = e.local_float32_count;
      local_float64_count = e.local_float64_count;
      exported = e.exported;
      external = e.external;
    }

pub decl_bits_read :
    (a b c : Bool)
    → let bits =
        bit_or (bit_or (if a then 8 else 0) (if b then 2 else 0)) (if c then 4 else 0) % 256 in
      (has_bit bits decl_function_name ≡ false)
      × (has_bit bits decl_function_import ≡ b)
      × (has_bit bits decl_function_locals ≡ c)
      × (has_bit bits decl_function_export ≡ a)
unfolding has_bit
decl_bits_read false false false = (refl, refl, refl, refl)
decl_bits_read false false true = (refl, refl, refl, refl)
decl_bits_read false true false = (refl, refl, refl, refl)
decl_bits_read false true true = (refl, refl, refl, refl)
decl_bits_read true false false = (refl, refl, refl, refl)
decl_bits_read true false true = (refl, refl, refl, refl)
decl_bits_read true true false = (refl, refl, refl, refl)
decl_bits_read true true true = (refl, refl, refl, refl)

pub below : (x : ℕ) → x < 2 ^ 16 → x % 2 ^ 16 ≡ x
below x h = omega arith

abbrev pub with_counts : WasmFunction → ℕ → ℕ → ℕ → ℕ → WasmFunction
with_counts f a b c d = record f {
  local_int32_count = a;
  local_int64_count = b;
  local_float32_count = c;
  local_float64_count = d;
}

pub read_local_counts-Parses :
    (size : ℕ) (f : WasmFunction) (sigs : List FunctionSig) (e : WasmFunctionEncoder)
    → FunctionFits sigs e
    → Parses size (read_local_counts f) (counts_bytes e) (λ _.
      with_counts f e.local_int32_count e.local_int64_count e.local_float32_count
        e.local_float64_count)
unfolding read_local_counts counts_bytes
read_local_counts-Parses size f sigs e fits =
    subst (λ g. Parses size (read_local_counts f) (counts_bytes e) (λ _. g))
      (rw
        (
          below e.local_int32_count fits.int32_small,
          below e.local_int64_count fits.int64_small,
          below e.local_float32_count fits.float32_small,
          below e.local_float64_count fits.float64_small,
        )
        refl)
      (Parses-then size _ (λ _. u16) (λ (x : (ℕ × ℕ) × ℕ) y. with_counts f x.0.0 x.0.1 x.1 y) _ _ _
        (λ _ _. e.local_float64_count % 2 ^ 16)
        (Parses-then size _ (λ _. u16) (λ (x : ℕ × ℕ) (y : ℕ). (x, y)) _ _ _
          (λ _ _. e.local_float32_count % 2 ^ 16)
          (Parses-then size u16 (λ _. u16) (λ (x y : ℕ). (x, y)) _ _
            (λ _. e.local_int32_count % 2 ^ 16) (λ _ _. e.local_int64_count % 2 ^ 16)
            (u16-Parses size e.local_int32_count) (λ _. u16-Parses size e.local_int64_count))
          (λ _. u16-Parses size e.local_float32_count))
        (λ _. u16-Parses size e.local_float64_count))

twice : (x : ℕ) → x < 2 ^ 16 → x % 2 ^ 16 % 2 ^ 16 ≡ x
twice x h = omega arith

pub read_body-Parses :
    (size : ℕ) (f : WasmFunction) (body : List ℕ)
    → length body < 2 ^ 16
    → Parses size
        (read_body f)
        (u16_bytes (length body % 2 ^ 16) ++ body)
        (λ p. record f { code_start_offset = p + 2; code_end_offset = p + 2 + length body })
unfolding read_body u16_bytes
read_body-Parses size f body small = record {
  run = λ d rest v.
      let bytes = u16_bytes (length body % 2 ^ 16) in
      let first =
        (u16-Parses size (length body % 2 ^ 16)).run d (body ++ rest)
          (At-first size d bytes body rest v) in
      rw (first, twice (length body) small)
        (ground (arith, v.start, v.limit, v.fits, v.no_error, length-append bytes body));
}
