-- ===== src/RoundTrip/Functions.antt =====
-- One function: what WasmFunctionEncoder::Serialize (wasm/encoder.cc) writes, DecodeFunctionInModule
-- (wasm/module-decoder.cc) reads.
use v8_native_prototype.Base.{
  ℕ, ◌+◌, ◌%◌, ◌^◌, ◌<◌, ◌≡◌, refl, sym, ap, ◌∙◌, arith, Bool, true, false, Bool-cases, inl, inr,
  List, [], ◌++◌, append_assoc, some, length, get_elem?, if◌then◌else◌,
}
use v8_native_prototype.Opcodes.Types.{FunctionSig}
use v8_native_prototype.WasmModule.Types.{WasmFunction, WasmModule}
use v8_native_prototype.ModuleDecoder.Items.{
  decl_function_name, decl_function_import, decl_function_locals, decl_function_export, has_bit,
  new_function, read_local_counts, read_body, read_locals_and_body, read_name, with_signature,
  decode_function_in_module,
}
use v8_native_prototype.Encoder.Emit.{u8_bytes, u16_bytes}
use v8_native_prototype.Encoder.Function.{WasmFunctionEncoder}
use v8_native_prototype.Encoder.Serialize.{has_locals, function_header_size, function_decl_bits}
use v8_native_prototype.Encoder.Layout.{counts_bytes, function_bytes}
use v8_native_prototype.RoundTrip.Parse.{
  At-first, At-second, move, move-move, move-append, Parses, Parses-then, Parses-cast, u8-Parses,
  u16-Parses,
}
use v8_native_prototype.RoundTrip.FunctionParts.{
  FunctionFits, decoded_function, decl_bits_read, below, with_counts, read_local_counts-Parses,
  read_body-Parses,
}

-- The function as it is known in front of its locals.
abbrev signed_function : ℕ → FunctionSig → Bool → WasmFunction
unfolding new_function
signed_function index s exported = record new_function {
  sig_index = index;
  sig = some s;
  exported = exported;
}

-- What follows the signature, by the kind of function: imported, without locals, with locals.
imported-Parses :
    (size bits : ℕ) (f : WasmFunction)
    → has_bit bits decl_function_import ≡ true
    → Parses size (read_locals_and_body bits f) [] (λ _. record f { external = true })
unfolding read_locals_and_body
imported-Parses size bits f h = record {
  run =
      λ d rest v. rw h (ap (λ n. (record f { external = true }, record d { pc = n })) (stay d.pc));
}
  where
    stay : (n : ℕ) → n ≡ n + 0
    stay n = omega arith

without_locals-Parses :
    (size bits : ℕ) (f : WasmFunction) (body : List ℕ)
    → has_bit bits decl_function_import ≡ false
    → has_bit bits decl_function_locals ≡ false
    → length body < 2 ^ 16
    → Parses size
        (read_locals_and_body bits f)
        (u16_bytes (length body % 2 ^ 16) ++ body)
        (λ p. record f { code_start_offset = p + 2; code_end_offset = p + 2 + length body })
unfolding read_locals_and_body
without_locals-Parses size bits f body h k small = record {
  run = λ d rest v. rw (h, k) ((read_body-Parses size f body small).run d rest v);
}

with_locals-Parses :
    (size bits : ℕ) (f : WasmFunction) (sigs : List FunctionSig) (e : WasmFunctionEncoder)
    → has_bit bits decl_function_import ≡ false
    → has_bit bits decl_function_locals ≡ true
    → FunctionFits sigs e
    → let g =
        with_counts f e.local_int32_count e.local_int64_count e.local_float32_count
          e.local_float64_count in
      Parses size
        (read_locals_and_body bits f)
        (counts_bytes e ++ (u16_bytes (length e.body % 2 ^ 16) ++ e.body))
        (λ p. record g {
          code_start_offset = p + length (counts_bytes e) + 2;
          code_end_offset = p + length (counts_bytes e) + 2 + length e.body;
        })
unfolding read_locals_and_body
with_locals-Parses size bits f sigs e h k fits =
    let g =
      with_counts f e.local_int32_count e.local_int64_count e.local_float32_count
        e.local_float64_count in
    let both =
      Parses-then size (read_local_counts f) (λ f₁. read_body f₁) (λ _ f₂. f₂) (counts_bytes e)
        (u16_bytes (length e.body % 2 ^ 16) ++ e.body) (λ _. g)
        (λ f₁ p. record f₁ { code_start_offset = p + 2; code_end_offset = p + 2 + length e.body })
        (read_local_counts-Parses size f sigs e fits)
        (λ _. read_body-Parses size g e.body fits.body_small) in
    record { run = λ d rest v. rw (h, k) (both.run d rest v) }

-- The declaration and the index of the signature, and what follows.
head-Parses :
    (size bits index : ℕ) (m : WasmModule) (s : FunctionSig) (exported : Bool) (tail : List ℕ)
    (val : ℕ → WasmFunction)
    → index < 2 ^ 16
    → get_elem? m.signatures index ≡ some s
    → has_bit (bits % 256) decl_function_name ≡ false
    → has_bit (bits % 256) decl_function_export ≡ exported
    → Parses size (read_locals_and_body (bits % 256) (signed_function index s exported)) tail val
    → Parses size
        (decode_function_in_module m)
        ((u8_bytes bits ++ u16_bytes index) ++ tail)
        (λ p. val (p + 3))
unfolding decode_function_in_module with_signature read_name new_function signed_function u8_bytes
    u16_bytes
head-Parses size bits index m s exported tail val small at no_name same rest_parses = record {
  run = λ d rest v.
      let head = u8_bytes bits ++ u16_bytes index in
      let w = At-first size d head tail rest v in
      let first =
        (u8-Parses size bits).run d (u16_bytes index ++ (tail ++ rest))
          (At-first size d (u8_bytes bits) (u16_bytes index) (tail ++ rest) w) in
      let second =
        (u16-Parses size index).run (move 1 d) (tail ++ rest)
          (At-second size d (u8_bytes bits) (u16_bytes index) (tail ++ rest) w) in
      let third = rest_parses.run (move (length head) d) rest (At-second size d head tail rest v) in
      let go = read_locals_and_body (bits % 256) (signed_function index s exported) in
      let moved =
        ap go (move-move 1 2 d) ∙ third ∙ ap (λ e. (val (d.pc + 3), e)) (move-append head tail d) in
      rw (first, second, below index small, at, no_name, same) moved;
}

no_counts :
    (e : WasmFunctionEncoder)
    → has_locals e ≡ false
    → (0 ≡ e.local_int32_count)
      × (0 ≡ e.local_int64_count)
      × (0 ≡ e.local_float32_count)
      × (0 ≡ e.local_float64_count)
unfolding has_locals
no_counts e h = ground (arith, h)

-- Every function that fits is read back.
pub decode_function_in_module-Parses :
    (size : ℕ) (m : WasmModule) (e : WasmFunctionEncoder)
    → FunctionFits m.signatures e
    → Parses size (decode_function_in_module m) (function_bytes e) (decoded_function m.signatures e)
unfolding function_bytes decoded_function function_decl_bits function_header_size counts_bytes
    u16_bytes new_function signed_function has_locals
decode_function_in_module-Parses size m e fits =
    let s = fits.signature in
    let bits = function_decl_bits e in
    let (no_name, import, locals, export) = decl_bits_read e.exported e.external (has_locals e) in
    let f = signed_function e.signature_index s e.exported in
    let head = u8_bytes bits ++ u16_bytes e.signature_index in
    let tail =
      (if has_locals e then counts_bytes e else [])
      ++ (if e.external then [] else u16_bytes (length e.body % 2 ^ 16) ++ e.body) in
    let put : (val : ℕ → WasmFunction)
        → ((p : ℕ) → val (p + 3) ≡ decoded_function m.signatures e p)
        → Parses size (read_locals_and_body (bits % 256) f) tail val
        → Parses size (decode_function_in_module m) (function_bytes e)
            (decoded_function m.signatures e) =
      λ val same body. Parses-cast size _ (sym (append_assoc head _ _)) same (
        head-Parses size bits e.signature_index m s e.exported tail val fits.index_small
          fits.sig_in_table no_name export body) in
    elim (Bool-cases e.external) [
      | inl ext ↦
          let (a, b, c, d) = no_counts e (fits.external_has_no_locals ext) in
          put _ (λ p. rw (ext, fits.sig_in_table, sym a, sym b, sym c, sym d) refl)
            (Parses-cast size _ (rw (ext, fits.external_has_no_locals ext) refl) (λ _. refl)
              (imported-Parses size _ f (import ∙ ext)))
      | inr ext ↦ elim (Bool-cases (has_locals e)) [
        | inl some_locals ↦
            put _ (λ p. rw (ext, some_locals, fits.sig_in_table) (ground arith))
              (Parses-cast size _ (rw (ext, some_locals) refl) (λ _. refl)
                (with_locals-Parses size _ f m.signatures e (import ∙ ext) (locals ∙ some_locals)
                  fits))
        | inr no_locals ↦
            let (a, b, c, d) = no_counts e no_locals in
            put _
              (λ p.
                rw (ext, no_locals, fits.sig_in_table, sym a, sym b, sym c, sym d) (ground arith))
              (Parses-cast size _ (rw (ext, no_locals) refl) (λ _. refl)
                (without_locals-Parses size _ f e.body (import ∙ ext) (locals ∙ no_locals)
                  fits.body_small))
      ]
    ]
