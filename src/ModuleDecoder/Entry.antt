-- ===== src/ModuleDecoder/Entry.antt =====
-- The entry points of wasm/module-decoder.cc: DecodeWasmModule, DecodeWasmFunction and
-- DecodeWasmSignatureForTesting, with the ModuleDecoder methods behind them.
use v8_native_prototype.Base.{
  ℕ, ◌+◌, ◌-◌, ◌*◌, Bool, List, Option, none, some, ltb, leb, if◌then◌else◌,
}
use v8_native_prototype.Decoder.State.{
  Message, Decoder, Result, ok, error, new_decoder, new_result, copy_from, generic_error,
  module_decoder, end_less_than_start, start_after_end, size_too_large,
}
use v8_native_prototype.Opcodes.Types.{FunctionSig}
use v8_native_prototype.WasmModule.Types.{WasmFunction, WasmModule, ModuleEnv}
use v8_native_prototype.ModuleDecoder.Items.{sig, new_function, read_local_counts}
use v8_native_prototype.ModuleDecoder.Sections.{Verifier}
use v8_native_prototype.ModuleDecoder.Module.{decode_module, verify_function_body}

-- ModuleDecoder(zone, start, end, asm_js); a limit below start is an error at once.
unfoldable pub new_module_decoder : List ℕ → ℕ → ℕ → Decoder
unfolding new_decoder
new_module_decoder mem start end =
    let d = new_decoder module_decoder mem start end in
    if ltb end start then record (error start none end_less_than_start d) { limit = start } else d

abbrev pub max_module_size : ℕ
max_module_size = 1024 * 1024 * 1024

abbrev pub max_function_size : ℕ
max_function_size = 128 * 1024

-- ModuleError(msg) and FunctionError(msg).
unfoldable pub error_result {ℓ} : {A : Type ℓ} → Message → Result A
unfolding new_result
error_result msg = record new_result { error_code = generic_error; error_msg = some msg }

-- DecodeFunctionSignature(start); `none` is a null pointer.
unfoldable pub decode_function_signature : ℕ → Decoder → Option FunctionSig × Decoder
decode_function_signature start d =
    let (s, d₁) = sig (record d { pc = start }) in (if ok d₁ then some s else none, d₁)

-- DecodeWasmSignatureForTesting.
unfoldable pub decode_wasm_signature_for_testing : List ℕ → ℕ → ℕ → Option FunctionSig
decode_wasm_signature_for_testing mem start end =
    (decode_function_signature start (new_module_decoder mem start end)).0

-- What DecodeSingleFunction reads in front of the code: the signature and the four counts. The code
-- is taken to begin behind the counts and to end at the limit.
unfoldable pub read_function_header : Decoder → WasmFunction × Decoder
unfolding new_function
read_function_header d =
    let (s, d₁) = sig (record d { pc = d.start }) in
    let f : WasmFunction = record new_function {
      sig = some s;
      code_start_offset = d₁.pc + 8 - d₁.start;
      code_end_offset = d₁.limit - d₁.start;
    } in
    read_local_counts f d₁

module _ (verify : Verifier) where
  -- DecodeSingleFunction: the error code and location are those of the member result_.
  unfoldable pub decode_single_function : ModuleEnv → Decoder → Result WasmFunction
  unfolding new_result copy_from
  decode_single_function menv d =
      let (f, d₁) = read_function_header d in
      let initial : Result (Unit {0}) = record new_result { start = some d.start } in
      let result_ = if ok d₁ then verify_function_body verify 0 menv f d₁ initial else initial in
      record (copy_from result_ new_result) { val = some f }

  -- DecodeWasmModule.
  unfoldable pub decode_wasm_module : Bool → Bool → List ℕ → ℕ → ℕ → Result WasmModule
  decode_wasm_module verify_functions asm_js mem start end =
      if ltb end start
      then error_result start_after_end
      else if leb max_module_size (end - start)
      then error_result size_too_large
      else (decode_module verify asm_js verify_functions (new_module_decoder mem start end)).0

  -- DecodeWasmFunction.
  unfoldable pub decode_wasm_function : ModuleEnv → List ℕ → ℕ → ℕ → Result WasmFunction
  decode_wasm_function menv mem start end =
      if ltb end start
      then error_result start_after_end
      else if ltb max_function_size (end - start)
      then error_result size_too_large
      else decode_single_function menv (new_module_decoder mem start end)
