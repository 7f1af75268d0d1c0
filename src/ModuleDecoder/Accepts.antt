-- ===== src/ModuleDecoder/Accepts.antt =====
-- What DecodeWasmModule and DecodeWasmFunction of wasm/module-decoder.cc promise for any input.
use v8_native_prototype.Base.{ℕ, ◌+◌, ◌-◌, ◌≤◌, ◌≡◌, Bool, true, not, ◌||◌, List, none, some, arith}
use v8_native_prototype.Decoder.State.{Decoder, ok, error, result_ok, to_result}
use v8_native_prototype.Decoder.Steps.{IsReading}
use v8_native_prototype.WasmModule.Types.{WasmModule, WasmFunction, ModuleEnv}
use v8_native_prototype.ModuleDecoder.Sections.{Verifier, function_env}
use v8_native_prototype.ModuleDecoder.Module.{
  decode_sections, initial_state, decode_module, verify_function_body,
}
use v8_native_prototype.ModuleDecoder.Advance.{decode_sections-Advances, decode_sections_at_limit}
use v8_native_prototype.ModuleDecoder.WellFormed.{ModuleIsValid}
use v8_native_prototype.ModuleDecoder.Invariant.{Inv}
use v8_native_prototype.ModuleDecoder.InvariantLoop.{decode_sections-Inv}
use v8_native_prototype.ModuleDecoder.Entry.{
  new_module_decoder, error_result, read_function_header, decode_single_function,
  decode_wasm_module,
}

pub new_module_decoder-IsReading :
    (mem : List ℕ) (start end : ℕ) → IsReading (initial_state (new_module_decoder mem start end)).d
unfolding new_module_decoder initial_state error
new_module_decoder-IsReading mem start end = ground arith

-- The section loop of DecodeModule ends by its own test on every input, whatever the verifier
-- does: with as many rounds as there are bytes, pc reaches the limit. After any number of rounds
-- the bytes are those at the beginning, pc is at least start and at most the limit, and the limit
-- is at most that at the beginning.
pub decode_sections_ends :
    (verify : Verifier) (asm_js vb : Bool) (mem : List ℕ) (start end n : ℕ)
    → let d = new_module_decoder mem start end in
      let run = λ (n : ℕ). (decode_sections verify asm_js vb n (initial_state d)).d in
      ((run (d.limit - d.start)).pc ≡ (run (d.limit - d.start)).limit)
      × ((run n).mem ≡ mem)
      × (start ≤ (run n).pc)
      × ((run n).pc ≤ (run n).limit)
      × ((run n).limit ≤ d.limit)
unfolding new_module_decoder initial_state error
decode_sections_ends verify asm_js vb mem start end n =
    let d = new_module_decoder mem start end in
    let v = new_module_decoder-IsReading mem start end in
    let e =
      decode_sections_at_limit verify asm_js vb (d.limit - d.start) (initial_state d) v
        (omega arith) in
    let a = decode_sections-Advances verify asm_js vb n (initial_state d) v in
    (e, ground (arith, a), ground (arith, a), a.within, ground (arith, a))

initial_state-Inv :
    (mem : List ℕ) (start end : ℕ)
    → Inv (end - start) (initial_state (new_module_decoder mem start end))
unfolding initial_state new_module_decoder error
initial_state-Inv mem start end = record {
  reading = new_module_decoder-IsReading mem start end;
  small = ground arith;
  valid = λ h. record { signatures = tt; functions = tt; globals = tt; segments = tt; table = tt };
}

-- A module that DecodeWasmModule accepts, whatever the verifier does, is valid: each signature has at
-- most one result and only value types; each function's signature index is in the signature table and
-- names the function's signature, its name offset is at most the size of the input, and its code
-- range is in order and within the input; the name offsets of globals and the source offsets of data
-- segments are at most that size; and each entry of the function table is an index of a function.
pub decode_wasm_module_valid :
    (verify : Verifier) (vb asm_js : Bool) (mem : List ℕ) (start end : ℕ)
    → result_ok (decode_wasm_module verify vb asm_js mem start end) ≡ true
    → (m : WasmModule) × ((decode_wasm_module verify vb asm_js mem start end).val ≡ some m)
      × ModuleIsValid (end - start) m
unfolding decode_wasm_module decode_module to_result error_result
decode_wasm_module_valid verify vb asm_js mem start end h =
    let d = new_module_decoder mem start end in
    let s = decode_sections verify asm_js vb (d.limit - d.start) (initial_state d) in
    let v =
      decode_sections-Inv verify (end - start) asm_js vb (d.limit - d.start) (initial_state d)
        (initial_state-Inv mem start end) in
    (s.wasm_module, ground arith, v.valid (ground arith))

-- The result that the verifier gives for the code behind a function header.
abbrev pub header_verdict : Verifier → ModuleEnv → WasmFunction × Decoder → Bool
header_verdict verify menv (f, d) = elim f.sig [
  | none ↦ true
  | some sg ↦ result_ok (
      verify (function_env menv sg f) d.mem d.start (d.start + f.code_start_offset)
        (d.start + f.code_end_offset))
]

-- DecodeSingleFunction reports success exactly when reading the function's header met an error, or
-- the verifier accepts the code: an error in the header is not reported.
pub decode_single_function-result_ok :
    (verify : Verifier) (menv : ModuleEnv) (d : Decoder)
    → let header = read_function_header d in
      result_ok (decode_single_function verify menv d)
      ≡ (not (ok header.1) || header_verdict verify menv header)
unfolding decode_single_function verify_function_body
decode_single_function-result_ok verify menv d = ground arith
