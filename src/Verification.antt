-- ===== src/Verification.antt =====
-- DecodeModule of wasm/module-decoder.cc with VerifyWasmCode of wasm/ast-decoder.cc as its verifier:
-- what an accepted module is, down to the bodies of its functions.
use v8_native_prototype.Base.{
  ℕ, ◌+◌, ◌-◌, ◌≡◌, refl, subst, sym, ◌∙◌, Bool, true, false, List, [], ◌∷◌, some, arith, All,
}
use mathlib.Core.Option.{some-injective}
use v8_native_prototype.Opcodes.Types.{FunctionSig}
use v8_native_prototype.Decoder.State.{ok, error, result_ok, copy_from, new_result, to_result}
use v8_native_prototype.WasmModule.Types.{ModuleEnv, WasmFunction, WasmModule}
use v8_native_prototype.ModuleDecoder.Sections.{Verifier, function_env}
use v8_native_prototype.ModuleDecoder.Module.{decode_sections, initial_state, decode_module}
use v8_native_prototype.ModuleDecoder.Advance.{decode_sections-Advances}
use v8_native_prototype.ModuleDecoder.WellFormed.{FunctionIsValid, ModuleIsValid}
use v8_native_prototype.ModuleDecoder.Verified.{
  Reports, BodyVerified, AllVerified, decode_sections-InvVerified,
}
use v8_native_prototype.ModuleDecoder.Entry.{new_module_decoder, error_result, decode_wasm_module}
use v8_native_prototype.ModuleDecoder.Accepts.{
  decode_wasm_module_valid, new_module_decoder-IsReading,
}
use v8_native_prototype.FunctionBody.Body.{
  decode_function_body, start_body, decode, verify_wasm_code,
}
use v8_native_prototype.FunctionBody.Sound.{Accepted, verify_wasm_code_sound}

-- VerifyWasmCode as VerifyFunctionBody uses it: its result without the tree.
unfoldable pub body_verifier : Verifier
unfolding copy_from new_result
body_verifier env mem base start end =
    copy_from (verify_wasm_code env mem base start end) new_result

body_verifier-Reports : Reports body_verifier
unfolding body_verifier copy_from new_result verify_wasm_code decode to_result
body_verifier-Reports env mem base start end h e = ground (arith, h, e)

-- The body of a function that is not external is accepted.
abbrev pub BodyAccepted : ModuleEnv → List ℕ → ℕ → WasmFunction → Type 0
BodyAccepted menv mem start f =
    f.external ≡ false
    → (sg : FunctionSig) → f.sig ≡ some sg
    → let env = function_env menv sg f in
      let end = start + f.code_end_offset in
      Accepted env mem end
        (decode_function_body env (start_body mem (start + f.code_start_offset) end))

bodies-BodyAccepted :
    (menv : ModuleEnv) (mem : List ℕ) (start size : ℕ) (m : WasmModule) (fs : List WasmFunction)
    → All (FunctionIsValid m.signatures size) fs
    → All (BodyVerified body_verifier menv mem start) fs
    → All (BodyAccepted menv mem start) fs
unfolding body_verifier copy_from
bodies-BodyAccepted menv mem start size m [] v h = _
bodies-BodyAccepted menv mem start size m (f ∷ fs) v h = (
  λ x sg e.
      let o = v.0 in
      let r =
        verify_wasm_code_sound (function_env menv sg f) mem start (start + f.code_start_offset)
          (start + f.code_end_offset) (omega (arith, o.code_in_order)) (h.0 x sg e) in
      r.0,
  bodies-BodyAccepted menv mem start size m fs v.1 h.1,
)

-- What DecodeModule promises of its state where it has met no error.
sections-AllVerified :
    (asm_js : Bool) (mem : List ℕ) (start end : ℕ)
    → let d = new_module_decoder mem start end in
      let s = decode_sections body_verifier asm_js true (d.limit - d.start) (initial_state d) in
      ok s.d ≡ true → AllVerified body_verifier asm_js mem start s.wasm_module.functions
unfolding new_module_decoder initial_state error
sections-AllVerified asm_js mem start end h =
    let d = new_module_decoder mem start end in
    let s₀ = initial_state d in
    let fuel = d.limit - d.start in
    let w = new_module_decoder-IsReading mem start end in
    let s = decode_sections body_verifier asm_js true fuel s₀ in
    let a = decode_sections-Advances body_verifier asm_js true fuel s₀ w in
    let v =
      decode_sections-InvVerified body_verifier asm_js fuel s₀ body_verifier-Reports w
        (λ _. (s₀.wasm_module, refl, _)) h in
    let e : s.d.mem ≡ mem = ground (arith, a) in
    let f : s.d.start ≡ start = ground (arith, a) in
    let fs = s.wasm_module.functions in
    subst (λ b. AllVerified body_verifier asm_js b start fs) e
      (subst (λ n. AllVerified body_verifier asm_js s.d.mem n fs) f v)

-- A module that is accepted is the one of the state, which has no error.
accepted_state :
    (asm_js : Bool) (mem : List ℕ) (start end : ℕ)
    → let d = new_module_decoder mem start end in
      let s = decode_sections body_verifier asm_js true (d.limit - d.start) (initial_state d) in
      let r = decode_wasm_module body_verifier true asm_js mem start end in
      result_ok r ≡ true → (ok s.d ≡ true) × (r.val ≡ some s.wasm_module)
unfolding decode_wasm_module decode_module to_result error_result
accepted_state asm_js mem start end h = (ground (arith, h), ground (arith, h))

-- A module that DecodeWasmModule accepts, with verification of the functions and VerifyWasmCode as
-- the verifier, has only accepted bodies: for each function that is not external, VerifyWasmCode
-- has read its code range to exactly the end; every tree that it built, and every child in it, has
-- as many children as its count, each of a type that its place allows in the environment of the
-- function (its signature, its locals, and a module with the functions of this one), has the type
-- of its opcode where it has no children, and fits its third operand where it is a select, while
-- the types of other trees are not stated; and where the end of the code can be reached, no
-- expression is open there and the function's results stand there.
pub decode_wasm_module_sound :
    (asm_js : Bool) (mem : List ℕ) (start end : ℕ)
    → let r = decode_wasm_module body_verifier true asm_js mem start end in
      result_ok r ≡ true
      → (m : WasmModule) × (r.val ≡ some m)
        × (m' : WasmModule) × (m'.functions ≡ m.functions)
        × All
            (BodyAccepted (record { wasm_module = some m'; asm_js = asm_js }) mem start)
            m.functions
decode_wasm_module_sound asm_js mem start end h =
    let d = new_module_decoder mem start end in
    let s = decode_sections body_verifier asm_js true (d.limit - d.start) (initial_state d) in
    let (m, e, v) = decode_wasm_module_valid body_verifier true asm_js mem start end h in
    let (o, e') = accepted_state asm_js mem start end h in
    let (m', f, k) = sections-AllVerified asm_js mem start end o in
    let u = subst (ModuleIsValid (end - start)) (some-injective m s.wasm_module (sym e ∙ e')) v in
    let menv : ModuleEnv = record { wasm_module = some m'; asm_js = asm_js } in
    (
      s.wasm_module,
      e',
      m',
      f,
      bodies-BodyAccepted menv mem start (end - start) s.wasm_module s.wasm_module.functions
          u.functions k,
    )
