-- ===== src/RoundTrip/Modules.antt =====
-- A module that WriteTo (wasm/encoder.cc) writes, read by DecodeWasmModule (wasm/module-decoder.cc).
use v8_native_prototype.Base.{
  ℕ, zero, suc, ◌+◌, ◌-◌, ◌<◌, ◌≤◌, ◌≡◌, refl, ap, ap₂, ◌∙◌, arith, Bool, false, List, none, some,
  length, ltb, leb,
}
use v8_native_prototype.Decoder.State.{module_decoder, new_decoder, new_result, success, to_result}
use v8_native_prototype.ModuleDecoder.Sections.{Verifier, ModuleState}
use v8_native_prototype.ModuleDecoder.Module.{decode_sections, initial_state, decode_module}
use v8_native_prototype.ModuleDecoder.Entry.{
  new_module_decoder, max_module_size, decode_wasm_module,
}
use v8_native_prototype.Encoder.Sizes.{WasmModuleWriter}
use v8_native_prototype.Encoder.Writer.{write_to}
use v8_native_prototype.Encoder.Layout.{module_bytes, Fits}
use v8_native_prototype.Encoder.WriteTo.{write_to-module_bytes}
use v8_native_prototype.RoundTrip.Writers.{Readable, decoded_module}
use v8_native_prototype.RoundTrip.Borders.{Finished}
use v8_native_prototype.RoundTrip.Chain.{module_bytes-Reaches}

loop_ends :
    (verify : Verifier) (asm_js : Bool) (fuel : ℕ) (s : ModuleState)
    → s.d.limit ≤ s.d.pc
    → decode_sections verify asm_js false fuel s ≡ s
unfolding decode_sections
loop_ends verify asm_js zero s h = refl
loop_ends verify asm_js (suc fuel) s h = ground (arith, h)

decode_module_finishes :
    (verify : Verifier) (asm_js : Bool) (w : WasmModuleWriter)
    → Readable w
    → Fits w
    → let size = length (module_bytes w) in
      (s : ModuleState) × (decode_sections verify asm_js false size
          (initial_state (new_decoder module_decoder (module_bytes w) 0 size))
        ≡ s)
      × Finished w s
unfolding initial_state new_decoder
decode_module_finishes verify asm_js w r fits =
    let size = length (module_bytes w) in
    let s₀ = initial_state (new_decoder module_decoder (module_bytes w) 0 size) in
    let (s, reaches, finished) = module_bytes-Reaches verify asm_js w r fits in
    (
      s,
      ap (λ n. decode_sections verify asm_js false n s₀)
            (enough size reaches.rounds (omega (arith, reaches.pays, finished.inside)))
          ∙ reaches.steps (size - reaches.rounds)
          ∙ loop_ends verify asm_js (size - reaches.rounds) s finished.at_limit,
      finished,
    )
  where
    enough : (size rounds : ℕ) → rounds ≤ size → size ≡ rounds + (size - rounds)
    enough size rounds h = omega arith

-- Where the section loop has finished well, DecodeWasmModule gives the module.
decode_wasm_module_known :
    (verify : Verifier) (asm_js : Bool) (bytes : List ℕ) (size : ℕ) (s : ModuleState)
    → size < max_module_size
    → decode_sections verify asm_js false size
        (initial_state (new_decoder module_decoder bytes 0 size))
      ≡ s
    → s.d.error_pc ≡ none
    → decode_wasm_module verify false asm_js bytes 0 size
      ≡ record new_result { error_code = success; val = some s.wasm_module }
unfolding decode_wasm_module decode_module new_module_decoder to_result new_result new_decoder
    initial_state
decode_wasm_module_known verify asm_js bytes size s small run well =
    let least : ltb size 0 ≡ false = ground arith in
    let fits : leb max_module_size (size - 0) ≡ false = ground (arith, small) in
    let whole : size - 0 ≡ size = omega arith in rw (least, fits, whole, run, well) refl

-- What WriteTo writes for a readable writer whose sizes fit, DecodeWasmModule reads back without
-- verification of the functions: it reports success, and the module is the writer's: its globals,
-- signatures, functions, segments and table in order, each function's code range where its body was
-- written, and each segment's source where its contents were.
pub write_to-decode_wasm_module :
    (verify : Verifier) (asm_js : Bool) (w : WasmModuleWriter)
    → Readable w
    → Fits w
    → decode_wasm_module verify false asm_js (write_to w).buffer (write_to w).begin (write_to w).end
      ≡ record new_result { error_code = success; val = some (decoded_module w) }
unfolding write_to new_result
write_to-decode_wasm_module verify asm_js w r fits =
    let (buffer, end, _, _) = write_to-module_bytes w fits in
    let (s, run, finished) = decode_module_finishes verify asm_js w r fits in
    ap₂ (λ mem n. decode_wasm_module verify false asm_js mem 0 n) buffer end
    ∙ decode_wasm_module_known verify asm_js (module_bytes w) (length (module_bytes w)) s r.small
        run finished.no_error
    ∙ ap (λ m. record new_result { error_code = success; val = some m }) finished.same
