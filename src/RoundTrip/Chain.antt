-- ===== src/RoundTrip/Chain.antt =====
-- The section loop of DecodeModule (wasm/module-decoder.cc) over a whole module of WriteTo
-- (wasm/encoder.cc).
use v8_native_prototype.Base.{
  ℕ, ◌+◌, ◌<◌, ◌≡◌, refl, sym, ap, subst, ◌∙◌, arith, Bool, true, false, [], ◌++◌, append-nil, map,
  length, set, All, ltb,
}
use v8_native_prototype.Leb.Write.{var_int}
use v8_native_prototype.Decoder.State.{module_decoder, new_decoder}
use v8_native_prototype.ModuleDecoder.Sections.{Verifier, ModuleState}
use v8_native_prototype.ModuleDecoder.Module.{initial_state}
use v8_native_prototype.Encoder.Emit.{u8_bytes, u16_bytes}
use v8_native_prototype.Encoder.Sizes.{WasmModuleWriter}
use v8_native_prototype.Encoder.Layout.{
  each_bytes, section_bytes, memory_bytes, global_bytes, signature_bytes, function_bytes,
  segments_bytes, contents_bytes, end_bytes, header_bytes, module_bytes, Fits,
}
use v8_native_prototype.RoundTrip.Parse.{At, At-first, At-second, move, each_value}
use v8_native_prototype.RoundTrip.EntryItems.{decoded_global}
use v8_native_prototype.RoundTrip.FunctionParts.{decoded_function}
use v8_native_prototype.RoundTrip.Entries.{decoded_segments}
use v8_native_prototype.RoundTrip.Rounds.{Reaches, Reaches-trans}
use v8_native_prototype.RoundTrip.Sections.{
  globals-Reaches, signatures-Reaches, functions-Reaches, segments-Reaches, table-Reaches,
}
use v8_native_prototype.RoundTrip.Writers.{Readable, functions_start, decoded_module}
use v8_native_prototype.RoundTrip.Parts.{
  regrouped, length-each_value, signature_there, function_there, module_parts, module_memory-Bytes,
  contents_inside,
}
use v8_native_prototype.RoundTrip.Borders.{
  memory-Reaches, end-Reaches, at_end, Finished, at_end-Finished,
}

pub module_bytes-Reaches :
    (verify : Verifier) (asm_js : Bool) (w : WasmModuleWriter)
    → Readable w
    → Fits w
    → let s₀ =
        initial_state (new_decoder module_decoder (module_bytes w) 0 (length (module_bytes w))) in
      (s' : ModuleState) × Reaches verify asm_js s₀ s' × Finished w s'
unfolding initial_state new_decoder module_bytes header_bytes memory_bytes u8_bytes functions_start
    decoded_module
module_bytes-Reaches verify asm_js w r fits =
    let size = length (module_bytes w) in
    let at = length (header_bytes 0 w) in
    let mem = memory_bytes in
    let gs = section_bytes 3 (length w.globals) (each_bytes global_bytes w.globals) in
    let sg = section_bytes 1 (length w.signatures) (each_bytes signature_bytes w.signatures) in
    let fs = section_bytes 2 (length w.functions) (each_bytes function_bytes w.functions) in
    let ds = section_bytes 4 (length w.data_segments) (segments_bytes at w.data_segments) in
    let tb =
      section_bytes 5 (length w.indirect_functions) (each_bytes u16_bytes w.indirect_functions) in
    let contents = contents_bytes w.data_segments in
    let b = ltb 0 (length contents) in
    let en = end_bytes b in
    let s₀ = initial_state (new_decoder module_decoder (module_bytes w) 0 size) in
    let same = regrouped mem gs sg fs ds tb en contents in
    let v₀ : At size s₀.d (mem ++ (gs ++ (sg ++ (fs ++ (ds ++ (tb ++ (en ++ contents))))))) [] =
      record {
        reader = λ e. cc;
        bytes = module_memory-Bytes w r;
        start = refl;
        limit = refl;
        no_error = refl;
        stands = sym (append-nil (module_bytes w)) ∙ ap (λ xs. xs ++ []) same;
        fits = omega (arith, ap (length {A = ℕ}) same);
      } in
    let v₁ = At-second size s₀.d mem _ [] v₀ in
    let m₁ = memory-Reaches verify asm_js size _ s₀ refl (At-first size s₀.d mem _ [] v₀) in
    let s₁ : ModuleState = record s₀ {
      d = move 4 s₀.d;
      wasm_module = record s₀.wasm_module {
        min_mem_size_log2 = 16;
        max_mem_size_log2 = 16;
        mem_export = false;
      };
      sections = set s₀.sections 0 true;
    } in
    let m₂ =
      globals-Reaches verify asm_js size w.globals _ s₁ refl refl r.types r.few_globals
        (At-first size s₁.d gs _ [] v₁) in
    let s₂ : ModuleState = record s₁ {
      d = move (length gs) s₁.d;
      wasm_module = record s₁.wasm_module { globals = map decoded_global w.globals };
      sections = set s₁.sections 3 (ltb 0 (length w.globals));
    } in
    let v₂ = At-second size s₁.d gs _ [] v₁ in
    let m₃ =
      signatures-Reaches verify asm_js size w.signatures _ s₂ refl refl r.signatures r.params
        r.few_signatures (At-first size s₂.d sg _ [] v₂) in
    let s₃ : ModuleState = record s₂ {
      d = move (length sg) s₂.d;
      wasm_module = record s₂.wasm_module { signatures = w.signatures };
      sections = set s₂.sections 1 (ltb 0 (length w.signatures));
    } in
    let v₃ = At-second size s₂.d sg _ [] v₂ in
    let m₄ =
      functions-Reaches verify asm_js size w.functions _ s₃ refl refl
        (signature_there w.signatures w.functions r.functions) r.functions
        (omega (arith, r.few_functions)) (At-first size s₃.d fs _ [] v₃) in
    let found =
      each_value function_bytes (decoded_function w.signatures) w.functions
        (s₃.d.pc + 1 + length (var_int (length w.functions))) in
    let s₄ : ModuleState = record s₃ {
      d = move (length fs) s₃.d;
      wasm_module = record s₃.wasm_module { functions = found };
      sections = set s₃.sections 2 (ltb 0 (length w.functions));
    } in
    let v₄ = At-second size s₃.d fs _ [] v₃ in
    let inside = contents_inside w fits in
    let m₅ =
      segments-Reaches verify asm_js size at w.data_segments _ s₄ refl refl (omega (arith, r.small))
        (omega (arith, inside)) r.segments r.few_segments (At-first size s₄.d ds _ [] v₄) in
    let s₅ : ModuleState = record s₄ {
      d = move (length ds) s₄.d;
      wasm_module = record s₄.wasm_module { data_segments = decoded_segments at w.data_segments };
      sections = set s₄.sections 4 (ltb 0 (length w.data_segments));
    } in
    let v₅ = At-second size s₄.d ds _ [] v₄ in
    let count =
      length-each_value function_bytes (decoded_function w.signatures) w.functions
        (s₃.d.pc + 1 + length (var_int (length w.functions))) in
    let m₆ =
      table-Reaches verify asm_js size w.indirect_functions _ s₅ refl refl
        (function_there (length w.functions) w.indirect_functions r.table)
        (omega (arith, count, r.few_functions))
        (subst (λ n. All (λ i. i < n) w.indirect_functions) (sym count) r.table)
        (omega (arith, r.few_indices)) (At-first size s₅.d tb _ [] v₅) in
    let s₆ : ModuleState = record s₅ {
      d = move (length tb) s₅.d;
      wasm_module = record s₅.wasm_module { function_table = w.indirect_functions };
      sections = set s₅.sections 5 (ltb 0 (length w.indirect_functions));
    } in
    let v₆ = At-second size s₅.d tb _ [] v₅ in
    let m₇ = end-Reaches verify asm_js size b _ s₆ (At-first size s₆.d en _ [] v₆) in
    let chain = Reaches-trans verify asm_js m₁ (
      Reaches-trans verify asm_js m₂ (
        Reaches-trans verify asm_js m₃ (
          Reaches-trans verify asm_js m₄
            (Reaches-trans verify asm_js m₅ (Reaches-trans verify asm_js m₆ m₇))))) in
    let end : s₆.d.pc + length en + length contents ≡ size =
      omega (arith, ap (length {A = ℕ}) same, module_parts mem gs sg fs ds tb en contents) in
    (
      at_end verify asm_js size b s₆,
      chain,
      at_end-Finished verify asm_js w s₆ (length contents) b refl refl refl refl end,
    )
