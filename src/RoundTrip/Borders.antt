-- ===== src/RoundTrip/Borders.antt =====
-- The first and the last section of a module of WriteTo (wasm/encoder.cc), and the end of the section loop of
-- DecodeModule (wasm/module-decoder.cc).
use v8_native_prototype.Base.{
  ℕ, ◌+◌, ◌≤◌, ◌≡◌, refl, ap, ◌∙◌, arith, Bool, true, false, List, [], ◌∷◌, none, length, get_or,
  set, ltb,
}
use v8_native_prototype.ModuleDecoder.Sections.{Verifier, to_section, ModuleState, memory_section}
use v8_native_prototype.ModuleDecoder.Module.{run_section, decode_section}
use v8_native_prototype.Encoder.Emit.{u8_bytes}
use v8_native_prototype.Encoder.Sizes.{WasmModuleWriter}
use v8_native_prototype.Encoder.Layout.{memory_bytes, end_bytes, module_bytes}
use v8_native_prototype.RoundTrip.Parse.{At, At-first, At-second, move, u8-Parses}
use v8_native_prototype.RoundTrip.Rounds.{Reaches, Reaches-refl, Reaches-round, decode_section-run}
use v8_native_prototype.RoundTrip.Writers.{decoded_module}

module _ (verify : Verifier) (asm_js : Bool) (size : ℕ) where
  -- The memory section.
  pub memory-Reaches :
      (rest : List ℕ) (s : ModuleState)
      → get_or s.sections 0 false ≡ false
      → At size s.d memory_bytes rest
      → Reaches verify asm_js s (record s {
        d = move 4 s.d;
        wasm_module = record s.wasm_module {
          min_mem_size_log2 = 16;
          max_mem_size_log2 = 16;
          mem_export = false;
        };
        sections = set s.sections 0 true;
      })
  unfolding memory_bytes u8_bytes run_section to_section memory_section
  memory-Reaches rest s fresh v =
      let v₁ = At-second size s.d (u8_bytes 0) (16 ∷ 16 ∷ 0 ∷ []) rest v in
      let v₂ = At-second size (move 1 s.d) (u8_bytes 16) (16 ∷ 0 ∷ []) rest v₁ in
      let v₃ = At-second size (move 1 (move 1 s.d)) (u8_bytes 16) (0 ∷ []) rest v₂ in
      let a =
        (u8-Parses size 16).run (move 1 s.d) (16 ∷ 0 ∷ rest)
          (At-first size (move 1 s.d) (u8_bytes 16) (16 ∷ 0 ∷ []) rest v₁) in
      let b =
        (u8-Parses size 16).run (move 1 (move 1 s.d)) (0 ∷ rest)
          (At-first size (move 1 (move 1 s.d)) (u8_bytes 16) (0 ∷ []) rest v₂) in
      let c = (u8-Parses size 0).run (move 1 (move 1 (move 1 s.d))) rest v₃ in
      Reaches-round verify asm_js s _ (omega (arith, v.fits, v.limit))
        (decode_section-run verify asm_js size 0 s (16 ∷ 16 ∷ 0 ∷ []) rest (omega arith) fresh v
          ∙ rw (a, b, c)
              (ap
                (λ n. record s {
                  d = record s.d { pc = n };
                  wasm_module = record s.wasm_module {
                    min_mem_size_log2 = 16;
                    max_mem_size_log2 = 16;
                    mem_export = false;
                  };
                  sections = set s.sections 0 true;
                })
                (four s.d.pc)))
        (omega arith)
    where
      four : (n : ℕ) → n + 1 + 1 + 1 + 1 ≡ n + 4
      four n = omega arith

  -- The end section, or nothing where the module ends.
  abbrev pub at_end : Bool → ModuleState → ModuleState
  at_end true s = record s { d = record s.d { pc = s.d.pc + 1; limit = s.d.pc + 1 } }
  at_end false s = s

  pub end-Reaches :
      (b : Bool) (rest : List ℕ) (s : ModuleState)
      → At size s.d (end_bytes b) rest
      → Reaches verify asm_js s (at_end b s)
  unfolding end_bytes u8_bytes decode_section run_section to_section
  end-Reaches true rest s v =
      Reaches-round verify asm_js s _ (omega (arith, v.fits, v.limit))
        (rw ((u8-Parses size 6).run s.d rest v) refl) (omega arith)
  end-Reaches false rest s v = Reaches-refl verify asm_js s

-- A state of the loop at its end, without an error, whose module is the one that was written.
pub record Finished (w : WasmModuleWriter) (s : ModuleState) : Type 0 where
  pub same : s.wasm_module ≡ decoded_module w
  pub no_error : s.d.error_pc ≡ none
  pub at_limit : s.d.limit ≤ s.d.pc
  pub inside : s.d.pc ≤ length (module_bytes w)

pub at_end-Finished :
    (verify : Verifier) (asm_js : Bool) (w : WasmModuleWriter) (s : ModuleState) (n : ℕ) (b : Bool)
    → ltb 0 n ≡ b
    → s.wasm_module ≡ decoded_module w
    → s.d.error_pc ≡ none
    → s.d.limit ≡ length (module_bytes w)
    → s.d.pc + length (end_bytes b) + n ≡ length (module_bytes w)
    → Finished w (at_end verify asm_js (length (module_bytes w)) b s)
unfolding end_bytes u8_bytes
at_end-Finished verify asm_js w s n true e same well limit end = record {
  same = same;
  no_error = well;
  at_limit = omega arith;
  inside = omega (arith, end);
}
at_end-Finished verify asm_js w s n false e same well limit end = record {
  same = same;
  no_error = well;
  at_limit = ground (arith, e, limit, end);
  inside = omega (arith, end);
}
