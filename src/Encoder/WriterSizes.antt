-- ===== src/Encoder/WriterSizes.antt =====
-- That the sizes WasmModuleWriter::WriteTo (wasm/encoder.cc) computes are those of what it writes.
use v8_native_prototype.Base.{
  ℕ, ◌+◌, ◌*◌, ◌%◌, ◌^◌, ◌<◌, ◌≡◌, refl, arith, Bool, List, [], ◌∷◌, ◌++◌, length, length-append,
  ltb, if◌then◌else◌, All,
}
use v8_native_prototype.Opcodes.Types.{FunctionSig, MachineType}
use v8_native_prototype.Encoder.Emit.{u8_bytes, u16_bytes}
use v8_native_prototype.Encoder.Function.{WasmFunctionEncoder}
use v8_native_prototype.Encoder.Serialize.{WasmDataSegmentEncoder}
use v8_native_prototype.Encoder.Sizes.{
  WasmModuleWriter, Sizes, add, add_section, add_signatures, add_functions, add_segments,
  sizes_of_sections, sizes_of,
}
use v8_native_prototype.Encoder.Writer.{
  decl_signatures_code, decl_functions_code, decl_globals_code, decl_data_segments_code,
  decl_function_table_code,
}
use v8_native_prototype.Encoder.Layout.{
  each_bytes, section_bytes, memory_bytes, global_bytes, signature_bytes, function_bytes,
  segments_bytes, contents_bytes, end_bytes, header_bytes, Fits,
}
use v8_native_prototype.Encoder.EntrySizes.{
  add_section-size, add_signatures-size, globals-length, table-length, add_functions-size,
  add_segments-size, segments-length,
}

no_entries {ℓ} :
    {A : Type ℓ} (f : A → List ℕ) (xs : List A) → length xs ≡ 0 → length (each_bytes f xs) ≡ 0
unfolding each_bytes
no_entries f [] h = refl
no_entries f (x ∷ xs) h = absurd (omega arith)

signatures-stage :
    (sigs : List FunctionSig) (s : Sizes)
    → ((add_signatures sigs (add_section (length sigs) s)).header_size
        ≡ s.header_size
          + length
              (section_bytes decl_signatures_code (length sigs) (each_bytes signature_bytes sigs)))
      × ((add_signatures sigs (add_section (length sigs) s)).body_size ≡ s.body_size)
unfolding add
signatures-stage sigs s = omega (
  arith,
  add_section-size (length sigs) s decl_signatures_code (each_bytes signature_bytes sigs)
      (no_entries signature_bytes sigs),
  add_signatures-size sigs (add_section (length sigs) s),
)

functions-stage :
    (fs : List WasmFunctionEncoder) (s : Sizes)
    → All (λ (f : WasmFunctionEncoder). length f.body + 13 < 2 ^ 32) fs
    → ((add_functions fs (add_section (length fs) s)).header_size
        ≡ s.header_size
          + length (section_bytes decl_functions_code (length fs) (each_bytes function_bytes fs)))
      × ((add_functions fs (add_section (length fs) s)).body_size ≡ s.body_size)
unfolding add
functions-stage fs s h = omega (
  arith,
  add_section-size (length fs) s decl_functions_code (each_bytes function_bytes fs)
      (no_entries function_bytes fs),
  add_functions-size fs (add_section (length fs) s) h,
)

globals-stage :
    (gs : List (MachineType × Bool)) (s : Sizes)
    → let s' = add_section (length gs) s in
      let s'' = if ltb 0 (length gs) then add (6 * length gs) 0 s' else s' in
      (s''.header_size
        ≡ s.header_size
          + length (section_bytes decl_globals_code (length gs) (each_bytes global_bytes gs)))
      × (s''.body_size ≡ s.body_size)
unfolding add
globals-stage gs s = ground (
  arith,
  add_section-size (length gs) s decl_globals_code (each_bytes global_bytes gs)
      (no_entries global_bytes gs),
  globals-length gs,
)

segments-stage :
    (ss : List WasmDataSegmentEncoder) (at : ℕ) (s : Sizes)
    → All (λ (g : WasmDataSegmentEncoder). length g.contents < 2 ^ 32) ss
    → let s' = add_segments ss (add_section (length ss) s) in
      (s'.header_size
        ≡ s.header_size
          + length (section_bytes decl_data_segments_code (length ss) (segments_bytes at ss)))
      × (s'.body_size ≡ s.body_size + length (contents_bytes ss))
unfolding add
segments-stage ss at s h = omega (
  arith,
  add_section-size (length ss) s decl_data_segments_code (segments_bytes at ss)
      (λ e. omega (arith, e, segments-length ss at)),
  add_segments-size ss at (add_section (length ss) s) h,
)

table-stage :
    (xs : List ℕ) (s : Sizes)
    → length xs < 2 ^ 31
    → let s' = add (2 * (length xs % 2 ^ 32) % 2 ^ 32) 0 (add_section (length xs) s) in
      (s'.header_size
        ≡ s.header_size
          + length (section_bytes decl_function_table_code (length xs) (each_bytes u16_bytes xs)))
      × (s'.body_size ≡ s.body_size)
unfolding add
table-stage xs s h = omega (
  arith,
  add_section-size (length xs) s decl_function_table_code (each_bytes u16_bytes xs)
      (no_entries u16_bytes xs),
  table-length xs,
)

-- The sizes of the sections are the lengths of the two parts of the layout, but for the last byte.
sizes_of_sections_lem :
    (w : WasmModuleWriter) (at : ℕ)
    → Fits w
    → ((sizes_of_sections w).header_size
          + length (end_bytes (ltb 0 (length (contents_bytes w.data_segments))))
        ≡ length (header_bytes at w))
      × ((sizes_of_sections w).body_size ≡ length (contents_bytes w.data_segments))
unfolding sizes_of_sections header_bytes memory_bytes u8_bytes Fits add
sizes_of_sections_lem w at (fs, ss, table) =
    let s₀ : Sizes = record { header_size = 4; body_size = 0 } in
    let s₁ = add_signatures w.signatures (add_section (length w.signatures) s₀) in
    let s₂ = add_section (length w.globals) s₁ in
    let s₃ : Sizes = if ltb 0 (length w.globals) then add (6 * length w.globals) 0 s₂ else s₂ in
    let s₄ = add_functions w.functions (add_section (length w.functions) s₃) in
    let s₅ = add_segments w.data_segments (add_section (length w.data_segments) s₄) in
    let memory : List ℕ = 0 ∷ 16 ∷ 16 ∷ 0 ∷ [] in
    let globals =
      section_bytes decl_globals_code (length w.globals) (each_bytes global_bytes w.globals) in
    let signatures =
      section_bytes decl_signatures_code (length w.signatures)
        (each_bytes signature_bytes w.signatures) in
    let functions =
      section_bytes decl_functions_code (length w.functions)
        (each_bytes function_bytes w.functions) in
    let segments =
      section_bytes decl_data_segments_code (length w.data_segments)
        (segments_bytes at w.data_segments) in
    let indirect =
      section_bytes decl_function_table_code (length w.indirect_functions)
        (each_bytes u16_bytes w.indirect_functions) in
    let end = end_bytes (ltb 0 (length (contents_bytes w.data_segments))) in
    omega (
      arith,
      signatures-stage w.signatures s₀,
      globals-stage w.globals s₁,
      functions-stage w.functions s₃ fs,
      segments-stage w.data_segments at s₄ ss,
      table-stage w.indirect_functions s₅ table,
      length-append memory globals,
      length-append (memory ++ globals) signatures,
      length-append ((memory ++ globals) ++ signatures) functions,
      length-append (((memory ++ globals) ++ signatures) ++ functions) segments,
      length-append ((((memory ++ globals) ++ signatures) ++ functions) ++ segments) indirect,
      length-append (((((memory ++ globals) ++ signatures) ++ functions) ++ segments) ++ indirect)
          end,
    )

-- The sizes are the lengths of the two parts of the layout.
pub sizes_of_lem :
    (w : WasmModuleWriter) (at : ℕ)
    → Fits w
    → ((sizes_of w).header_size ≡ length (header_bytes at w))
      × ((sizes_of w).body_size ≡ length (contents_bytes w.data_segments))
unfolding sizes_of add end_bytes u8_bytes
sizes_of_lem w at h = ground (arith, sizes_of_sections_lem w at h)
