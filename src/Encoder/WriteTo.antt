-- ===== src/Encoder/WriteTo.antt =====
-- WasmModuleWriter::WriteTo of wasm/encoder.cc writes the layout of wasm/encoder.cc's modules.
use v8_native_prototype.Base.{
  ℕ, ◌+◌, ◌≡◌, refl, sym, ap, subst, ◌∙◌, arith, List, [], ◌++◌, append-nil, append_assoc, length,
  length-append, ltb,
}
use v8_native_prototype.Encoder.Emit.{u16_bytes, emit_uint16}
use v8_native_prototype.Encoder.Serialize.{serialize_function, serialize_segment}
use v8_native_prototype.Encoder.Sizes.{WasmModuleWriter, sizes_of, total}
use v8_native_prototype.Encoder.Writer.{
  decl_signatures_code, decl_functions_code, decl_globals_code, decl_data_segments_code,
  decl_function_table_code, emit_section, emit_memory, emit_global, emit_signature, emit_end,
  new_output, write_output, write_to,
}
use v8_native_prototype.Encoder.Layout.{
  each_bytes, section_bytes, memory_bytes, global_bytes, signature_bytes, function_bytes,
  segments_bytes, contents_bytes, end_bytes, header_bytes, module_bytes, Fits,
}
use v8_native_prototype.Encoder.Filled.{
  replicate-add, Filled, Filled-cast, Writes, Writes-emit, Writes-then,
}
use v8_native_prototype.Encoder.WriterLaws.{
  emit_section-Writes, emit_memory-Writes, emit_global-Writes, emit_signature-Writes,
  serialize_function-Writes, segments_section-Filled, emit_end-Writes,
}
use v8_native_prototype.Encoder.WriterSizes.{sizes_of_lem}

new_output-Filled :
    (w : WasmModuleWriter)
    → Filled (new_output w) [] (sizes_of w).header_size [] (sizes_of w).body_size
unfolding new_output total
new_output-Filled w = record {
  buffer = replicate-add (sizes_of w).header_size (sizes_of w).body_size;
  header = refl;
  body = omega arith;
}

-- What stands in front of the segments, and behind them.
front_bytes : WasmModuleWriter → List ℕ
front_bytes w =
    ((memory_bytes
        ++ section_bytes decl_globals_code (length w.globals) (each_bytes global_bytes w.globals))
      ++ section_bytes decl_signatures_code (length w.signatures)
          (each_bytes signature_bytes w.signatures))
    ++ section_bytes decl_functions_code (length w.functions)
        (each_bytes function_bytes w.functions)

abbrev segments_part : ℕ → WasmModuleWriter → List ℕ
segments_part at w =
    section_bytes decl_data_segments_code (length w.data_segments)
      (segments_bytes at w.data_segments)

abbrev table_part : WasmModuleWriter → List ℕ
table_part w =
    section_bytes decl_function_table_code (length w.indirect_functions)
      (each_bytes u16_bytes w.indirect_functions)

abbrev end_part : WasmModuleWriter → List ℕ
end_part w = end_bytes (ltb 0 (length (contents_bytes w.data_segments)))

front-Writes :
    (w : WasmModuleWriter)
    → Writes
        (λ o. emit_section decl_functions_code serialize_function w.functions (
          emit_section decl_signatures_code emit_signature w.signatures
            (emit_section decl_globals_code emit_global w.globals (emit_memory o))))
        (front_bytes w)
unfolding front_bytes
front-Writes w =
    Writes-then
      (Writes-then
        (Writes-then emit_memory-Writes (
          emit_section-Writes decl_globals_code emit_global global_bytes emit_global-Writes
            w.globals))
        (emit_section-Writes decl_signatures_code emit_signature signature_bytes
          emit_signature-Writes w.signatures))
      (emit_section-Writes decl_functions_code serialize_function function_bytes
        serialize_function-Writes w.functions)

back-Writes :
    (w : WasmModuleWriter)
    → Writes
        (λ o.
          emit_end
            (ltb 0 (length (contents_bytes w.data_segments)))
            (emit_section decl_function_table_code emit_uint16 w.indirect_functions o))
        (table_part w ++ end_part w)
back-Writes w =
    Writes-then
      (emit_section-Writes decl_function_table_code emit_uint16 u16_bytes
        (λ index. Writes-emit (u16_bytes index)) w.indirect_functions)
      (emit_end-Writes (ltb 0 (length (contents_bytes w.data_segments))))

header_parts :
    (w : WasmModuleWriter) (at : ℕ)
    → length (header_bytes at w)
      ≡ length (front_bytes w)
        + (length (segments_part at w) + (length (table_part w ++ end_part w) + 0))
unfolding header_bytes front_bytes
header_parts w at =
    let front = front_bytes w in
    omega (
      arith,
      length-append ((front ++ segments_part at w) ++ table_part w) (end_part w),
      length-append (front ++ segments_part at w) (table_part w),
      length-append front (segments_part at w),
      length-append (table_part w) (end_part w),
    )

-- The buffer and the pointers when everything is written.
write_output-Filled :
    (w : WasmModuleWriter)
    → Fits w
    → Filled
        (write_output w)
        (header_bytes (length (header_bytes 0 w)) w)
        0
        (contents_bytes w.data_segments)
        0
unfolding write_output header_bytes front_bytes
write_output-Filled w fits =
    let at = length (header_bytes 0 w) in
    let contents = contents_bytes w.data_segments in
    let back = table_part w ++ end_part w in
    let sizes = sizes_of_lem w at fits in
    let sizes' = sizes_of_lem w 0 fits in
    let stands : at
        ≡ length (front_bytes w) + (length (segments_part at w) + (length back + 0)) + 0 =
      omega (arith, sizes, sizes', header_parts w at) in
    let start =
      Filled-cast (new_output w) {H = []} refl (sizes.0 ∙ header_parts w at) refl
        (sizes.1 ∙ omega arith) (new_output-Filled w) in
    let front = (front-Writes w).run (new_output w) [] _ [] (length contents + 0) start in
    let segments =
      segments_section-Filled w.data_segments decl_data_segments_code at _ (front_bytes w)
        (length back + 0) [] 0 front stands in
    let done = (back-Writes w).run _ (front_bytes w ++ segments_part at w) 0 contents 0 segments in
    subst
      (λ size.
        Filled
          (emit_end (ltb 0 size) (
            emit_section decl_function_table_code emit_uint16 w.indirect_functions (
              emit_section decl_data_segments_code serialize_segment w.data_segments (
                emit_section decl_functions_code serialize_function w.functions (
                  emit_section decl_signatures_code emit_signature w.signatures (
                    emit_section decl_globals_code emit_global w.globals
                      (emit_memory (new_output w))))))))
          (((front_bytes w ++ segments_part at w) ++ table_part w) ++ end_part w) 0 contents 0)
      (sym sizes.1)
      (Filled-cast _
        (sym (append_assoc (front_bytes w ++ segments_part at w) (table_part w) (end_part w))) refl
        refl refl done)

-- WriteTo gives the bytes of the layout, for every writer whose sizes fit into 32 bits: the memory, each
-- section that has entries with its code and their number, the end section where there are contents
-- of segments, and these contents; the header pointer ends where the contents begin, the body pointer
-- at the end of the buffer, and the index that is returned spans the buffer.
pub write_to-module_bytes :
    (w : WasmModuleWriter)
    → Fits w
    → ((write_to w).buffer ≡ module_bytes w)
      × ((write_to w).end ≡ length (module_bytes w))
      × ((write_output w).header ≡ (sizes_of w).header_size)
      × ((write_output w).body ≡ (write_to w).end)
unfolding write_to module_bytes total
write_to-module_bytes w fits =
    let at = length (header_bytes 0 w) in
    let header = header_bytes at w in
    let contents = contents_bytes w.data_segments in
    let v = write_output-Filled w fits in
    let sizes = sizes_of_lem w at fits in
    (
      v.buffer ∙ ap (λ xs. header ++ xs) (append-nil contents),
      omega (arith, sizes, length-append header contents),
      v.header ∙ sym sizes.0,
      omega (arith, v.body, sizes),
    )
