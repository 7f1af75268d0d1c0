-- ===== src/Encoder/WriterLaws.antt =====
-- What each part of WasmModuleWriter::WriteTo (wasm/encoder.cc) writes.
use v8_native_prototype.Base.{
  ℕ, ◌+◌, ◌%◌, ◌^◌, ◌≡◌, refl, sym, subst, ◌∙◌, arith, Bool, true, false, List, [], ◌∷◌, ◌++◌,
  append-nil, append_assoc, length, length-append, ltb, lt→ltb, if◌then◌else◌,
}
use v8_native_prototype.Opcodes.Types.{FunctionSig, MachineType}
use v8_native_prototype.Leb.Write.{var_int}
use v8_native_prototype.Encoder.Emit.{
  Output, emit_bytes, u8_bytes, u16_bytes, emit_uint8, emit_uint16, emit_uint32, emit_var_int,
}
use v8_native_prototype.Encoder.Function.{WasmFunctionEncoder}
use v8_native_prototype.Encoder.Serialize.{
  has_locals, emit_local_counts, serialize_function, WasmDataSegmentEncoder, serialize_segment,
}
use v8_native_prototype.Encoder.Writer.{
  emit_each, emit_section, emit_memory, emit_global, emit_signature, emit_end,
}
use v8_native_prototype.Encoder.Layout.{
  each_bytes, section_bytes, memory_bytes, global_bytes, signature_bytes, counts_bytes,
  function_bytes, segment_bytes, segments_bytes, contents_bytes, end_bytes,
}
use v8_native_prototype.Encoder.Filled.{
  Filled, Filled-cast, emit_body-Filled, Writes, Writes-emit, Writes-none, Writes-then, Writes-if,
}

pub emit_each-Writes {ℓ} :
    {A : Type ℓ} (f : A → Output → Output) (g : A → List ℕ)
    → ((x : A) → Writes (f x) (g x))
    → (xs : List A) → Writes (λ o. emit_each f xs o) (each_bytes g xs)
unfolding emit_each each_bytes
emit_each-Writes f g h [] = Writes-none
emit_each-Writes f g h (x ∷ xs) = Writes-then (h x) (emit_each-Writes f g h xs)

pub emit_section-Writes {ℓ} :
    {A : Type ℓ} (code : ℕ) (f : A → Output → Output) (g : A → List ℕ)
    → ((x : A) → Writes (f x) (g x))
    → (xs : List A)
    → Writes (λ o. emit_section code f xs o) (section_bytes code (length xs) (each_bytes g xs))
unfolding emit_section section_bytes
emit_section-Writes code f g h xs = Writes-if (ltb 0 (length xs)) (
    Writes-then (Writes-then (Writes-emit (u8_bytes code)) (Writes-emit (var_int (length xs))))
      (emit_each-Writes f g h xs))

pub emit_memory-Writes : Writes emit_memory memory_bytes
unfolding emit_memory memory_bytes
emit_memory-Writes =
    Writes-then (Writes-then (Writes-then (Writes-emit _) (Writes-emit _)) (Writes-emit _))
      (Writes-emit _)

pub emit_global-Writes : (g : MachineType × Bool) → Writes (emit_global g) (global_bytes g)
unfolding emit_global global_bytes
emit_global-Writes g = Writes-then (Writes-then (Writes-emit _) (Writes-emit _)) (Writes-emit _)

pub emit_signature-Writes : (sig : FunctionSig) → Writes (emit_signature sig) (signature_bytes sig)
unfolding emit_signature signature_bytes
emit_signature-Writes sig =
    Writes-then (Writes-then (Writes-emit _) (Writes-emit _))
      (emit_each-Writes _ _ (λ type. Writes-emit _) sig.params)

emit_local_counts-Writes : (e : WasmFunctionEncoder) → Writes (emit_local_counts e) (counts_bytes e)
unfolding emit_local_counts counts_bytes
emit_local_counts-Writes e =
    Writes-then (Writes-then (Writes-then (Writes-emit _) (Writes-emit _)) (Writes-emit _))
      (Writes-emit _)

pub serialize_function-Writes :
    (e : WasmFunctionEncoder) → Writes (serialize_function e) (function_bytes e)
unfolding serialize_function function_bytes
serialize_function-Writes e =
    Writes-then
      (Writes-then (Writes-then (Writes-emit _) (Writes-emit _))
        (Writes-if (has_locals e) (emit_local_counts-Writes e)))
      (body_written e.external)
  where
    body_written :
        (b : Bool)
        → Writes
            (λ o. if b then o else emit_bytes e.body (emit_uint16 (length e.body % 2 ^ 16) o))
            (if b then [] else u16_bytes (length e.body % 2 ^ 16) ++ e.body)
    body_written true = Writes-none
    body_written false = Writes-then (Writes-emit _) (Writes-emit _)

pub emit_end-Writes : (b : Bool) → Writes (emit_end b) (end_bytes b)
unfolding emit_end end_bytes
emit_end-Writes b = Writes-if b (Writes-emit _)

serialize_segment-Filled :
    (s : WasmDataSegmentEncoder) (at : ℕ) (o : Output) (H : List ℕ) (n : ℕ) (B : List ℕ) (m : ℕ)
    → Filled o H (length (segment_bytes at s) + n) B (length s.contents + m)
    → at ≡ length H + (length (segment_bytes at s) + n) + length B
    → Filled (serialize_segment s o) (H ++ segment_bytes at s) n (B ++ s.contents) m
unfolding serialize_segment segment_bytes
serialize_segment-Filled s at o H n B m v e =
    emit_body-Filled s.contents _ (H ++ segment_bytes at s) n B m (
      subst
        (λ k.
          Filled
            (emit_uint8 1 (
              emit_uint32 (length s.contents % 2 ^ 32)
                (emit_uint32 (k % 2 ^ 32) (emit_uint32 s.dest o))))
            (H ++ segment_bytes at s) n B (length s.contents + m))
        (e ∙ sym v.body) (written.run o H n B (length s.contents + m) v))
  where
    written :
        Writes
          (λ out. emit_uint8 1 (
            emit_uint32
              (length s.contents % 2 ^ 32)
              (emit_uint32 (at % 2 ^ 32) (emit_uint32 s.dest out))))
          (segment_bytes at s)
    written =
        Writes-then (Writes-then (Writes-then (Writes-emit _) (Writes-emit _)) (Writes-emit _))
          (Writes-emit _)

room_of_both : (xs ys : List ℕ) (n : ℕ) → length (xs ++ ys) + n ≡ length xs + (length ys + n)
room_of_both xs ys n = omega (arith, length-append xs ys)

-- The segments, whose contents go to the body pointer; `at` is where that pointer stands.
pub serialize_segments-Filled :
    (ss : List WasmDataSegmentEncoder) (at : ℕ) (o : Output) (H : List ℕ) (n : ℕ) (B : List ℕ)
    (m : ℕ)
    → Filled o H (length (segments_bytes at ss) + n) B (length (contents_bytes ss) + m)
    → at ≡ length H + (length (segments_bytes at ss) + n) + length B
    → Filled
        (emit_each serialize_segment ss o)
        (H ++ segments_bytes at ss)
        n
        (B ++ contents_bytes ss)
        m
unfolding emit_each segments_bytes contents_bytes each_bytes
serialize_segments-Filled [] at o H n B m v e =
    Filled-cast o (sym (append-nil H)) (omega arith) (sym (append-nil B)) (omega arith) v
serialize_segments-Filled (s ∷ ss) at o H n B m v e =
    let hs = segments_bytes (at + length s.contents) ss in
    let bs = contents_bytes ss in
    let first =
      serialize_segment-Filled s at o H (length hs + n) B (length bs + m)
        (Filled-cast o refl (room_of_both (segment_bytes at s) hs n) refl
          (room_of_both s.contents bs m) v)
        (omega (arith, e, length-append (segment_bytes at s) hs)) in
    let rest =
      serialize_segments-Filled ss (at + length s.contents) (serialize_segment s o)
        (H ++ segment_bytes at s) n (B ++ s.contents) m first
        (omega (
          arith,
          e,
          length-append H (segment_bytes at s),
          length-append (segment_bytes at s) hs,
          length-append B s.contents,
        )) in
    Filled-cast _ (append_assoc H (segment_bytes at s) hs) refl (append_assoc B s.contents bs) refl
      rest

counted_segments-Filled :
    (ss : List WasmDataSegmentEncoder) (code at : ℕ) (o : Output) (H : List ℕ) (n : ℕ) (B : List ℕ)
    (m : ℕ)
    → let count = u8_bytes code ++ var_int (length ss) in
      Filled o H (length (count ++ segments_bytes at ss) + n) B (length (contents_bytes ss) + m)
      → at ≡ length H + (length (count ++ segments_bytes at ss) + n) + length B
      → Filled
          (emit_each serialize_segment ss (emit_var_int (length ss) (emit_uint8 code o)))
          (H ++ (count ++ segments_bytes at ss))
          n
          (B ++ contents_bytes ss)
          m
counted_segments-Filled ss code at o H n B m v e =
    let count = u8_bytes code ++ var_int (length ss) in
    let hs = segments_bytes at ss in
    let counted =
      (Writes-then (Writes-emit (u8_bytes code)) (Writes-emit (var_int (length ss)))).run o H
        (length hs + n) B (length (contents_bytes ss) + m)
        (Filled-cast o refl (room_of_both count hs n) refl refl v) in
    Filled-cast _ (append_assoc H count hs) refl refl refl (
      serialize_segments-Filled ss at _ (H ++ count) n B m counted
        (omega (arith, e, length-append H count, length-append count hs)))

-- The section of the segments.
pub segments_section-Filled :
    (ss : List WasmDataSegmentEncoder) (code at : ℕ) (o : Output) (H : List ℕ) (n : ℕ) (B : List ℕ)
    (m : ℕ)
    → Filled o H
        (length (section_bytes code (length ss) (segments_bytes at ss)) + n)
        B
        (length (contents_bytes ss) + m)
    → at
      ≡ length H + (length (section_bytes code (length ss) (segments_bytes at ss)) + n) + length B
    → Filled
        (emit_section code serialize_segment ss o)
        (H ++ section_bytes code (length ss) (segments_bytes at ss))
        n
        (B ++ contents_bytes ss)
        m
unfolding emit_section section_bytes contents_bytes each_bytes
segments_section-Filled [] code at o H n B m v e =
    Filled-cast o (sym (append-nil H)) (omega arith) (sym (append-nil B)) (omega arith) v
segments_section-Filled (s ∷ ss) code at o H n B m v e =
    let all : List WasmDataSegmentEncoder = s ∷ ss in
    let bytes = (u8_bytes code ++ var_int (length all)) ++ segments_bytes at all in
    subst
      (λ b.
        Filled o H (length (if b then bytes else []) + n) B (length (contents_bytes all) + m)
        → at ≡ length H + (length (if b then bytes else []) + n) + length B
        → Filled
            (if b
              then emit_each serialize_segment all (emit_var_int (length all) (emit_uint8 code o))
              else o)
            (H ++ (if b then bytes else [])) n (B ++ contents_bytes all) m)
      (sym (lt→ltb 0 (length all) (omega arith))) (counted_segments-Filled all code at o H n B m) v
      e
