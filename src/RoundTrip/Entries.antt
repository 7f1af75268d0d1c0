-- ===== src/RoundTrip/Entries.antt =====
-- The entries of the sections that are no plain rows: data segments, whose bytes say where their contents
-- stand, and the function table (wasm/encoder.cc, wasm/module-decoder.cc).
use v8_native_prototype.Base.{
  ℕ, suc, ◌+◌, ◌^◌, ◌<◌, ◌≤◌, ◌≡◌, refl, sym, ap, ap₂, subst, ◌∙◌, arith, List, [], ◌∷◌, ◌++◌, some,
  map, length, All,
}
use v8_native_prototype.Leb.Write.{var_int}
use v8_native_prototype.Decoder.State.{Decoder}
use v8_native_prototype.Decoder.Reads.{u32v}
use v8_native_prototype.WasmModule.Types.{WasmDataSegment}
use v8_native_prototype.ModuleDecoder.Items.{decode_data_segment_in_module}
use v8_native_prototype.ModuleDecoder.Sections.{decode_counted, decode_table}
use v8_native_prototype.Encoder.Emit.{u16_bytes}
use v8_native_prototype.Encoder.Serialize.{WasmDataSegmentEncoder}
use v8_native_prototype.Encoder.Layout.{each_bytes, segment_bytes, segments_bytes}
use v8_native_prototype.RoundTrip.Parse.{
  At-first, At-second, move, move-append, Parses, Parses-then, Parses-cast, u16-Parses, u32v-Parses,
  each_value, decode_counted-Parses,
}
use v8_native_prototype.RoundTrip.EntryItems.{decoded_segment, decode_data_segment_in_module-Parses}

-- Values that do not depend on where they stand.
pub each_value-map {ℓ κ} :
    {A : Type ℓ} {B : Type κ} (g : A → List ℕ) (h : A → B) (xs : List A) (p : ℕ)
    → each_value g (λ x _. h x) xs p ≡ map h xs
unfolding each_value
each_value-map g h [] p = refl
each_value-map g h (x ∷ xs) p = ap (λ ys. h x ∷ ys) (each_value-map g h xs (p + length (g x)))

pub map_same {ℓ} : {A : Type ℓ} (xs : List A) → map (λ x. x) xs ≡ xs
map_same [] = refl
map_same (x ∷ xs) = ap (λ ys. x ∷ ys) (map_same xs)

-- The segments with the places of their contents.
abbrev located : ℕ → List WasmDataSegmentEncoder → List (ℕ × WasmDataSegmentEncoder)
located at [] = []
located at (s ∷ ss) = (at, s) ∷ located (at + length s.contents) ss

abbrev pub decoded_segments : ℕ → List WasmDataSegmentEncoder → List WasmDataSegment
decoded_segments at [] = []
decoded_segments at (s ∷ ss) = decoded_segment s at ∷ decoded_segments (at + length s.contents) ss

abbrev place_bytes : ℕ × WasmDataSegmentEncoder → List ℕ
place_bytes (at, s) = segment_bytes at s

abbrev place_value : ℕ × WasmDataSegmentEncoder → WasmDataSegment
place_value (at, s) = decoded_segment s at

located-bytes :
    (at : ℕ) (ss : List WasmDataSegmentEncoder)
    → each_bytes place_bytes (located at ss) ≡ segments_bytes at ss
unfolding each_bytes segments_bytes
located-bytes at [] = refl
located-bytes at (s ∷ ss) =
    ap (λ xs. segment_bytes at s ++ xs) (located-bytes (at + length s.contents) ss)

located-values :
    (at : ℕ) (ss : List WasmDataSegmentEncoder)
    → map place_value (located at ss) ≡ decoded_segments at ss
located-values at [] = refl
located-values at (s ∷ ss) =
    ap (λ xs. decoded_segment s at ∷ xs) (located-values (at + length s.contents) ss)

length-located : (at : ℕ) (ss : List WasmDataSegmentEncoder) → length (located at ss) ≡ length ss
length-located at [] = refl
length-located at (s ∷ ss) = ap suc (length-located (at + length s.contents) ss)

-- Segments with addresses of 32 bits, whose contents end within the module.
pub record SegmentFits (s : WasmDataSegmentEncoder) : Type 0 where
  pub dest_small : s.dest < 2 ^ 32

abbrev pub contents_length : List WasmDataSegmentEncoder → ℕ
contents_length [] = 0
contents_length (s ∷ ss) = length s.contents + contents_length ss

located-Parses :
    (size at : ℕ) (ss : List WasmDataSegmentEncoder)
    → size < 2 ^ 32
    → at + contents_length ss ≤ size
    → All SegmentFits ss
    → All
        (λ x. Parses size decode_data_segment_in_module (place_bytes x) (λ _. place_value x))
        (located at ss)
located-Parses size at [] small inside fits = _
located-Parses size at (s ∷ ss) small inside fits = (
  decode_data_segment_in_module-Parses size at s fits.0.dest_small (omega arith) small
      (omega arith),
  located-Parses size (at + length s.contents) ss small (omega arith) fits.1,
)

pub decode_segments-Parses :
    (size at : ℕ) (ss : List WasmDataSegmentEncoder)
    → size < 2 ^ 32
    → at + contents_length ss ≤ size
    → All SegmentFits ss
    → length ss < 2 ^ 32
    → Parses size
        (decode_counted decode_data_segment_in_module)
        (var_int (length ss) ++ segments_bytes at ss)
        (λ _. decoded_segments at ss)
decode_segments-Parses size at ss small inside fits few =
    Parses-cast size _ (ap₂ (λ n xs. var_int n ++ xs) (length-located at ss) (located-bytes at ss))
      (λ p. each_value-map place_bytes place_value (located at ss) _ ∙ located-values at ss)
      (decode_counted-Parses size decode_data_segment_in_module place_bytes (λ x _. place_value x)
        (located at ss) (subst (λ n. n < 2 ^ 32) (sym (length-located at ss)) few)
        (located-Parses size at ss small inside fits))

-- The function table, of indices below the number of functions.
decode_entries_table :
    (size functions : ℕ) (xs : List ℕ)
    → functions ≤ 2 ^ 16
    → All (λ i. i < functions) xs
    → Parses size (decode_table functions (length xs)) (each_bytes u16_bytes xs) (λ _. xs)
unfolding decode_table each_bytes
decode_entries_table size functions [] few h = record {
  run = λ d rest v. ap (λ n. ([], record d { pc = n })) (stay d.pc);
}
  where
    stay : (n : ℕ) → n ≡ n + 0
    stay n = omega arith
decode_entries_table size functions (x ∷ xs) few h = record {
  run = λ d rest v.
      let first =
        (u16-Parses size x).run d (each_bytes u16_bytes xs ++ rest)
          (At-first size d (u16_bytes x) (each_bytes u16_bytes xs) rest v) in
      let others =
        (decode_entries_table size functions xs few h.1).run (move (length (u16_bytes x)) d) rest
          (At-second size d (u16_bytes x) (each_bytes u16_bytes xs) rest v) in
      rw (first, others)
        (ground (arith, v.no_error, h.0, move-append (u16_bytes x) (each_bytes u16_bytes xs) d));
}

abbrev pub read_table : ℕ → Decoder → List ℕ × Decoder
read_table functions d = let ((count, _), d₁) = u32v d in decode_table functions count d₁

pub read_table-Parses :
    (size functions : ℕ) (xs : List ℕ)
    → functions ≤ 2 ^ 16
    → All (λ i. i < functions) xs
    → length xs < 2 ^ 32
    → Parses size (read_table functions) (var_int (length xs) ++ each_bytes u16_bytes xs) (λ _. xs)
read_table-Parses size functions xs few h small =
    Parses-then size u32v (λ count. decode_table functions count.0) (λ _ found. found)
      (var_int (length xs)) (each_bytes u16_bytes xs)
      (λ _. (length xs, some (length (var_int (length xs))))) (λ _ _. xs)
      (u32v-Parses size (length xs) small) (λ _. decode_entries_table size functions xs few h)
