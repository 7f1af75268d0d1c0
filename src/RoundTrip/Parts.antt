-- ===== src/RoundTrip/Parts.antt =====
-- The parts of a module that WriteTo (wasm/encoder.cc) wrote: their order, their lengths, their bytes.
use v8_native_prototype.Base.{
  ℕ, suc, ◌+◌, ◌<◌, ◌≡◌, refl, ap, ◌∙◌, arith, true, List, [], ◌∷◌, ◌++◌, append_assoc, some,
  length, length-append, get_elem?, All, All-append, ltb, lt→ltb,
}
use v8_native_prototype.Opcodes.Types.{FunctionSig}
use v8_native_prototype.Encoder.Function.{WasmFunctionEncoder}
use v8_native_prototype.Encoder.Serialize.{WasmDataSegmentEncoder}
use v8_native_prototype.Encoder.Sizes.{WasmModuleWriter}
use v8_native_prototype.Encoder.Layout.{
  each_bytes, contents_bytes, header_bytes, module_bytes, Fits,
}
use v8_native_prototype.Encoder.WriterSizes.{sizes_of_lem}
use v8_native_prototype.RoundTrip.Parse.{each_value}
use v8_native_prototype.RoundTrip.FunctionParts.{FunctionFits}
use v8_native_prototype.RoundTrip.Entries.{contents_length}
use v8_native_prototype.RoundTrip.Bytes.{Bytes, header_bytes-Bytes, contents_bytes-Bytes}
use v8_native_prototype.RoundTrip.Writers.{Readable}

-- The sections in front of the contents, each in front of the others.
pub regrouped :
    (a b c d e f g h : List ℕ)
    → ((((((a ++ b) ++ c) ++ d) ++ e) ++ f) ++ g) ++ h
      ≡ a ++ (b ++ (c ++ (d ++ (e ++ (f ++ (g ++ h))))))
regrouped a b c d e f g h =
    append_assoc (((((a ++ b) ++ c) ++ d) ++ e) ++ f) g h
    ∙ append_assoc ((((a ++ b) ++ c) ++ d) ++ e) f (g ++ h)
    ∙ append_assoc (((a ++ b) ++ c) ++ d) e (f ++ (g ++ h))
    ∙ append_assoc ((a ++ b) ++ c) d (e ++ (f ++ (g ++ h)))
    ∙ append_assoc (a ++ b) c (d ++ (e ++ (f ++ (g ++ h))))
    ∙ append_assoc a b (c ++ (d ++ (e ++ (f ++ (g ++ h)))))

pub length-each_value {ℓ κ} :
    {A : Type ℓ} {B : Type κ} (g : A → List ℕ) (h : A → ℕ → B) (xs : List A) (p : ℕ)
    → length (each_value g h xs p) ≡ length xs
unfolding each_value
length-each_value g h [] p = refl
length-each_value g h (x ∷ xs) p = ap suc (length-each_value g h xs (p + length (g x)))

pub length-contents :
    (ss : List WasmDataSegmentEncoder) → length (contents_bytes ss) ≡ contents_length ss
unfolding contents_bytes each_bytes
length-contents [] = refl
length-contents (s ∷ ss) =
    length-append s.contents (contents_bytes ss)
    ∙ ap (λ n. length s.contents + n) (length-contents ss)

-- Where there is a function, there is a signature; where there is an index, there is a function.
pub signature_there :
    (sigs : List FunctionSig) (fs : List WasmFunctionEncoder)
    → All (FunctionFits sigs) fs
    → 0 < length fs
    → ltb 0 (length sigs) ≡ true
signature_there sigs [] h more = absurd (omega arith)
signature_there [] (f ∷ fs) h more = absurd (no_signature (h.0.sig_in_table))
  where
    no_signature : {s : FunctionSig} → get_elem? {A = FunctionSig} [] f.signature_index ≡ some s → ⊥
    no_signature e = cc
signature_there (s ∷ sigs) (f ∷ fs) h more = lt→ltb 0 (suc (length sigs)) (omega arith)

pub function_there : (n : ℕ) (xs : List ℕ) → All (λ i. i < n) xs → 0 < length xs → ltb 0 n ≡ true
function_there n [] h more = absurd (omega arith)
function_there n (x ∷ xs) h more = lt→ltb 0 n (omega (arith, h.0))

pub module_parts :
    (a b c d e f g h : List ℕ)
    → length (a ++ (b ++ (c ++ (d ++ (e ++ (f ++ (g ++ h)))))))
      ≡ length a + length b + length c + length d + length e + length f + length g + length h
module_parts a b c d e f g h = omega (
  arith,
  length-append a (b ++ (c ++ (d ++ (e ++ (f ++ (g ++ h)))))),
  length-append b (c ++ (d ++ (e ++ (f ++ (g ++ h))))),
  length-append c (d ++ (e ++ (f ++ (g ++ h)))),
  length-append d (e ++ (f ++ (g ++ h))),
  length-append e (f ++ (g ++ h)),
  length-append f (g ++ h),
  length-append g h,
)

pub module_memory-Bytes : (w : WasmModuleWriter) → Readable w → Bytes (module_bytes w)
unfolding module_bytes
module_memory-Bytes w r =
    All-append _ (header_bytes (length (header_bytes 0 w)) w) (contents_bytes w.data_segments)
      (header_bytes-Bytes _ w r.few_globals r.few_signatures (omega (arith, r.few_functions))
        r.few_segments (omega (arith, r.few_indices)) r.bodies)
      (contents_bytes-Bytes w.data_segments r.contents)

pub contents_inside :
    (w : WasmModuleWriter)
    → Fits w
    → length (header_bytes 0 w) + contents_length w.data_segments ≡ length (module_bytes w)
unfolding module_bytes
contents_inside w fits =
    let at = length (header_bytes 0 w) in
    omega (
      arith,
      sizes_of_lem w at fits,
      sizes_of_lem w 0 fits,
      length-append (header_bytes at w) (contents_bytes w.data_segments),
      length-contents w.data_segments,
    )
