-- ===== src/RoundTrip/Bytes.antt =====
-- That WriteTo (wasm/encoder.cc) writes nothing but bytes.
use v8_native_prototype.Base.{
  ℕ, ◌+◌, ◌%◌, ◌^◌, ◌<◌, arith, Bool, true, false, List, [], ◌∷◌, ◌++◌, length, ltb, All,
  All-append, if◌then◌else◌,
}
use v8_native_prototype.Leb.ReadLaws.{IsByte}
use v8_native_prototype.Leb.Write.{var_int}
use v8_native_prototype.Leb.WriteLaws.{var_int-groups}
use v8_native_prototype.Leb.RoundTrip.{groups-IsByte}
use v8_native_prototype.Encoder.Emit.{u8_bytes, u16_bytes, u32_bytes}
use v8_native_prototype.Encoder.Function.{WasmFunctionEncoder}
use v8_native_prototype.Encoder.Serialize.{has_locals, WasmDataSegmentEncoder}
use v8_native_prototype.Encoder.Sizes.{WasmModuleWriter}
use v8_native_prototype.Encoder.Layout.{
  each_bytes, section_bytes, memory_bytes, global_bytes, signature_bytes, counts_bytes,
  function_bytes, segment_bytes, segments_bytes, contents_bytes, end_bytes, header_bytes,
}

abbrev pub Bytes : List ℕ → Type 0
Bytes xs = All IsByte xs

both : (xs ys : List ℕ) → Bytes xs → Bytes ys → Bytes (xs ++ ys)
both xs ys h k = All-append IsByte xs ys h k

when : (b : Bool) (xs : List ℕ) → Bytes xs → Bytes (if b then xs else [])
when true xs h = h
when false xs h = _

u8_bytes-Bytes : (x : ℕ) → Bytes (u8_bytes x)
unfolding u8_bytes
u8_bytes-Bytes x = omega arith

u16_bytes-Bytes : (x : ℕ) → Bytes (u16_bytes x)
unfolding u16_bytes
u16_bytes-Bytes x = omega arith

u32_bytes-Bytes : (x : ℕ) → Bytes (u32_bytes x)
unfolding u32_bytes
u32_bytes-Bytes x = omega arith

each_bytes-Bytes {ℓ} :
    {A : Type ℓ} (g : A → List ℕ) (xs : List A)
    → All (λ x. Bytes (g x)) xs
    → Bytes (each_bytes g xs)
unfolding each_bytes
each_bytes-Bytes g [] h = _
each_bytes-Bytes g (x ∷ xs) h = both (g x) (each_bytes g xs) h.0 (each_bytes-Bytes g xs h.1)

everywhere {ℓ} :
    {A : Type ℓ} (g : A → List ℕ) (xs : List A)
    → ((x : A) → Bytes (g x))
    → All (λ x. Bytes (g x)) xs
everywhere g [] h = _
everywhere g (x ∷ xs) h = (h x, everywhere g xs h)

var_int-Bytes : (n : ℕ) → n < 2 ^ 32 → Bytes (var_int n)
var_int-Bytes n h = rw (var_int-groups 4 n (omega arith)) (groups-IsByte 4 n)

section_bytes-Bytes :
    (code n : ℕ) (entries : List ℕ)
    → n < 2 ^ 32
    → Bytes entries
    → Bytes (section_bytes code n entries)
unfolding section_bytes
section_bytes-Bytes code n entries small h =
    when (ltb 0 n) _
      (both _ entries (both (u8_bytes code) _ (u8_bytes-Bytes code) (var_int-Bytes n small)) h)

segments_bytes-Bytes : (at : ℕ) (ss : List WasmDataSegmentEncoder) → Bytes (segments_bytes at ss)
unfolding segments_bytes segment_bytes
segments_bytes-Bytes at [] = _
segments_bytes-Bytes at (s ∷ ss) =
    both (segment_bytes at s) _
      (both _ _ (both _ _ (both _ _ (u32_bytes-Bytes _) (u32_bytes-Bytes _)) (u32_bytes-Bytes _))
        (u8_bytes-Bytes 1))
      (segments_bytes-Bytes (at + length s.contents) ss)

function_bytes-Bytes : (e : WasmFunctionEncoder) → Bytes e.body → Bytes (function_bytes e)
unfolding function_bytes counts_bytes
function_bytes-Bytes e h =
    both _ _
      (both _ _ (both _ _ (u8_bytes-Bytes _) (u16_bytes-Bytes _)) (
        when (has_locals e) _ (
          both _ _ (both _ _ (both _ _ (u16_bytes-Bytes _) (u16_bytes-Bytes _)) (u16_bytes-Bytes _))
            (u16_bytes-Bytes _))))
      (unless e.external)
  where
    unless : (b : Bool) → Bytes (if b then [] else u16_bytes (length e.body % 2 ^ 16) ++ e.body)
    unless true = _
    unless false = both _ _ (u16_bytes-Bytes _) h

functions-Bytes :
    (fs : List WasmFunctionEncoder)
    → All (λ (e : WasmFunctionEncoder). Bytes e.body) fs
    → All (λ e. Bytes (function_bytes e)) fs
functions-Bytes [] h = _
functions-Bytes (e ∷ fs) h = (function_bytes-Bytes e h.0, functions-Bytes fs h.1)

-- The header is a row of bytes, if the bodies are and no section has 2^32 entries.
pub header_bytes-Bytes :
    (at : ℕ) (w : WasmModuleWriter)
    → length w.globals < 2 ^ 32
    → length w.signatures < 2 ^ 32
    → length w.functions < 2 ^ 32
    → length w.data_segments < 2 ^ 32
    → length w.indirect_functions < 2 ^ 32
    → All (λ (e : WasmFunctionEncoder). Bytes e.body) w.functions
    → Bytes (header_bytes at w)
unfolding header_bytes memory_bytes global_bytes signature_bytes end_bytes
header_bytes-Bytes at w a b c d e bodies =
    both _ _
      (both _ _
        (both _ _
          (both _ _
            (both _ _
              (both _ _
                (both _ _
                  (both _ _ (both _ _ (u8_bytes-Bytes _) (u8_bytes-Bytes _)) (u8_bytes-Bytes _))
                  (u8_bytes-Bytes _))
                (section_bytes-Bytes _ _ _ a (
                  each_bytes-Bytes global_bytes w.globals (
                    everywhere global_bytes w.globals (λ g.
                      both _ _ (both _ _ (u32_bytes-Bytes _) (u8_bytes-Bytes _))
                        (u8_bytes-Bytes _))))))
              (section_bytes-Bytes _ _ _ b (
                each_bytes-Bytes signature_bytes w.signatures (
                  everywhere signature_bytes w.signatures (λ s.
                    both _ _ (both _ _ (u8_bytes-Bytes _) (u8_bytes-Bytes _)) (
                      each_bytes-Bytes _ s.params
                        (everywhere _ s.params (λ t. u8_bytes-Bytes _))))))))
            (section_bytes-Bytes _ _ _ c
              (each_bytes-Bytes function_bytes w.functions (functions-Bytes w.functions bodies))))
          (section_bytes-Bytes _ _ _ d (segments_bytes-Bytes at w.data_segments)))
        (section_bytes-Bytes _ _ _ e (
          each_bytes-Bytes u16_bytes w.indirect_functions
            (everywhere u16_bytes w.indirect_functions u16_bytes-Bytes))))
      (when (ltb 0 (length (contents_bytes w.data_segments))) _ (u8_bytes-Bytes _))

pub contents_bytes-Bytes :
    (ss : List WasmDataSegmentEncoder)
    → All (λ (s : WasmDataSegmentEncoder). Bytes s.contents) ss
    → Bytes (contents_bytes ss)
unfolding contents_bytes
contents_bytes-Bytes ss h = each_bytes-Bytes (λ s. s.contents) ss h
