-- ===== src/Encoder/EntrySizes.antt =====
-- The sizes of the sections' entries in Sizes of wasm/encoder.cc, against the bytes written.
use v8_native_prototype.Base.{
  ℕ, zero, suc, ◌+◌, ◌*◌, ◌/◌, ◌%◌, ◌^◌, ◌<◌, ◌≤◌, ◌≡◌, refl, ap, arith, Bool, List, [], ◌∷◌, ◌++◌,
  length, length-append, All,
}
use mathlib.Core.WellFounded.{Acc}
use v8_native_prototype.Base.Order.{lt_wf}
use v8_native_prototype.Opcodes.Types.{FunctionSig, MachineType, local_code, local_type_code_for}
use v8_native_prototype.Leb.Write.{var_int, var_int_loop}
use v8_native_prototype.Encoder.Emit.{u8_bytes, u16_bytes, u32_bytes}
use v8_native_prototype.Encoder.Function.{WasmFunctionEncoder}
use v8_native_prototype.Encoder.Serialize.{
  function_header_size, function_body_size, WasmDataSegmentEncoder, segment_header_size,
  segment_body_size,
}
use v8_native_prototype.Encoder.Sizes.{
  Sizes, add, add_section_loop, add_section, add_signatures, add_functions, add_segments,
}
use v8_native_prototype.Encoder.Layout.{
  each_bytes, section_bytes, global_bytes, signature_bytes, counts_bytes, function_bytes,
  segment_bytes, segments_bytes, contents_bytes,
}

add_section_loop_none : (fuel n : ℕ) (s : Sizes) → n ≡ 0 → add_section_loop fuel n s ≡ s
unfolding add_section_loop
add_section_loop_none zero n s h = refl
add_section_loop_none (suc fuel) n s h = ground (arith, h)

-- The loop of AddSection adds a byte for each that EmitVarInt writes.
add_section_loop-length :
    (fuel n : ℕ) (w : Acc ◌<◌ n) (s : Sizes)
    → 0 < n
    → n ≤ fuel
    → ((add_section_loop fuel n s).header_size ≡ s.header_size + length (var_int_loop n w))
      × ((add_section_loop fuel n s).body_size ≡ s.body_size)
unfolding add_section_loop var_int_loop add
add_section_loop-length zero n w s h k = absurd (omega arith)
add_section_loop-length (suc fuel) n (Acc.intro _ smaller) s h k = grind (
  arith,
  add_section_loop_none fuel (n / 2 ^ 7) (add 1 0 s),
  λ (w : Acc ◌<◌ (n / 2 ^ 7)). add_section_loop-length fuel (n / 2 ^ 7) w (add 1 0 s),
  add_section_loop-length fuel (n / 2 ^ 7) (smaller _ (omega arith)) (add 1 0 s),
)

pub add_section-size :
    (n : ℕ) (s : Sizes) (code : ℕ) (entries : List ℕ)
    → (n ≡ 0 → length entries ≡ 0)
    → ((add_section n s).header_size + length entries
        ≡ s.header_size + length (section_bytes code n entries))
      × ((add_section n s).body_size ≡ s.body_size)
unfolding add_section section_bytes var_int u8_bytes add
add_section-size n s code entries h = ground (
  arith,
  add_section_loop-length n n (lt_wf.apply n) (add 1 0 s),
  length-append (u8_bytes code ++ var_int n) entries,
  length-append (u8_bytes code) (var_int n),
)

pub add_signatures-size :
    (sigs : List FunctionSig) (s : Sizes)
    → ((add_signatures sigs s).header_size
        ≡ s.header_size + length (each_bytes signature_bytes sigs))
      × ((add_signatures sigs s).body_size ≡ s.body_size)
unfolding add_signatures each_bytes signature_bytes u8_bytes add
add_signatures-size [] s = omega arith
add_signatures-size (sig ∷ sigs) s = ground (
  arith,
  add_signatures-size sigs (add (2 + length sig.params) 0 s),
  length-append (signature_bytes sig) (each_bytes signature_bytes sigs),
  codes sig.params,
)
  where
    codes :
        (types : List MachineType)
        → length (each_bytes (λ type. u8_bytes (local_code (local_type_code_for type))) types)
          ≡ length types
    codes [] = refl
    codes (type ∷ types) = ap suc (codes types)

pub globals-length :
    (gs : List (MachineType × Bool)) → length (each_bytes global_bytes gs) ≡ 6 * length gs
unfolding each_bytes global_bytes u8_bytes u32_bytes
globals-length [] = omega arith
globals-length (g ∷ gs) = omega (arith, globals-length gs)

pub table-length : (xs : List ℕ) → length (each_bytes u16_bytes xs) ≡ 2 * length xs
unfolding each_bytes u16_bytes
table-length [] = omega arith
table-length (x ∷ xs) = omega (arith, table-length xs)

function-length :
    (f : WasmFunctionEncoder)
    → length f.body + 13 < 2 ^ 32
    → length (function_bytes f) ≡ (function_header_size f + function_body_size f) % 2 ^ 32
unfolding function_bytes function_header_size function_body_size counts_bytes u8_bytes u16_bytes
function-length f h = ground arith

pub add_functions-size :
    (fs : List WasmFunctionEncoder) (s : Sizes)
    → All (λ (f : WasmFunctionEncoder). length f.body + 13 < 2 ^ 32) fs
    → ((add_functions fs s).header_size ≡ s.header_size + length (each_bytes function_bytes fs))
      × ((add_functions fs s).body_size ≡ s.body_size)
unfolding add_functions each_bytes add
add_functions-size [] s h = omega arith
add_functions-size (f ∷ fs) s h =
    let size = (function_header_size f + function_body_size f) % 2 ^ 32 in
    ground (
      arith,
      add_functions-size fs (add size 0 s) h.1,
      length-append (function_bytes f) (each_bytes function_bytes fs),
      function-length f h.0,
    )

pub add_segments-size :
    (ss : List WasmDataSegmentEncoder) (at : ℕ) (s : Sizes)
    → All (λ (g : WasmDataSegmentEncoder). length g.contents < 2 ^ 32) ss
    → ((add_segments ss s).header_size ≡ s.header_size + length (segments_bytes at ss))
      × ((add_segments ss s).body_size ≡ s.body_size + length (contents_bytes ss))
unfolding add_segments segments_bytes segment_bytes contents_bytes each_bytes add segment_body_size
    u8_bytes u32_bytes
add_segments-size [] at s h = omega arith
add_segments-size (g ∷ gs) at s h = ground (
  arith,
  add_segments-size gs (at + length g.contents) (add segment_header_size (segment_body_size g) s)
      h.1,
  length-append (segment_bytes at g) (segments_bytes (at + length g.contents) gs),
  length-append g.contents (contents_bytes gs),
  h.0,
)

pub segments-length :
    (ss : List WasmDataSegmentEncoder) (at : ℕ) → length (segments_bytes at ss) ≡ 13 * length ss
unfolding segments_bytes segment_bytes u8_bytes u32_bytes
segments-length [] at = omega arith
segments-length (s ∷ ss) at = omega (arith, segments-length ss (at + length s.contents))
