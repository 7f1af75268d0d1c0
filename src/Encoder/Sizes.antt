-- ===== src/Encoder/Sizes.antt =====
-- The sizes that WasmModuleWriter::WriteTo of wasm/encoder.cc computes in front of writing.
use v8_native_prototype.Base.{
  ℕ, zero, suc, ◌+◌, ◌*◌, ◌/◌, ◌%◌, ◌^◌, Bool, List, [], ◌∷◌, length, ltb, if◌then◌else◌,
}
use v8_native_prototype.Opcodes.Types.{FunctionSig, MachineType}
use v8_native_prototype.Encoder.Function.{WasmFunctionEncoder}
use v8_native_prototype.Encoder.Serialize.{
  function_header_size, function_body_size, WasmDataSegmentEncoder, segment_header_size,
  segment_body_size,
}

pub record WasmModuleWriter : Type 0 where
  pub functions : List WasmFunctionEncoder
  pub data_segments : List WasmDataSegmentEncoder
  pub signatures : List FunctionSig
  pub indirect_functions : List ℕ
  pub globals : List (MachineType × Bool)

-- kDeclMemorySize and kDeclGlobalSize of wasm/wasm-module.h.
abbrev pub decl_memory_size : ℕ
decl_memory_size = 3

abbrev pub decl_global_size : ℕ
decl_global_size = 6

pub record Sizes : Type 0 where
  pub header_size : ℕ
  pub body_size : ℕ

unfoldable pub total : Sizes → ℕ
total s = s.header_size + s.body_size

unfoldable pub add : ℕ → ℕ → Sizes → Sizes
add header body s = record { header_size = s.header_size + header; body_size = s.body_size + body }

-- The loop of AddSection; the first argument is fuel.
unfoldable pub add_section_loop : ℕ → ℕ → Sizes → Sizes
add_section_loop zero size s = s
add_section_loop (suc fuel) size s =
    let rest = add_section_loop fuel (size / 2 ^ 7) (add 1 0 s) in if ltb 0 size then rest else s

-- AddSection. Each round of the loop makes the size smaller.
unfoldable pub add_section : ℕ → Sizes → Sizes
add_section size s = if ltb 0 size then add_section_loop size size (add 1 0 s) else s

-- The loops over the signatures, the functions and the segments.
unfoldable pub add_signatures : List FunctionSig → Sizes → Sizes
add_signatures [] s = s
add_signatures (sig ∷ sigs) s = add_signatures sigs (add (2 + length sig.params) 0 s)

-- The sum of the two sizes is a uint32_t.
unfoldable pub add_functions : List WasmFunctionEncoder → Sizes → Sizes
add_functions [] s = s
add_functions (f ∷ fs) s =
    add_functions fs (add ((function_header_size f + function_body_size f) % 2 ^ 32) 0 s)

unfoldable pub add_segments : List WasmDataSegmentEncoder → Sizes → Sizes
add_segments [] s = s
add_segments (g ∷ gs) s = add_segments gs (add segment_header_size (segment_body_size g) s)

-- The sizes without the byte of the end section.
unfoldable pub sizes_of_sections : WasmModuleWriter → Sizes
sizes_of_sections w =
    let s₀ : Sizes = add decl_memory_size 0 (add 1 0 (record { header_size = 0; body_size = 0 })) in
    let s₁ = add_signatures w.signatures (add_section (length w.signatures) s₀) in
    let s₂ = add_section (length w.globals) s₁ in
    let s₃ =
      if ltb 0 (length w.globals) then add (decl_global_size * length w.globals) 0 s₂ else s₂ in
    let s₄ = add_functions w.functions (add_section (length w.functions) s₃) in
    let s₅ = add_segments w.data_segments (add_section (length w.data_segments) s₄) in
    add (2 * (length w.indirect_functions % 2 ^ 32) % 2 ^ 32) 0
      (add_section (length w.indirect_functions) s₅)

-- The sizes, as they are when the buffer is made.
unfoldable pub sizes_of : WasmModuleWriter → Sizes
sizes_of w = let s = sizes_of_sections w in if ltb 0 s.body_size then add 1 0 s else s
