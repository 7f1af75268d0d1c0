-- ===== src/Encoder/Serialize.antt =====
-- Writing one function and one data segment: WasmFunctionEncoder and WasmDataSegmentEncoder of
-- wasm/encoder.cc.
use v8_native_prototype.Base.{
  ℕ, ◌+◌, ◌^◌, ◌%◌, ◌<◌, ◌≡◌, bit_or, Bool, List, arith, length, ltb, if◌then◌else◌,
}
use v8_native_prototype.ModuleDecoder.Items.{
  decl_function_import, decl_function_locals, decl_function_export,
}
use v8_native_prototype.Encoder.Emit.{
  Output, emit_bytes, emit_body, u8_bytes, u16_bytes, u32_bytes, emit_uint8, emit_uint16,
  emit_uint32,
}
use v8_native_prototype.Encoder.Function.{WasmFunctionEncoder}

unfoldable pub has_locals : WasmFunctionEncoder → Bool
has_locals e =
    ltb 0
      (e.local_int32_count + e.local_int64_count + e.local_float32_count + e.local_float64_count)

unfoldable pub function_header_size : WasmFunctionEncoder → ℕ
function_header_size e = 3 + (if has_locals e then 8 else 0) + (if e.external then 0 else 2)

-- A uint32_t.
unfoldable pub function_body_size : WasmFunctionEncoder → ℕ
function_body_size e = if e.external then 0 else length e.body % 2 ^ 32

unfoldable pub function_decl_bits : WasmFunctionEncoder → ℕ
function_decl_bits e =
    bit_or
      (bit_or (if e.exported then decl_function_export else 0)
        (if e.external then decl_function_import else 0))
      (if has_locals e then decl_function_locals else 0)

-- The four counts of Serialize.
unfoldable pub emit_local_counts : WasmFunctionEncoder → Output → Output
emit_local_counts e o = emit_uint16 e.local_float64_count (
    emit_uint16 e.local_float32_count
      (emit_uint16 e.local_int64_count (emit_uint16 e.local_int32_count o)))

-- WasmFunctionEncoder::Serialize. The body goes to the header pointer, behind its size cut to 16 bits.
unfoldable pub serialize_function : WasmFunctionEncoder → Output → Output
serialize_function e o =
    let o₁ = emit_uint16 e.signature_index (emit_uint8 (function_decl_bits e) o) in
    let o₂ = if has_locals e then emit_local_counts e o₁ else o₁ in
    if e.external then o₂ else emit_bytes e.body (emit_uint16 (length e.body % 2 ^ 16) o₂)

pub record WasmDataSegmentEncoder : Type 0 where
  pub contents : List ℕ
  pub dest : ℕ

abbrev pub segment_header_size : ℕ
segment_header_size = 13

-- A uint32_t.
unfoldable pub segment_body_size : WasmDataSegmentEncoder → ℕ
segment_body_size s = length s.contents % 2 ^ 32

-- WasmDataSegmentEncoder::Serialize; the buffer begins at 0.
unfoldable pub serialize_segment : WasmDataSegmentEncoder → Output → Output
serialize_segment s o =
    let body_offset = o.body % 2 ^ 32 in
    let o₁ = emit_uint32 body_offset (emit_uint32 s.dest o) in
    emit_body s.contents (emit_uint8 1 (emit_uint32 (length s.contents % 2 ^ 32) o₁))

header_if :
    (b : Bool) (o o' : Output) (n : ℕ)
    → o.header ≡ o'.header + n
    → (if b then o else o').header ≡ o'.header + (if b then n else 0)
header_if b o o' n h = ground arith

emit_local_counts-header :
    (e : WasmFunctionEncoder) (o : Output)
    → ((emit_local_counts e o).header ≡ o.header + 8) × ((emit_local_counts e o).body ≡ o.body)
unfolding emit_local_counts emit_bytes u16_bytes
emit_local_counts-header e o = omega arith

-- Serialize moves the header pointer by HeaderSize plus BodySize and leaves the body pointer, for
-- every function whose body is shorter than 4 GB.
pub serialize_function-sizes :
    (e : WasmFunctionEncoder) (o : Output)
    → length e.body < 2 ^ 32
    → ((serialize_function e o).header ≡ o.header + function_header_size e + function_body_size e)
      × ((serialize_function e o).body ≡ o.body)
unfolding serialize_function function_header_size function_body_size emit_bytes u8_bytes u16_bytes
serialize_function-sizes e o h =
    let o₁ = emit_uint16 e.signature_index (emit_uint8 (function_decl_bits e) o) in
    ground (arith, emit_local_counts-header e o₁)

-- Serialize of a data segment moves the header pointer by HeaderSize and the body pointer by BodySize,
-- for every segment shorter than 4 GB.
pub serialize_segment-sizes :
    (s : WasmDataSegmentEncoder) (o : Output)
    → length s.contents < 2 ^ 32
    → ((serialize_segment s o).header ≡ o.header + segment_header_size)
      × ((serialize_segment s o).body ≡ o.body + segment_body_size s)
unfolding serialize_segment segment_body_size emit_bytes emit_body u8_bytes u32_bytes
serialize_segment-sizes s o h = ground arith
