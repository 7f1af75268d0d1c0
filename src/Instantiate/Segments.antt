-- ===== src/Instantiate/Segments.antt =====
-- LoadDataSegments of wasm/wasm-module.cc. The linear memory is a list of bytes, and so is the memory
-- that module_start points into; a failed CHECK ends the process, here with `none`.
use v8_native_prototype.Base.{
  ℕ, zero, suc, ◌+◌, ◌^◌, ◌%◌, ◌&&◌, List, [], ◌∷◌, Option, none, some, length, get_or, ltb, leb,
  if◌then◌else◌, ◌>>=◌,
}
use v8_native_prototype.WasmModule.Types.{WasmDataSegment, WasmModule}
use v8_native_prototype.Encoder.Emit.{store}

-- The n bytes of a memory from an address on.
unfoldable pub bytes_at : List ℕ → ℕ → ℕ → List ℕ
bytes_at mem p zero = []
bytes_at mem p (suc n) = get_or mem p 0 ∷ bytes_at mem (p + 1) n

-- One round of the loop: the three CHECKs, of which the last adds two uint32_t, and memcpy.
unfoldable pub load_segment : List ℕ → ℕ → WasmDataSegment → List ℕ → Option (List ℕ)
unfolding store
load_segment bytes module_start s mem =
    let mem_size = length mem in
    if ltb s.dest_addr mem_size
      && leb s.source_size mem_size
      && leb ((s.dest_addr + s.source_size) % 2 ^ 32) mem_size
    then some
        (store mem s.dest_addr (bytes_at bytes (module_start + s.source_offset) s.source_size))
    else none

-- The loop over the segments, which skips those without `init`.
unfoldable pub load_segments : List ℕ → ℕ → List WasmDataSegment → List ℕ → Option (List ℕ)
load_segments bytes module_start [] mem = some mem
load_segments bytes module_start (s ∷ ss) mem = do
  mem₁ ← if s.init then load_segment bytes module_start s mem else some mem
  load_segments bytes module_start ss mem₁

unfoldable pub load_data_segments : List ℕ → WasmModule → List ℕ → Option (List ℕ)
load_data_segments bytes m mem = load_segments bytes m.module_start m.data_segments mem
