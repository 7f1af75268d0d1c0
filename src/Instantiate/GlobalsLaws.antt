-- ===== src/Instantiate/GlobalsLaws.antt =====
-- Where AllocateGlobalsOffsets (wasm/wasm-module.cc) puts the globals.
use v8_native_prototype.Base.{
  ℕ, ◌+◌, ◌-◌, ◌*◌, ◌^◌, ◌%◌, ◌<◌, ◌≤◌, ◌≡◌, refl, ap₂, arith, ◌⊎◌, inl, inr, bit_and, List, [],
  ◌∷◌, length,
}
use v8_native_prototype.Base.Bits.{bit_and_not_0, bit_and_not_1, bit_and_not_3, bit_and_not_7}
use v8_native_prototype.Opcodes.Types.{MachineType}
use v8_native_prototype.WasmModule.Types.{WasmGlobal}
use v8_native_prototype.Instantiate.Globals.{
  mem_size, align_up, allocate_from, allocate_globals_offsets,
}

-- A size that a machine type may have: 1, 2, 4 or 8 bytes.
abbrev pub ElementSize : ℕ → Type 0
ElementSize size = (size ≡ 1) ⊎ (size ≡ 2) ⊎ (size ≡ 4) ⊎ (size ≡ 8)

-- The globals of a list with their offsets filled in: each at the first multiple of its size that is not
-- below `start`, and the others behind its last byte; nothing else is changed. They end at `end`.
unfoldable pub Laid : (MachineType → ℕ) → ℕ → List WasmGlobal → List WasmGlobal → ℕ → Type 0
Laid size_of start [] [] end = start ≡ end
Laid size_of start (g ∷ gs) (h ∷ hs) end =
    (h ≡ record g { offset = h.offset })
    × (start ≤ h.offset)
    × (h.offset < start + size_of g.type)
    × (h.offset % size_of g.type ≡ 0)
    × Laid size_of (h.offset + size_of g.type) gs hs end
Laid size_of start _ _ end = ⊥

-- The two operands of the mask.
align_up_operands :
    (offset size : ℕ)
    → 0 < size
    → size ≤ 8
    → offset + size < 2 ^ 32
    → align_up offset size ≡ bit_and (offset + (size - 1)) (2 ^ 32 - size)
unfolding align_up
align_up_operands offset size pos small h = ap₂ bit_and (omega arith) (omega arith)

align_up_lem :
    (offset size : ℕ)
    → ElementSize size
    → offset + size < 2 ^ 32
    → (offset ≤ align_up offset size)
      × (align_up offset size < offset + size)
      × (align_up offset size % size ≡ 0)
align_up_lem offset size (inl e) h = rw e (
    omega (
      arith,
      align_up_operands offset 1 (omega arith) (omega arith) (omega arith),
      bit_and_not_0 (offset + 0) (omega arith),
    ))
align_up_lem offset size (inr (inl e)) h = rw e (
    omega (
      arith,
      align_up_operands offset 2 (omega arith) (omega arith) (omega arith),
      bit_and_not_1 (offset + 1) (omega arith),
    ))
align_up_lem offset size (inr (inr (inl e))) h = rw e (
    omega (
      arith,
      align_up_operands offset 4 (omega arith) (omega arith) (omega arith),
      bit_and_not_3 (offset + 3) (omega arith),
    ))
align_up_lem offset size (inr (inr (inr e))) h = rw e (
    omega (
      arith,
      align_up_operands offset 8 (omega arith) (omega arith) (omega arith),
      bit_and_not_7 (offset + 7) (omega arith),
    ))

ElementSize-byte : (size : ℕ) → ElementSize size → (size % 2 ^ 8 ≡ size) × (size ≤ 8)
ElementSize-byte size h = ground (arith, h)

allocate_from-Laid :
    (size_of : MachineType → ℕ) (sized : (type : MachineType) → ElementSize (size_of type))
    (gs : List WasmGlobal) (start : ℕ)
    → start + 16 * length gs < 2 ^ 32
    → let (hs, end) = allocate_from size_of start gs in
      Laid size_of start gs hs end × (end ≤ start + 16 * length gs)
unfolding allocate_from Laid mem_size
allocate_from-Laid size_of sized [] start h = (refl, omega arith)
allocate_from-Laid size_of sized (g ∷ gs) start h =
    let size = size_of g.type in
    let byte = ElementSize-byte size (sized g.type) in
    let up = align_up_lem start size (sized g.type) (omega (arith, byte)) in
    let next = align_up start size + size in
    let rest = allocate_from-Laid size_of sized gs next (omega (arith, byte, up)) in
    rw (byte.0, wraps next (omega (arith, byte, up)))
      ((refl, up.0, up.1, up.2, rest.0), omega (arith, rest.1, up, byte))
  where
    wraps : (x : ℕ) → x < 2 ^ 32 → x % 2 ^ 32 ≡ x
    wraps x k = omega arith

-- Where every machine type takes 1, 2, 4 or 8 bytes and there are fewer than 2^28 globals,
-- AllocateGlobalsOffsets puts each global at the first multiple of its size that is not below the
-- end of the one before (the first at 0), changes nothing else of it, and returns the end of the
-- last; so no two globals overlap and all lie within the size that it returns.
pub allocate_globals_offsets-Laid :
    (size_of : MachineType → ℕ) (sized : (type : MachineType) → ElementSize (size_of type))
    (globals : List WasmGlobal)
    → length globals < 2 ^ 28
    → let (placed, end) = allocate_globals_offsets size_of globals in
      Laid size_of 0 globals placed end × (end ≤ 16 * length globals)
unfolding allocate_globals_offsets
allocate_globals_offsets-Laid size_of sized globals h =
    let all = allocate_from-Laid size_of sized globals 0 (omega arith) in
    (all.0, omega (arith, all.1))
