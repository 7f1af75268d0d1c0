-- ===== src/Instantiate/Globals.antt =====
-- AllocateGlobalsOffsets and BuildFunctionTable of wasm/wasm-module.cc, and WasmOpcodes::MemSize of
-- wasm/wasm-opcodes.h. The size of a machine type is V8's ElementSizeOf, the parameter `size_of`. A
-- FixedArray is a list; an element that is not set is `none`.
use v8_native_prototype.Base.{
  ℕ, ◌+◌, ◌-◌, ◌^◌, ◌%◌, bit_and, List, [], ◌∷◌, ◌++◌, Option, none, some, length, get_elem?,
  replicate, ◌>>=◌,
}
use v8_native_prototype.Opcodes.Types.{MachineType}
use v8_native_prototype.WasmModule.Types.{WasmFunction, WasmGlobal, WasmModule}

-- A byte.
unfoldable pub mem_size : (MachineType → ℕ) → MachineType → ℕ
mem_size size_of type = size_of type % 2 ^ 8

-- `(offset + size - 1) & ~(size - 1)` on a uint32_t, where `size` is a byte.
unfoldable pub align_up : ℕ → ℕ → ℕ
align_up offset size =
    let minus_one = 2 ^ 32 - 1 in
    let mask = minus_one - (size + minus_one) % 2 ^ 32 in
    bit_and ((offset + size + minus_one) % 2 ^ 32) mask

-- The loop of AllocateGlobalsOffsets from an offset on: the globals, and the offset behind them.
unfoldable pub allocate_from : (MachineType → ℕ) → ℕ → List WasmGlobal → List WasmGlobal × ℕ
allocate_from size_of offset [] = ([], offset)
allocate_from size_of offset (g ∷ gs) =
    let size = mem_size size_of g.type in
    let offset₁ = align_up offset size in
    let (gs₁, end) = allocate_from size_of ((offset₁ + size) % 2 ^ 32) gs in
    (record g { offset = offset₁ } ∷ gs₁, end)

-- AllocateGlobalsOffsets on a list that is there.
unfoldable pub allocate_globals_offsets : (MachineType → ℕ) → List WasmGlobal → List WasmGlobal × ℕ
allocate_globals_offsets size_of globals = allocate_from size_of 0 globals

-- The loop of BuildFunctionTable; `none` where at() would throw.
unfoldable pub table_sigs : List WasmFunction → List ℕ → Option (List (Option ℕ))
table_sigs functions [] = some []
table_sigs functions (index ∷ table) = do
  f ← get_elem? functions index
  rest ← table_sigs functions table
  some (some f.sig_index ∷ rest)

-- BuildFunctionTable: the indices of the signatures, and as many elements more. An empty table gives a
-- null handle, here an array of length 0.
unfoldable pub build_function_table : WasmModule → Option (List (Option ℕ))
build_function_table m = do
  sigs ← table_sigs m.functions m.function_table
  some (sigs ++ replicate (length m.function_table) none)
