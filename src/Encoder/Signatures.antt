-- ===== src/Encoder/Signatures.antt =====
-- CompareFunctionSigs and AddSignature of wasm/encoder.cc. The order of machine types is V8's; it stands
-- in `rank`. The map is a ZoneMap of V8, with the operations that AddSignature calls.
use v8_native_prototype.Base.{
  ℕ, ◌^◌, ◌%◌, List, [], ◌∷◌, ◌++◌, Option, none, some, length, ltb, if◌then◌else◌,
}
use v8_native_prototype.Opcodes.Types.{FunctionSig, LocalType, MachineType}

-- The int that the comparison returns: -1, 0 or 1.
pub data Sign : Type 0 where
  minus_one is_zero plus_one : Sign

-- The lines `if (a < b) return -1; if (a > b) return 1;`, and what comes after.
unfoldable pub compare_then : ℕ → ℕ → Sign → Sign
compare_then a b rest = if ltb a b then minus_one else if ltb b a then plus_one else rest

-- A loop of the comparison over rows of the same length, and what comes after.
unfoldable pub compare_types : (MachineType → ℕ) → List LocalType → List LocalType → Sign → Sign
compare_types rank [] bs rest = rest
compare_types rank (a ∷ rs) [] rest = rest
compare_types rank (a ∷ rs) (b ∷ bs) rest =
    compare_then (rank a) (rank b) (compare_types rank rs bs rest)

unfoldable pub compare_function_sigs : (MachineType → ℕ) → FunctionSig → FunctionSig → Sign
compare_function_sigs rank a b = compare_then (length a.returns) (length b.returns) (
    compare_then (length a.params) (length b.params)
      (compare_types rank a.returns b.returns (compare_types rank a.params b.params is_zero)))

-- What AddSignature uses of its map.
pub record SignatureMap : Type 1 where
  pub Map : Type 0
  pub empty : Map
  pub find : FunctionSig → Map → Option ℕ
  pub assign : FunctionSig → ℕ → Map → Map

-- AddSignature on the signatures and the map; the index is a uint16_t.
unfoldable pub add_signature :
    (m : SignatureMap) → FunctionSig → List FunctionSig → m.Map → ℕ × List FunctionSig × m.Map
add_signature m sig signatures map = elim (m.find sig map) [
  | some index ↦ (index, signatures, map)
  | none ↦
      let index = length signatures % 2 ^ 16 in
      (index, signatures ++ (sig ∷ []), m.assign sig index map)
]
