-- ===== src/EncoderExamples.antt =====
-- The theorems on the encoder at concrete inputs.
use mathlib.Core.Option.{some-injective}
use v8_native_prototype.Base.{
  ℕ, ◌≤◌, ◌≡◌, ◌≢◌, ◌⊎◌, inl, inr, refl, sym, ap, ◌∙◌, arith, Bool, true, false, List, [], ◌∷◌,
  ◌++◌, Option, none, some, length, get_elem?, All, ◌==◌, if◌then◌else◌, Bool-cases, not,
}
use v8_native_prototype.Opcodes.Types.{
  FunctionSig, MachineType, ast_i32, mach_none, mach_int8, mach_uint8, mach_int16, mach_uint16,
  mach_int32, mach_uint32, mach_int64, mach_uint64, mach_float32, mach_float64, type_any,
  mach_any_tagged,
}
use v8_native_prototype.Encoder.Function.{new_function_builder}
use v8_native_prototype.Encoder.Sizes.{WasmModuleWriter, sizes_of}
use v8_native_prototype.Encoder.Writer.{write_to, write_output}
use v8_native_prototype.Encoder.Layout.{module_bytes, Fits}
use v8_native_prototype.Encoder.WriteTo.{write_to-module_bytes}
use v8_native_prototype.Encoder.Signatures.{
  compare_function_sigs, Sign, minus_one, is_zero, plus_one, SignatureMap, add_signature,
}
use v8_native_prototype.Encoder.SignatureLaws.{
  Injective, as_bool, compare_function_sigs_same, compare_function_sigs-as_bool, SignatureMapLaws,
  Indexed, empty-Indexed, add_signature-Indexed,
}
use v8_native_prototype.Encoder.Build.{build_body-copies}
use v8_native_prototype.Encoder.Builder.{WasmModuleBuilder, new_module_builder, add_function, build}
use v8_native_prototype.Encoder.BuilderLaws.{Builds, Encodes, build-Encodes}

-- A function without locals and a segment of one byte.
abbrev pub tiny_writer : WasmModuleWriter
tiny_writer = record {
  functions =
      record {
        signature_index = 0;
        params = [];
        local_int32_count = 0;
        local_int64_count = 0;
        local_float32_count = 0;
        local_float64_count = 0;
        exported = true;
        external = false;
        body = 0 ∷ [];
      }
      ∷ [];
  data_segments = record { contents = 5 ∷ []; dest = 0 } ∷ [];
  signatures = record { returns = []; params = [] } ∷ [];
  indirect_functions = 0 ∷ [];
  globals = (mach_int32, true) ∷ [];
}

pub tiny_writer-Fits : Fits tiny_writer
unfolding Fits
tiny_writer-Fits = ((omega arith, _), (omega arith, _), omega arith)

write_to-module_bytes_example :
    ((write_to tiny_writer).buffer ≡ module_bytes tiny_writer)
    × ((write_to tiny_writer).end ≡ length (module_bytes tiny_writer))
    × ((write_output tiny_writer).header ≡ (sizes_of tiny_writer).header_size)
    × ((write_output tiny_writer).body ≡ (write_to tiny_writer).end)
write_to-module_bytes_example = write_to-module_bytes tiny_writer tiny_writer-Fits

-- An order of the machine types.
abbrev rank : MachineType → ℕ
rank mach_none = 0
rank mach_int8 = 1
rank mach_uint8 = 2
rank mach_int16 = 3
rank mach_uint16 = 4
rank mach_int32 = 5
rank mach_uint32 = 6
rank mach_int64 = 7
rank mach_uint64 = 8
rank mach_float32 = 9
rank mach_float64 = 10
rank type_any = 11
rank mach_any_tagged = 12

abbrev unrank : ℕ → MachineType
unrank n =
    if n == 0
    then mach_none
    else if n == 1
    then mach_int8
    else if n == 2
    then mach_uint8
    else if n == 3
    then mach_int16
    else if n == 4
    then mach_uint16
    else if n == 5
    then mach_int32
    else if n == 6
    then mach_uint32
    else if n == 7
    then mach_int64
    else if n == 8
    then mach_uint64
    else if n == 9
    then mach_float32
    else if n == 10
    then mach_float64
    else if n == 11
    then type_any
    else mach_any_tagged

unrank-rank : (type : MachineType) → unrank (rank type) ≡ type
unrank-rank mach_none = refl
unrank-rank mach_int8 = refl
unrank-rank mach_uint8 = refl
unrank-rank mach_int16 = refl
unrank-rank mach_uint16 = refl
unrank-rank mach_int32 = refl
unrank-rank mach_uint32 = refl
unrank-rank mach_int64 = refl
unrank-rank mach_uint64 = refl
unrank-rank mach_float32 = refl
unrank-rank mach_float64 = refl
unrank-rank type_any = refl
unrank-rank mach_any_tagged = refl

rank-Injective : Injective rank
unfolding Injective
rank-Injective x y e = sym (unrank-rank x) ∙ ap unrank e ∙ unrank-rank y

abbrev void_sig : FunctionSig
void_sig = record { returns = []; params = [] }

abbrev int_sig : FunctionSig
int_sig = record { returns = ast_i32 ∷ []; params = [] }

compare_function_sigs-as_bool_example :
    (void_sig ≡ int_sig → as_bool (compare_function_sigs rank void_sig int_sig) ≡ false)
    × (void_sig ≢ int_sig
        → (as_bool (compare_function_sigs rank void_sig int_sig) ≡ true)
          × (as_bool (compare_function_sigs rank int_sig void_sig) ≡ true))
compare_function_sigs-as_bool_example =
    compare_function_sigs-as_bool rank rank-Injective void_sig int_sig

-- A map that is a list of its entries.
abbrev is_key : FunctionSig → FunctionSig → Bool
is_key k k' = not (as_bool (compare_function_sigs rank k k'))

abbrev find_in : FunctionSig → List (FunctionSig × ℕ) → Option ℕ
find_in k [] = none
find_in k ((k', i) ∷ entries) = let rest = find_in k entries in if is_key k k' then some i else rest

abbrev list_map : SignatureMap
list_map = record {
  Map = List (FunctionSig × ℕ);
  empty = [];
  find = find_in;
  assign = λ k i entries. (k, i) ∷ entries;
}

abbrev HasEntry : FunctionSig → ℕ → List (FunctionSig × ℕ) → Type 0
HasEntry k i [] = ⊥
HasEntry k i ((k', j) ∷ entries) = ((k ≡ k') × (i ≡ j)) ⊎ HasEntry k i entries

is_key-zero : (k k' : FunctionSig) → is_key k k' ≡ true → compare_function_sigs rank k k' ≡ is_zero
unfolding as_bool
is_key-zero k k' h = zero_of (compare_function_sigs rank k k') h
  where
    zero_of : (s : Sign) → not (as_bool s) ≡ true → s ≡ is_zero
    zero_of minus_one e = cc
    zero_of is_zero e = refl
    zero_of plus_one e = cc

find_in-HasEntry :
    (k : FunctionSig) (i : ℕ) (entries : List (FunctionSig × ℕ))
    → find_in k entries ≡ some i
    → (k' : FunctionSig) × HasEntry k' i entries × (compare_function_sigs rank k k' ≡ is_zero)
find_in-HasEntry k i [] h = cc
find_in-HasEntry k i ((k', j) ∷ entries) h =
    let tested = λ (b : Bool). if b then some j else find_in k entries in
    elim (Bool-cases (is_key k k')) [
      | inl e ↦
          (k', inl (refl, sym (some-injective j i (ap tested (sym e) ∙ h))), is_key-zero k k' e)
      | inr e ↦
          let (k₁, entry, same) = find_in-HasEntry k i entries (ap tested (sym e) ∙ h) in
          (k₁, inr entry, same)
    ]

list_map_laws : SignatureMapLaws list_map rank
list_map_laws = record {
  Entry = HasEntry;
  empty_entry = λ k i e. e;
  find_entry = find_in-HasEntry;
  assign_entry = λ k k' i v entries e. elim e [
    | inl (same, at) ↦
        inl (ap (compare_function_sigs rank k) (sym same) ∙ compare_function_sigs_same rank k, at)
    | inr old ↦ inr old
  ];
}

add_signature-Indexed_example :
    (get_elem? (add_signature list_map int_sig [] []).1 (add_signature list_map int_sig [] []).0
      ≡ some int_sig)
    × Indexed list_map rank list_map_laws
        (add_signature list_map int_sig [] []).1
        (add_signature list_map int_sig [] []).2
    × ((more : List FunctionSig) × ((add_signature list_map int_sig [] []).1 ≡ [] ++ more)
        × (length more ≤ 1))
add_signature-Indexed_example =
    add_signature-Indexed list_map rank list_map_laws rank-Injective int_sig [] [] (omega arith)
      (empty-Indexed list_map rank list_map_laws)

-- A builder with two functions that are as they were made.
abbrev two_functions : WasmModuleBuilder list_map
unfolding add_function new_module_builder new_function_builder
two_functions = (add_function (add_function (new_module_builder list_map)).1).1

two_functions-Builds : All Builds two_functions.functions
unfolding two_functions add_function new_module_builder new_function_builder Builds
two_functions-Builds =
    let built = build_body-copies new_function_builder refl in ((_, built), ((_, built), _))

build-Encodes_example :
    (w : WasmModuleWriter) × (b' : WasmModuleBuilder list_map) × (build list_map two_functions
      ≡ some (w, b'))
    × Encodes w.signatures two_functions.functions w.functions
    × ((more : List FunctionSig) × (w.signatures ≡ two_functions.signatures ++ more))
    × (w.data_segments ≡ two_functions.data_segments)
    × (w.indirect_functions ≡ two_functions.indirect_functions)
    × (w.globals ≡ two_functions.globals)
    × (b'.signatures ≡ w.signatures)
    × Indexed list_map rank list_map_laws b'.signatures b'.signature_map
unfolding two_functions add_function new_module_builder new_function_builder
build-Encodes_example =
    build-Encodes list_map rank list_map_laws rank-Injective two_functions
      (empty-Indexed list_map rank list_map_laws) two_functions-Builds (omega arith)
