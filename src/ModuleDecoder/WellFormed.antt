-- ===== src/ModuleDecoder/WellFormed.antt =====
-- What a decoded module should satisfy, so that its users may follow the indices and offsets in it.
use v8_native_prototype.Base.{
  ℕ, zero, suc, ◌≤◌, ◌<◌, ◌≡◌, Bool, true, false, List, [], ◌∷◌, ◌++◌, some, length, get_elem?, All,
}
use v8_native_prototype.Opcodes.Types.{LocalType, FunctionSig, ast_i32, ast_i64, ast_f32, ast_f64}
use v8_native_prototype.WasmModule.Types.{WasmFunction, WasmGlobal, WasmDataSegment, WasmModule}

-- The types of values; the type of statements is none of them.
abbrev pub is_value_type : LocalType → Bool
is_value_type ast_i32 = true
is_value_type ast_i64 = true
is_value_type ast_f32 = true
is_value_type ast_f64 = true
is_value_type _ = false

abbrev pub IsValueType : LocalType → Type 0
IsValueType t = is_value_type t ≡ true

-- At most one result, and nothing but values.
pub record SigIsValid (s : FunctionSig) : Type 0 where
  pub one_return : length s.returns ≤ 1
  pub returns_valid : All IsValueType s.returns
  pub params_valid : All IsValueType s.params

-- The function has the signature that its index names, and its name and code lie in the module.
pub record FunctionIsValid (sigs : List FunctionSig) (size : ℕ) (f : WasmFunction) : Type 0 where
  pub signature : FunctionSig
  pub has_sig : f.sig ≡ some signature
  pub sig_in_table : get_elem? sigs f.sig_index ≡ some signature
  pub code_in_order : f.code_start_offset ≤ f.code_end_offset
  pub code_in_module : f.code_end_offset ≤ size
  pub name_in_module : f.name_offset ≤ size

abbrev pub GlobalIsValid : ℕ → WasmGlobal → Type 0
GlobalIsValid size g = g.name_offset ≤ size

abbrev pub SegmentIsValid : ℕ → WasmDataSegment → Type 0
SegmentIsValid size s = s.source_offset ≤ size

-- For a module of `size` bytes.
pub record ModuleIsValid (size : ℕ) (m : WasmModule) : Type 0 where
  pub signatures : All SigIsValid m.signatures
  pub functions : All (FunctionIsValid m.signatures size) m.functions
  pub globals : All (GlobalIsValid size) m.globals
  pub segments : All (SegmentIsValid size) m.data_segments
  pub table : All (λ i. i < length m.functions) m.function_table

pub get_elem?-append {ℓ} :
    {A : Type ℓ} (xs ys : List A) (i : ℕ) (a : A)
    → get_elem? xs i ≡ some a
    → get_elem? (xs ++ ys) i ≡ some a
get_elem?-append [] ys i a h = cc
get_elem?-append (x ∷ xs) ys zero a h = h
get_elem?-append (x ∷ xs) ys (suc i) a h = get_elem?-append xs ys i a h

pub All-map {ℓ κ} :
    {A : Type ℓ} (P Q : A → Type κ) (xs : List A) → ((a : A) → P a → Q a) → All P xs → All Q xs
All-map P Q [] f h = h
All-map P Q (x ∷ xs) f h = (f x h.0, All-map P Q xs f h.1)

-- A function stays valid when the signature table grows at its end.
pub FunctionIsValid-append :
    (sigs more : List FunctionSig) (size : ℕ) (f : WasmFunction)
    → FunctionIsValid sigs size f
    → FunctionIsValid (sigs ++ more) size f
FunctionIsValid-append sigs more size f v = record {
  signature = v.signature;
  has_sig = v.has_sig;
  code_in_order = v.code_in_order;
  code_in_module = v.code_in_module;
  name_in_module = v.name_in_module;
  sig_in_table = get_elem?-append sigs more f.sig_index v.signature v.sig_in_table;
}
