-- ===== src/Instantiate/TableLaws.antt =====
-- What BuildFunctionTable (wasm/wasm-module.cc) puts into the table.
use mathlib.Core.Option.{some-injective}
use v8_native_prototype.Base.{
  get_elem?-bound, ℕ, zero, suc, ◌+◌, ◌*◌, ◌<◌, ◌≡◌, refl, sym, ap, ◌∙◌, arith, List, [], ◌∷◌, ◌++◌,
  Option, none, some, length, length-append, length-replicate, get_elem?, replicate, All, bind-some,
  bind-inv,
}
use v8_native_prototype.WasmModule.Types.{WasmFunction, WasmModule}
use v8_native_prototype.ModuleDecoder.WellFormed.{get_elem?-append}
use v8_native_prototype.Instantiate.Globals.{table_sigs, build_function_table}

function_at :
    (fs : List WasmFunction) (i : ℕ)
    → i < length fs
    → (f : WasmFunction) × (get_elem? fs i ≡ some f)
function_at [] i h = absurd (omega arith)
function_at (f ∷ fs) zero h = (f, refl)
function_at (f ∷ fs) (suc i) h = function_at fs i (omega arith)

table_sigs_lem :
    (fs : List WasmFunction) (table : List ℕ)
    → All (λ i. i < length fs) table
    → (sigs : List (Option ℕ)) × (table_sigs fs table ≡ some sigs) × (length sigs ≡ length table)
unfolding table_sigs
table_sigs_lem fs [] h = ([], refl, refl)
table_sigs_lem fs (x ∷ table) h =
    let (f, e) = function_at fs x h.0 in
    let (sigs, g, l) = table_sigs_lem fs table h.1 in
    (
      some f.sig_index ∷ sigs,
      bind-some (get_elem? fs x) f _ e ∙ bind-some (table_sigs fs table) sigs _ g,
      ap suc l,
    )

table_sigs-get_elem? :
    (fs : List WasmFunction) (table : List ℕ) (sigs : List (Option ℕ)) (i index : ℕ)
    (f : WasmFunction)
    → table_sigs fs table ≡ some sigs
    → get_elem? table i ≡ some index
    → get_elem? fs index ≡ some f
    → get_elem? sigs i ≡ some (some f.sig_index)
unfolding table_sigs
table_sigs-get_elem? fs [] sigs i index f h e g = cc
table_sigs-get_elem? fs (x ∷ table) sigs zero index f h e g =
    let (f₁, e₁, h₁) = bind-inv (get_elem? fs x) sigs _ h in
    let (rest, e₂, h₂) = bind-inv (table_sigs fs table) sigs _ h₁ in
    let same = some-injective f₁ f (sym e₁ ∙ ap (get_elem? fs) (some-injective x index e) ∙ g) in
    ap (λ xs. get_elem? xs 0) (sym (some-injective _ _ h₂))
    ∙ ap (λ (u : WasmFunction). some (some u.sig_index)) same
table_sigs-get_elem? fs (x ∷ table) sigs (suc i) index f h e g =
    let (f₁, e₁, h₁) = bind-inv (get_elem? fs x) sigs _ h in
    let (rest, e₂, h₂) = bind-inv (table_sigs fs table) sigs _ h₁ in
    ap (λ xs. get_elem? xs (suc i)) (sym (some-injective _ _ h₂))
    ∙ table_sigs-get_elem? fs table rest i index f e₂ e g

get_elem?-behind {ℓ} :
    {A : Type ℓ} (xs ys : List A) (i : ℕ) → get_elem? (xs ++ ys) (length xs + i) ≡ get_elem? ys i
get_elem?-behind [] ys i = ap (get_elem? ys) (no_length i)
  where
    no_length : (i : ℕ) → 0 + i ≡ i
    no_length i = omega arith
get_elem?-behind (x ∷ xs) ys i =
    ap (get_elem? (x ∷ (xs ++ ys))) (one_more (length xs) i) ∙ get_elem?-behind xs ys i
  where
    one_more : (n i : ℕ) → suc n + i ≡ suc (n + i)
    one_more n i = omega arith

get_elem?-replicate {ℓ} :
    {A : Type ℓ} (n i : ℕ) (a : A) → i < n → get_elem? (replicate n a) i ≡ some a
get_elem?-replicate zero i a h = absurd (omega arith)
get_elem?-replicate (suc n) zero a h = refl
get_elem?-replicate (suc n) (suc i) a h = get_elem?-replicate n i a (omega arith)

-- For a module whose table has only indices of functions, BuildFunctionTable gives an array of twice the
-- size of the table: at each index i of the table it has the signature index of the function at entry
-- i, and the element as far behind it as the table is long is not set yet.
pub build_function_table_lem :
    (m : WasmModule) (i index : ℕ) (f : WasmFunction)
    → All (λ k. k < length m.functions) m.function_table
    → get_elem? m.function_table i ≡ some index
    → get_elem? m.functions index ≡ some f
    → (fixed : List (Option ℕ)) × (build_function_table m ≡ some fixed)
      × (length fixed ≡ 2 * length m.function_table)
      × (get_elem? fixed i ≡ some (some f.sig_index))
      × (get_elem? fixed (length m.function_table + i) ≡ some none)
unfolding build_function_table
build_function_table_lem m i index f below e g =
    let n = length m.function_table in
    let (sigs, h, l) = table_sigs_lem m.functions m.function_table below in
    let free : List (Option ℕ) = replicate n none in
    (
      sigs ++ free,
      bind-some (table_sigs m.functions m.function_table) sigs _ h,
      omega (arith, l, length-append sigs free, length-replicate {A = Option ℕ} n none),
      get_elem?-append sigs free i (some f.sig_index)
          (table_sigs-get_elem? m.functions m.function_table sigs i index f h e g),
      ap (λ k. get_elem? (sigs ++ free) (k + i)) (sym l)
          ∙ get_elem?-behind sigs free i
          ∙ get_elem?-replicate n i none (get_elem?-bound m.function_table i index e),
    )
