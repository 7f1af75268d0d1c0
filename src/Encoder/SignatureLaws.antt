-- ===== src/Encoder/SignatureLaws.antt =====
-- What CompareFunctionSigs and AddSignature of wasm/encoder.cc do with signatures.
use v8_native_prototype.Base.{
  ℕ, ◌^◌, ◌%◌, ◌<◌, ◌≤◌, ◌≡◌, ◌≢◌, ◌⊎◌, inl, inr, refl, sym, ap, ap₂, subst, ◌∙◌, arith, Bool, true,
  false, List, [], ◌∷◌, ◌++◌, append-nil, some, Option-cases, length, get_elem?,
}
use v8_native_prototype.Opcodes.Types.{FunctionSig, LocalType, MachineType}
use v8_native_prototype.ModuleDecoder.WellFormed.{get_elem?-append}
use v8_native_prototype.Encoder.Signatures.{
  Sign, minus_one, is_zero, plus_one, compare_then, compare_types, compare_function_sigs,
  SignatureMap, add_signature,
}

-- A result of the comparison as the map of the source reads it, which wants a Boolean.
unfoldable pub as_bool : Sign → Bool
as_bool minus_one = true
as_bool is_zero = false
as_bool plus_one = true

-- The order of machine types tells any two apart.
unfoldable pub Injective : (MachineType → ℕ) → Type 0
Injective rank = (x y : MachineType) → rank x ≡ rank y → x ≡ y

compare_then-zero :
    (a b : ℕ) (rest : Sign) → compare_then a b rest ≡ is_zero → (a ≡ b) × (rest ≡ is_zero)
unfolding compare_then
compare_then-zero a b rest h = ground (arith, h)

compare_then_same : (a : ℕ) (rest : Sign) → compare_then a a rest ≡ rest
unfolding compare_then
compare_then_same a rest = ground arith

compare_types-zero :
    (rank : MachineType → ℕ)
    → Injective rank
    → (xs ys : List LocalType) (rest : Sign) → length xs ≡ length ys
    → compare_types rank xs ys rest ≡ is_zero
    → (xs ≡ ys) × (rest ≡ is_zero)
unfolding compare_types Injective
compare_types-zero rank inj [] [] rest l h = (refl, h)
compare_types-zero rank inj [] (y ∷ ys) rest l h = absurd (omega arith)
compare_types-zero rank inj (x ∷ xs) [] rest l h = absurd (omega arith)
compare_types-zero rank inj (x ∷ xs) (y ∷ ys) rest l h =
    let (e, h₁) = compare_then-zero (rank x) (rank y) _ h in
    let (f, h₂) = compare_types-zero rank inj xs ys rest (omega (arith, l)) h₁ in
    (ap₂ (λ u us. u ∷ us) (inj x y e) f, h₂)

compare_types_same :
    (rank : MachineType → ℕ) (xs : List LocalType) (rest : Sign)
    → compare_types rank xs xs rest ≡ rest
unfolding compare_types
compare_types_same rank [] rest = refl
compare_types_same rank (x ∷ xs) rest =
    compare_then_same (rank x) _ ∙ compare_types_same rank xs rest

pub compare_function_sigs-zero :
    (rank : MachineType → ℕ)
    → Injective rank
    → (a b : FunctionSig) → compare_function_sigs rank a b ≡ is_zero
    → a ≡ b
unfolding compare_function_sigs
compare_function_sigs-zero rank inj a b h =
    let (l, h₁) = compare_then-zero (length a.returns) (length b.returns) _ h in
    let (l', h₂) = compare_then-zero (length a.params) (length b.params) _ h₁ in
    let (e, h₃) = compare_types-zero rank inj a.returns b.returns _ l h₂ in
    let (e', _) = compare_types-zero rank inj a.params b.params _ l' h₃ in
    ap₂ (λ xs ys. record { returns = xs; params = ys }) e e'

pub compare_function_sigs_same :
    (rank : MachineType → ℕ) (a : FunctionSig) → compare_function_sigs rank a a ≡ is_zero
unfolding compare_function_sigs
compare_function_sigs_same rank a =
    compare_then_same (length a.returns) _
    ∙ compare_then_same (length a.params) _
    ∙ compare_types_same rank a.returns _
    ∙ compare_types_same rank a.params is_zero

-- Where the order of machine types tells any two apart, CompareFunctionSigs, read as a Boolean, holds of
-- two signatures exactly when they are different, and so in both directions at once.
pub compare_function_sigs-as_bool :
    (rank : MachineType → ℕ)
    → Injective rank
    → (a b : FunctionSig)
    → (a ≡ b → as_bool (compare_function_sigs rank a b) ≡ false)
      × (a ≢ b
          → (as_bool (compare_function_sigs rank a b) ≡ true)
            × (as_bool (compare_function_sigs rank b a) ≡ true))
unfolding as_bool
compare_function_sigs-as_bool rank inj a b = (
  λ e.
      subst (λ x. as_bool (compare_function_sigs rank a x) ≡ false) e
        (ap as_bool (compare_function_sigs_same rank a)),
  λ n. (
    not_zero (compare_function_sigs rank a b) (λ h. n (compare_function_sigs-zero rank inj a b h)),
    not_zero (compare_function_sigs rank b a)
        (λ h. n (sym (compare_function_sigs-zero rank inj b a h))),
  ),
)
  where
    not_zero : (s : Sign) → s ≢ is_zero → as_bool s ≡ true
    not_zero minus_one h = refl
    not_zero is_zero h = absurd (h refl)
    not_zero plus_one h = refl

-- What a map of V8 does, by its contents: `find` gives the value of an entry whose key compares as equal,
-- where it gives one, and `assign` leaves no other entry behind than those that were there and one
-- with the value, under a key that compares as equal.
pub record SignatureMapLaws (m : SignatureMap) (rank : MachineType → ℕ) : Type 1 where
  pub Entry : FunctionSig → ℕ → m.Map → Type 0
  pub empty_entry : (k : FunctionSig) (i : ℕ) → Entry k i m.empty → ⊥
  pub find_entry :
      (k : FunctionSig) (i : ℕ) (map : m.Map)
      → m.find k map ≡ some i
      → (k' : FunctionSig) × Entry k' i map × (compare_function_sigs rank k k' ≡ is_zero)
  pub assign_entry :
      (k k' : FunctionSig) (i v : ℕ) (map : m.Map)
      → Entry k i (m.assign k' v map)
      → ((compare_function_sigs rank k k' ≡ is_zero) × (i ≡ v)) ⊎ Entry k i map

module _ (m : SignatureMap) (rank : MachineType → ℕ) (laws : SignatureMapLaws m rank) where
  -- Every entry of the map is the index of its signature.
  unfoldable pub Indexed : List FunctionSig → m.Map → Type 0
  Indexed signatures map =
      (k : FunctionSig) (i : ℕ) → laws.Entry k i map → get_elem? signatures i ≡ some k

  pub empty-Indexed : Indexed [] m.empty
  unfolding Indexed
  empty-Indexed k i e = absurd (laws.empty_entry k i e)

  get_elem?-last {ℓ} :
      {A : Type ℓ} (xs : List A) (x : A) → get_elem? (xs ++ (x ∷ [])) (length xs) ≡ some x
  get_elem?-last [] x = refl
  get_elem?-last (z ∷ xs) x = get_elem?-last xs x

  module _ (inj : Injective rank) where
    -- Where the map keeps its laws (which the standard promises only for a strict weak ordering) and the
    -- order of machine types tells any two apart, AddSignature on a map whose entries are indices of
    -- their signatures, with fewer than 65536 signatures, gives an index of the signature, adds at most
    -- one signature at the end, and keeps every entry of the map an index of its signature.
    pub add_signature-Indexed :
        (sig : FunctionSig) (signatures : List FunctionSig) (map : m.Map)
        → length signatures < 2 ^ 16
        → Indexed signatures map
        → let (index, signatures', map') = add_signature m sig signatures map in
          (get_elem? signatures' index ≡ some sig)
          × Indexed signatures' map'
          × ((more : List FunctionSig) × (signatures' ≡ signatures ++ more) × (length more ≤ 1))
    unfolding Indexed add_signature
    add_signature-Indexed sig signatures map small h = elim (Option-cases (m.find sig map)) [
      | inl e ↦
          rw (e, add_signature)
            (
              (ap (get_elem? (signatures ++ (sig ∷ []))) (below (length signatures) small)
                  ∙ get_elem?-last signatures sig),
              (λ k i entry.
                  elim (laws.assign_entry k sig i (length signatures % 2 ^ 16) map entry) [
                    | inl (same, at) ↦
                        ap (get_elem? (signatures ++ (sig ∷ [])))
                          (at ∙ below (length signatures) small)
                        ∙ get_elem?-last signatures sig
                        ∙ ap some (sym (compare_function_sigs-zero rank inj k sig same))
                    | inr old ↦ get_elem?-append signatures (sig ∷ []) i k (h k i old)
                  ]),
              (sig ∷ [], refl, omega arith),
            )
      | inr (index, e) ↦
          let (k, entry, same) = laws.find_entry sig index map e in
          rw (e, add_signature)
            (
              (h k index entry ∙ ap some (sym (compare_function_sigs-zero rank inj sig k same))),
              h,
              ([], sym (append-nil signatures), omega arith),
            )
    ]
      where
        below : (n : ℕ) → n < 2 ^ 16 → n % 2 ^ 16 ≡ n
        below n k = omega arith
