-- ===== src/Linkage/Apart.antt =====
-- That the places of different parameters do not overlap (wasm/wasm-linkage.cc).
use v8_native_prototype.Base.{
  get_elem?-end, ℕ, zero, suc, ◌+◌, ◌≤◌, ◌<◌, ◌≡◌, inl, inr, refl, sym, ap, subst, ◌∙◌, arith, true,
  false, Bool-cases, Option-cases, List, [], ◌∷◌, ◌++◌, append-nil, append_assoc, some, length,
  length-append, get_elem?, drop, drop-nil,
}
use v8_native_prototype.Opcodes.Types.{LocalType}
use v8_native_prototype.Linkage.Registers.{Register, DoubleRegister}
use v8_native_prototype.Linkage.Distinct.{gp_param_registers_differ, fp_param_registers_differ}
use v8_native_prototype.Linkage.Alloc.{
  Target, CallDescriptor, get_wasm_call_descriptor, is_floating_point, words,
}
use v8_native_prototype.Linkage.Placement.{
  Registers, param_registers, floats, ints, words_of, stack_words, Place, place, location,
  locations, in_gp, in_fp, on_stack, Apart, Within,
}
use v8_native_prototype.Linkage.Refines.{get_wasm_call_descriptor_places}
use v8_native_prototype.Linkage.OneParam.{floats-snoc, ints-snoc, words_of-drop_past}

floats-append : (xs ys : List LocalType) → floats (xs ++ ys) ≡ floats xs ++ floats ys
unfolding floats
floats-append [] ys = refl
floats-append (x ∷ xs) ys = ground (arith, floats-append xs ys)

ints-append : (xs ys : List LocalType) → ints (xs ++ ys) ≡ ints xs ++ ints ys
unfolding ints
ints-append [] ys = refl
ints-append (x ∷ xs) ys = ground (arith, ints-append xs ys)

-- More values take no fewer words.
words_of-drop_append :
    (t : Target) (n : ℕ) (xs ys : List LocalType)
    → words_of t (drop n xs) ≤ words_of t (drop n (xs ++ ys))
unfolding words_of
words_of-drop_append t n [] ys = rw (drop-nil {A = LocalType} n) (omega arith)
words_of-drop_append t zero (x ∷ xs) ys = omega (arith, words_of-drop_append t 0 xs ys)
words_of-drop_append t (suc n) (x ∷ xs) ys = words_of-drop_append t n xs ys

stack_words-append :
    (t : Target) (regs : Registers) (xs ys : List LocalType)
    → stack_words t regs xs ≤ stack_words t regs (xs ++ ys)
unfolding stack_words
stack_words-append t regs xs ys =
    rw (floats-append xs ys, ints-append xs ys)
      (omega (
        arith,
        words_of-drop_append t (length regs.gp) (ints xs) (ints ys),
        words_of-drop_append t (length regs.fp) (floats xs) (floats ys),
      ))

fp_full-stack_words :
    (t : Target) (regs : Registers) (earlier : List LocalType) (type : LocalType)
    → is_floating_point type ≡ true
    → length regs.fp ≤ length (floats earlier)
    → stack_words t regs (earlier ++ (type ∷ [])) ≡ stack_words t regs earlier + words t type
unfolding stack_words
fp_full-stack_words t regs earlier type fl h = ground (
  arith,
  floats-snoc earlier type,
  ints-snoc earlier type,
  words_of-drop_past t (length regs.fp) (floats earlier) type h,
)

gp_full-stack_words :
    (t : Target) (regs : Registers) (earlier : List LocalType) (type : LocalType)
    → is_floating_point type ≡ false
    → length regs.gp ≤ length (ints earlier)
    → stack_words t regs (earlier ++ (type ∷ [])) ≡ stack_words t regs earlier + words t type
unfolding stack_words
gp_full-stack_words t regs earlier type fl h = ground (
  arith,
  floats-snoc earlier type,
  ints-snoc earlier type,
  words_of-drop_past t (length regs.gp) (ints earlier) type h,
)

-- The three kinds of place, with what is known of each.
data PlaceCase (t : Target) (regs : Registers) (earlier : List LocalType) (type : LocalType)
    : Place → Type 0 where
  gp_case :
      (r : Register)
      → is_floating_point type ≡ false
      → get_elem? regs.gp (length (ints earlier)) ≡ some r
      → PlaceCase t regs earlier type (in_gp r)
  fp_case :
      (r : DoubleRegister)
      → is_floating_point type ≡ true
      → get_elem? regs.fp (length (floats earlier)) ≡ some r
      → PlaceCase t regs earlier type (in_fp r)
  stack_case :
      stack_words t regs (earlier ++ (type ∷ [])) ≡ stack_words t regs earlier + words t type
      → PlaceCase t regs earlier type (on_stack (stack_words t regs earlier) (words t type))

place-PlaceCase :
    (t : Target) (regs : Registers) (earlier : List LocalType) (type : LocalType)
    → PlaceCase t regs earlier type (place t regs earlier type)
unfolding place
place-PlaceCase t regs earlier type = elim (Bool-cases (is_floating_point type)) [
  | inl fl ↦ elim (Option-cases (get_elem? regs.fp (length (floats earlier)))) [
    | inl e ↦
        rw (fl, e)
          (stack_case (fp_full-stack_words t regs earlier type fl (get_elem?-end regs.fp _ e)))
    | inr (r, e) ↦ rw (fl, e) (fp_case r fl e)
  ]
  | inr fl ↦ elim (Option-cases (get_elem? regs.gp (length (ints earlier)))) [
    | inl e ↦
        rw (fl, e)
          (stack_case (gp_full-stack_words t regs earlier type fl (get_elem?-end regs.gp _ e)))
    | inr (r, e) ↦ rw (fl, e) (gp_case r fl e)
  ]
]

-- Values of one class in front of a value are fewer than those in front of a later one.
floats-further :
    (pre mid : List LocalType) (u : LocalType)
    → is_floating_point u ≡ true
    → length (floats pre) < length (floats (pre ++ (u ∷ mid)))
unfolding floats
floats-further pre mid u h = rw (floats-append pre (u ∷ mid), h, length-append) (omega arith)

ints-further :
    (pre mid : List LocalType) (u : LocalType)
    → is_floating_point u ≡ false
    → length (ints pre) < length (ints (pre ++ (u ∷ mid)))
unfolding ints
ints-further pre mid u h = rw (ints-append pre (u ∷ mid), h, length-append) (omega arith)

-- The words of a value end in front of those of a later one.
stack_words-further :
    (t : Target) (regs : Registers) (pre mid : List LocalType) (u : LocalType)
    → stack_words t regs (pre ++ (u ∷ [])) ≤ stack_words t regs (pre ++ (u ∷ mid))
stack_words-further t regs pre mid u =
    subst (λ ts. stack_words t regs (pre ++ (u ∷ [])) ≤ stack_words t regs ts)
      (append_assoc pre (u ∷ []) mid) (stack_words-append t regs (pre ++ (u ∷ [])) mid)

PlaceCase-Apart :
    (t : Target) (pre mid : List LocalType) (u w : LocalType) {p q : Place}
    → PlaceCase t (param_registers t.architecture) pre u p
    → PlaceCase t (param_registers t.architecture) (pre ++ (u ∷ mid)) w q
    → Apart p q
unfolding Apart param_registers
PlaceCase-Apart t pre mid u w (gp_case r f e) (gp_case s g k) =
    gp_param_registers_differ t.architecture _ _ r s (ints-further pre mid u f) e k
PlaceCase-Apart t pre mid u w (gp_case r f e) (fp_case s g k) = _
PlaceCase-Apart t pre mid u w (gp_case r f e) (stack_case k) = _
PlaceCase-Apart t pre mid u w (fp_case r f e) (gp_case s g k) = _
PlaceCase-Apart t pre mid u w (fp_case r f e) (fp_case s g k) =
    fp_param_registers_differ t.architecture _ _ r s (floats-further pre mid u f) e k
PlaceCase-Apart t pre mid u w (fp_case r f e) (stack_case k) = _
PlaceCase-Apart t pre mid u w (stack_case e) (gp_case s g k) = _
PlaceCase-Apart t pre mid u w (stack_case e) (fp_case s g k) = _
PlaceCase-Apart t pre mid u w (stack_case e) (stack_case k) =
    inl (omega (arith, stack_words-further t (param_registers t.architecture) pre mid u))

PlaceCase-Within :
    (t : Target) (regs : Registers) (pre post : List LocalType) (u : LocalType) {p : Place}
    → PlaceCase t regs pre u p
    → Within (stack_words t regs (pre ++ (u ∷ post))) p
unfolding Within
PlaceCase-Within t regs pre post u (gp_case r f e) = _
PlaceCase-Within t regs pre post u (fp_case r f e) = _
PlaceCase-Within t regs pre post u (stack_case e) =
    omega (arith, stack_words-further t regs pre post u)

-- The location of a value in a row.
get_elem?-locations :
    (t : Target) (regs : Registers) (earlier pre post : List LocalType) (u : LocalType)
    → get_elem? (locations t regs earlier (pre ++ (u ∷ post))) (length pre)
      ≡ some (location t (place t regs (earlier ++ pre) u))
unfolding locations
get_elem?-locations t regs earlier [] post u =
    ap (λ ts. some (location t (place t regs ts u))) (sym (append-nil earlier))
get_elem?-locations t regs earlier (x ∷ pre) post u =
    get_elem?-locations t regs (earlier ++ (x ∷ [])) pre post u
    ∙ ap (λ ts. some (location t (place t regs ts u))) (append_assoc earlier (x ∷ []) pre)

abbrev pub param_place : Target → List LocalType → LocalType → Place
param_place t earlier type = place t (param_registers t.architecture) earlier type

-- The call descriptor of a signature whose parameters are pre, u, mid, w and post in this order, on every
-- architecture: it gives u and w the locations of their places, the two places share no register and
-- no word of the stack, and both lie within the words that the descriptor counts.
pub get_wasm_call_descriptor-Apart :
    (t : Target) (returns pre mid post : List LocalType) (u w : LocalType)
    → let params : List LocalType = pre ++ (u ∷ mid ++ (w ∷ post)) in
      let p = param_place t pre u in
      let q = param_place t (pre ++ (u ∷ mid)) w in
      (d : CallDescriptor) × (get_wasm_call_descriptor t
          (record { returns = returns; params = params })
        ≡ some d)
      × (get_elem? d.param_locations (length pre) ≡ some (location t p))
      × (get_elem? d.param_locations (length (pre ++ (u ∷ mid))) ≡ some (location t q))
      × Apart p q
      × Within d.stack_parameter_count p
      × Within d.stack_parameter_count q
get_wasm_call_descriptor-Apart t returns pre mid post u w =
    let regs = param_registers t.architecture in
    let assoc = append_assoc pre (u ∷ mid) (w ∷ post) in
    let p_case = place-PlaceCase t regs pre u in
    let q_case = place-PlaceCase t regs (pre ++ (u ∷ mid)) w in
    (
      _,
      get_wasm_call_descriptor_places t _,
      get_elem?-locations t regs [] pre (mid ++ (w ∷ post)) u,
      subst
          (λ ts.
            get_elem? (locations t regs [] ts) (length (pre ++ (u ∷ mid)))
            ≡ some (location t (param_place t (pre ++ (u ∷ mid)) w)))
          assoc (get_elem?-locations t regs [] (pre ++ (u ∷ mid)) post w),
      PlaceCase-Apart t pre mid u w p_case q_case,
      PlaceCase-Within t regs pre (mid ++ (w ∷ post)) u p_case,
      subst (λ ts. Within (stack_words t regs ts) (param_place t (pre ++ (u ∷ mid)) w)) assoc
          (PlaceCase-Within t regs (pre ++ (u ∷ mid)) post w q_case),
    )
