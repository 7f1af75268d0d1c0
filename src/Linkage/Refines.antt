-- ===== src/Linkage/Refines.antt =====
-- That the Allocator of wasm/wasm-linkage.cc puts values where the description in Placement says.
use v8_native_prototype.Base.{
  get_elem?-bound, get_elem?-end, ◌+◌, ◌≡◌, refl, sym, ap₂, subst, arith, Bool-cases, Option-cases,
  List, [], ◌∷◌, ◌++◌, append-nil, append_assoc, some, map, length, get_elem?, drop-nil, inl, inr,
}
use v8_native_prototype.Opcodes.Types.{FunctionSig, LocalType, mach_any_tagged}
use v8_native_prototype.Linkage.Alloc.{
  Target, for_any_register, Allocator, new_allocator, is_floating_point, next_slot, next_fp,
  next_gp, next, next_all, rets_allocator, params_allocator, get_wasm_call_descriptor,
  machine_type_for, stackloc,
}
use v8_native_prototype.Linkage.Placement.{
  Registers, param_registers, return_registers, floats, ints, words_of, stack_words, place,
  location, locations,
}
use v8_native_prototype.Linkage.OneParam.{
  After, fp_full-After, fp_free-After, gp_full-After, gp_free-After,
}

-- Next puts a value at its place, and goes on as if the value stood in the row.
next-After :
    (t : Target) (regs : Registers) (types : List LocalType) (type : LocalType) (a : Allocator)
    → After t regs types a
    → (a' : Allocator) × (next t type a ≡ some (location t (place t regs types type), a'))
      × After t regs (types ++ (type ∷ [])) a'
unfolding next next_fp next_gp next_slot stackloc place location
next-After t regs types type a v = elim (Bool-cases (is_floating_point type)) [
  | inl fl ↦ elim (Option-cases (get_elem? regs.fp (length (floats types)))) [
    | inl e ↦
        let full = get_elem?-end regs.fp (length (floats types)) e in
        (_, ground (arith, fl, e, v), fp_full-After t regs types type a v fl full)
    | inr (r, e) ↦
        let free = get_elem?-bound regs.fp (length (floats types)) r e in
        (_, ground (arith, fl, e, v), fp_free-After t regs types type a v fl free)
  ]
  | inr fl ↦ elim (Option-cases (get_elem? regs.gp (length (ints types)))) [
    | inl e ↦
        let full = get_elem?-end regs.gp (length (ints types)) e in
        (_, ground (arith, fl, e, v), gp_full-After t regs types type a v fl full)
    | inr (r, e) ↦
        let free = get_elem?-bound regs.gp (length (ints types)) r e in
        (_, ground (arith, fl, e, v), gp_free-After t regs types type a v fl free)
  ]
]

next_all-After :
    (t : Target) (regs : Registers) (earlier types : List LocalType) (a : Allocator)
    → After t regs earlier a
    → (a' : Allocator) × (next_all t types a ≡ some (locations t regs earlier types, a'))
      × After t regs (earlier ++ types) a'
unfolding next_all locations
next_all-After t regs earlier [] a v =
    (a, refl, subst (λ ts. After t regs ts a) (sym (append-nil earlier)) v)
next_all-After t regs earlier (type ∷ types) a v =
    let (a₁, e₁, v₁) = next-After t regs earlier type a v in
    let (a₂, e₂, v₂) = next_all-After t regs (earlier ++ (type ∷ [])) types a₁ v₁ in
    (
      a₂,
      rw (e₁, e₂) refl,
      subst (λ ts. After t regs ts a₂) (append_assoc earlier (type ∷ []) types) v₂,
    )

no_words : (t : Target) (regs : Registers) → stack_words t regs [] ≡ 0
unfolding stack_words floats ints words_of
no_words t regs =
    ap₂ (λ x y. words_of t x + words_of t y) (drop-nil (length regs.gp)) (drop-nil (length regs.fp))

new_allocator-After :
    (t : Target) (regs : Registers)
    → After t regs [] (new_allocator regs.gp (length regs.gp) regs.fp (length regs.fp))
unfolding new_allocator floats ints
new_allocator-After t regs = record {
  gp_regs = refl;
  gp_count = refl;
  gp_offset = omega arith;
  fp_regs = refl;
  fp_count = refl;
  fp_offset = omega arith;
  stack_offset = sym (no_words t regs);
}

-- On every architecture GetWasmCallDescriptor reads no register out of range, and puts each parameter
-- and each result at its place by the description, with as many words of parameters on the stack as
-- the description counts.
pub get_wasm_call_descriptor_places :
    (t : Target) (fsig : FunctionSig)
    → get_wasm_call_descriptor t fsig
      ≡ some (record {
        target_type = mach_any_tagged;
        target_loc = for_any_register;
        machine_returns = map machine_type_for fsig.returns;
        machine_params = map machine_type_for fsig.params;
        return_locations = locations t (return_registers t.architecture) [] fsig.returns;
        param_locations = locations t (param_registers t.architecture) [] fsig.params;
        stack_parameter_count = stack_words t (param_registers t.architecture) fsig.params;
        callee_saved_registers = 0;
        callee_saved_fp_registers = 0;
      })
unfolding get_wasm_call_descriptor rets_allocator params_allocator return_registers param_registers
get_wasm_call_descriptor_places t fsig =
    let (a, e, v) =
      next_all-After t _ [] fsig.returns _
        (new_allocator-After t (return_registers t.architecture)) in
    let (b, f, w) =
      next_all-After t _ [] fsig.params _
        (new_allocator-After t (param_registers t.architecture)) in
    rw (e, f, w.stack_offset) refl
