-- ===== src/FunctionBody/Keeps.antt =====
-- What the operations of LR_WasmDecoder in wasm/ast-decoder.cc leave alone.
use v8_native_prototype.Base.{
  ℕ, zero, suc, ◌+◌, ◌≤◌, ◌≡◌, refl, ap, ◌∙◌, Bool, true, false, List, [], ◌∷◌, Option, none, some,
  map, arith, get_elem?, set, if◌then◌else◌, Option-cases, inl, inr,
}
use v8_native_prototype.Opcodes.Types.{LocalType}
use v8_native_prototype.Leb.Read.{
  ReadUnsignedLeb128ErrorCode, no_error, invalid_leb128, missing_leb128,
}
use v8_native_prototype.Decoder.State.{
  Decoder, Message, wasm_decoder, ok, error, local_out_of_range, global_out_of_range,
  function_out_of_range, signature_out_of_range,
}
use v8_native_prototype.WasmModule.Types.{FunctionEnv}
use v8_native_prototype.FunctionBody.State.{
  Trees, Production, BodyState, split, steal, goto, set_production_type, stack_position, last,
}
use v8_native_prototype.FunctionBody.Operands.{
  fail, leb_error, check_operand, operand_u8, unsigned_leb128_operand, memory_access_operand,
  local_operand, global_operand, function_sig_operand, sig_operand, type_check_last,
}

-- A production without its type, which is all that a merge changes.
pub record Frame : Type 0 where
  pub count : ℕ
  pub pc : ℕ
  pub children : Trees

abbrev pub frame : Production → Frame
frame p = record { count = p.count; pc = p.pc; children = p.children }

abbrev pub frames : List Production → List Frame
frames ps = map frame ps

-- The decoder is at the same place; an error can have been raised, which ends the decoding; and an
-- error that was there before has stayed. The trees are the same, and the productions up to types.
pub record Keeps (s s' : BodyState) : Type 0 where
  pub same_mem : s'.d.mem ≡ s.d.mem
  pub same_start : s'.d.start ≡ s.d.start
  pub same_pc : s'.d.pc ≡ s.d.pc
  pub same_class : s'.d.class ≡ s.d.class
  pub limit_le : s.d.start ≤ s.d.limit → s'.d.limit ≤ s.d.limit
  pub start_le : s.d.start ≤ s.d.limit → s.d.start ≤ s'.d.limit
  pub same_limit : ok s'.d ≡ true → s'.d.limit ≡ s.d.limit
  pub ok_before : ok s'.d ≡ true → ok s.d ≡ true
  pub same_error : ok s.d ≡ false → s'.d ≡ s.d
  pub same_trees : s'.trees ≡ s.trees
  pub same_frames : frames s'.stack ≡ frames s.stack

-- The part of this about the decoder.
pub record Checks (d d' : Decoder) : Type 0 where
  pub same_mem : d'.mem ≡ d.mem
  pub same_start : d'.start ≡ d.start
  pub same_pc : d'.pc ≡ d.pc
  pub same_class : d'.class ≡ d.class
  pub limit_le : d.start ≤ d.limit → d'.limit ≤ d.limit
  pub start_le : d.start ≤ d.limit → d.start ≤ d'.limit
  pub same_limit : ok d' ≡ true → d'.limit ≡ d.limit
  pub ok_before : ok d' ≡ true → ok d ≡ true
  pub same_error : ok d ≡ false → d' ≡ d

pub Keeps-Checks : {s s' : BodyState} → Keeps s s' → Checks s.d s'.d
Keeps-Checks k = ground arith

pub Checks-refl : (d : Decoder) → Checks d d
Checks-refl d = ground arith

pub Checks-trans : {d d' d'' : Decoder} → Checks d d' → Checks d' d'' → Checks d d''
Checks-trans k l = ground arith

pub check_then :
    {d d' d'' : Decoder}
    → d.class ≡ wasm_decoder
    → Checks d d'
    → (d'.class ≡ wasm_decoder → Checks d' d'')
    → Checks d d''
check_then w k f = Checks-trans k (f (k.same_class ∙ w))

abbrev pub IsBody : BodyState → Type 0
IsBody s = s.d.class ≡ wasm_decoder

pub Keeps-refl : (s : BodyState) → Keeps s s
Keeps-refl s = ground arith

pub Keeps-trans : {s s' s'' : BodyState} → Keeps s s' → Keeps s' s'' → Keeps s s''
Keeps-trans k l = ground arith

pub Keeps-IsBody : {s s' : BodyState} → Keeps s s' → IsBody s → IsBody s'
Keeps-IsBody k w = k.same_class ∙ w

-- One operation after another.
pub and_then :
    {s s' s'' : BodyState} → IsBody s → Keeps s s' → (IsBody s' → Keeps s' s'') → Keeps s s''
and_then w k f = Keeps-trans k (f (Keeps-IsBody k w))

pub if-Keeps : (b : Bool) {s x y : BodyState} → Keeps s x → Keeps s y → Keeps s (if b then x else y)
if-Keeps true k l = k
if-Keeps false k l = l

pub fail-Keeps :
    (pc : ℕ) (pt : Option ℕ) (msg : Message) (s : BodyState) → IsBody s → Keeps s (fail pc pt msg s)
unfolding fail error
fail-Keeps pc pt msg s w = ground arith

pub goto-Keeps : (from to : ℕ) (s : BodyState) → Keeps s (goto from to s)
unfolding goto
goto-Keeps from to s = ground arith

pub split-Keeps : (e : ℕ) (s : BodyState) → Keeps s (split e s).1
unfolding split
split-Keeps e s = ground arith

pub steal-Keeps : (e : ℕ) (s : BodyState) → Keeps s (steal e s).1
unfolding steal
steal-Keeps e s = ground arith

frames-set :
    (ps : List Production) (i : ℕ) (p : Production) (type : LocalType)
    → get_elem? ps i ≡ some p
    → frames (set ps i (record p { type = type })) ≡ frames ps
frames-set [] i p type h = refl
frames-set (q ∷ qs) zero p type h = ground arith
frames-set (q ∷ qs) (suc i) p type h =
    ap (λ (fs : List Frame). frame q ∷ fs) (frames-set qs i p type h)

pub set_production_type-Keeps :
    (depth : ℕ) (type : LocalType) (s : BodyState) → Keeps s (set_production_type depth type s)
unfolding set_production_type
set_production_type-Keeps depth type s =
    let i = stack_position depth s in
    elim (Option-cases (get_elem? s.stack i)) [
      | inl e ↦ rw (e, set_production_type) (Keeps-refl s)
      | inr (p, e) ↦ rw (e, set_production_type) (ground (arith, frames-set s.stack i p type e))
    ]

-- An operation that leaves the decoder, the trees and the stack alone.
pub quiet-Keeps :
    (s s' : BodyState) → s'.d ≡ s.d → s'.trees ≡ s.trees → s'.stack ≡ s.stack → Keeps s s'
quiet-Keeps s s' e f g = ground arith

-- An error that is raised only under a condition.
pub fail_if-Keeps :
    (b : Bool) (pc : ℕ) (pt : Option ℕ) (msg : Message) (s : BodyState)
    → IsBody s
    → Keeps s (if b then fail pc pt msg s else s)
fail_if-Keeps b pc pt msg s w = if-Keeps b (fail-Keeps pc pt msg s w) (Keeps-refl s)

pub fail_unless-Keeps :
    (b : Bool) (pc : ℕ) (pt : Option ℕ) (msg : Message) (s : BodyState)
    → IsBody s
    → Keeps s (if b then s else fail pc pt msg s)
fail_unless-Keeps b pc pt msg s w = if-Keeps b (Keeps-refl s) (fail-Keeps pc pt msg s w)

pub check_operand-Keeps :
    (size pc : ℕ) (s : BodyState) → IsBody s → Keeps s (check_operand size pc s)
unfolding check_operand
check_operand-Keeps size pc s w = fail_if-Keeps _ _ _ _ s w

pub operand_u8-Keeps : (pc : ℕ) (s : BodyState) → IsBody s → Keeps s (operand_u8 pc s).1
unfolding operand_u8
operand_u8-Keeps pc s w = check_operand-Keeps 1 pc s w

leb_error-Keeps :
    (code : ReadUnsignedLeb128ErrorCode) (pc : ℕ) (s : BodyState)
    → IsBody s
    → Keeps s (leb_error code pc s)
unfolding leb_error
leb_error-Keeps no_error pc s w = Keeps-refl s
leb_error-Keeps invalid_leb128 pc s w = fail-Keeps _ _ _ s w
leb_error-Keeps missing_leb128 pc s w = fail-Keeps _ _ _ s w

pub unsigned_leb128_operand-Keeps :
    (pc : ℕ) (s : BodyState) → IsBody s → Keeps s (unsigned_leb128_operand pc s).2
unfolding unsigned_leb128_operand
unsigned_leb128_operand-Keeps pc s w = leb_error-Keeps _ pc s w

pub memory_access_operand-Keeps :
    (pc : ℕ) (s : BodyState) → IsBody s → Keeps s (memory_access_operand pc s).1
unfolding memory_access_operand
memory_access_operand-Keeps pc s w =
    let k = operand_u8-Keeps pc s w in
    let l = unsigned_leb128_operand-Keeps (pc + 1) (operand_u8 pc s).1 (Keeps-IsBody k w) in
    ground (arith, k, Keeps-trans k l)

module _ (env : FunctionEnv) where
  pub local_operand-Keeps : (pc : ℕ) (s : BodyState) → IsBody s → Keeps s (local_operand env pc s).2
  unfolding local_operand
  local_operand-Keeps pc s w =
      let k = unsigned_leb128_operand-Keeps pc s w in
      let l =
        fail-Keeps pc none local_out_of_range (unsigned_leb128_operand pc s).2 (Keeps-IsBody k w) in
      ground (arith, k, Keeps-trans k l)

  pub global_operand-Keeps :
      (pc : ℕ) (s : BodyState) → IsBody s → Keeps s (global_operand env pc s).2
  unfolding global_operand
  global_operand-Keeps pc s w =
      let k = unsigned_leb128_operand-Keeps pc s w in
      let l =
        fail-Keeps pc none global_out_of_range (unsigned_leb128_operand pc s).2
          (Keeps-IsBody k w) in
      ground (arith, k, Keeps-trans k l)

  pub function_sig_operand-Keeps :
      (pc : ℕ) (s : BodyState) → IsBody s → Keeps s (function_sig_operand env pc s).2
  unfolding function_sig_operand
  function_sig_operand-Keeps pc s w =
      let k = unsigned_leb128_operand-Keeps pc s w in
      let l =
        fail-Keeps pc none function_out_of_range (unsigned_leb128_operand pc s).2
          (Keeps-IsBody k w) in
      ground (arith, k, Keeps-trans k l)

  pub sig_operand-Keeps : (pc : ℕ) (s : BodyState) → IsBody s → Keeps s (sig_operand env pc s).2
  unfolding sig_operand
  sig_operand-Keeps pc s w =
      let k = unsigned_leb128_operand-Keeps pc s w in
      let l =
        fail-Keeps pc none signature_out_of_range (unsigned_leb128_operand pc s).2
          (Keeps-IsBody k w) in
      ground (arith, k, Keeps-trans k l)

pub type_check_last-Keeps :
    (p : Production) (expected : LocalType) (s : BodyState)
    → IsBody s
    → Keeps s (type_check_last p expected s)
unfolding type_check_last
type_check_last-Keeps p expected s w = elim (Option-cases (last p)) [
  | inl e ↦ rw (e, type_check_last) (Keeps-refl s)
  | inr (t, e) ↦ rw (e, type_check_last) (fail_unless-Keeps _ _ _ _ s w)
]
