-- ===== src/FunctionBody/OperandLength.antt =====
-- The lengths of operands in wasm/ast-decoder.cc: OpcodeLength looks at five bytes, the decoder at those
-- in front of its limit.
use v8_native_prototype.Base.{
  ℕ, zero, suc, ◌+◌, ◌-◌, ◌≤◌, ◌≡◌, refl, ap, true, false, List, inl, inr, arith, All, get_or, ltb,
  if◌then◌else◌, Bool-cases,
}
use v8_native_prototype.Decoder.State.{ok, error}
use v8_native_prototype.Leb.Read.{
  read_unsigned_leb128_operand, no_error, invalid_leb128, missing_leb128,
  ReadUnsignedLeb128ErrorCode,
}
use v8_native_prototype.Leb.ReadLaws.{
  IsByte, window, leb_count, leb_ends, leb_meaning, leb_window, read_unsigned_leb128_operand_lem,
}
use v8_native_prototype.FunctionBody.State.{BodyState}
use v8_native_prototype.WasmModule.Types.{FunctionEnv}
use v8_native_prototype.FunctionBody.Operands.{
  operand_missing, has_offset, memory_access_operand, operand_u8, check_operand, fail,
  unsigned_leb128_operand, leb_error, local_operand, global_operand, function_sig_operand,
  sig_operand,
}
use v8_native_prototype.FunctionBody.Keeps.{
  IsBody, operand_u8-Keeps, unsigned_leb128_operand-Keeps, Keeps-IsBody,
}
use v8_native_prototype.FunctionBody.OpcodeInfo.{immediate_length}

-- Behind the byte that ends the number, further bytes make no difference.
leb_count-window :
    (k n : ℕ) (mem : List ℕ) (p : ℕ)
    → k ≤ n
    → leb_ends (window k mem p) ≡ true
    → leb_count (window n mem p) ≡ leb_count (window k mem p)
unfolding window leb_count leb_ends
leb_count-window zero n mem p l h = cc
leb_count-window (suc k) zero mem p l h = absurd (omega (arith, l))
leb_count-window (suc k) (suc n) mem p l h = elim (Bool-cases (ltb (get_or mem p 0) 128)) [
  | inl e ↦ rw (e, leb_count) refl
  | inr e ↦
      rw (e, leb_count)
        (ap suc (leb_count-window k n mem (p + 1) (omega (arith, l)) (ground (arith, e, h))))
]

meaning_ends : (w : List ℕ) → (leb_meaning w).code ≡ no_error → leb_ends w ≡ true
unfolding leb_meaning
meaning_ends w h = ground arith

window_five : (mem : List ℕ) (p : ℕ) → leb_window mem p (p + 5) ≡ window 5 mem p
unfolding leb_window
window_five mem p = rw (plus_five p, leb_window) refl
  where
    plus_five : (p : ℕ) → p + 5 - p ≡ 5
    plus_five p = omega arith

-- A number that ends before the limit has the same length with five bytes to look at.
operand_length :
    (mem : List ℕ) (p limit : ℕ)
    → All IsByte mem
    → (read_unsigned_leb128_operand mem p limit).code ≡ no_error
    → (read_unsigned_leb128_operand mem p (p + 5)).len
      ≡ (read_unsigned_leb128_operand mem p limit).len
unfolding leb_window leb_meaning
operand_length mem p limit bytes h =
    let k : ℕ = if ltb (limit - p) 5 then limit - p else 5 in
    let e = read_unsigned_leb128_operand_lem mem p limit bytes in
    let f = read_unsigned_leb128_operand_lem mem p (p + 5) bytes in
    let ends = meaning_ends (leb_window mem p limit) (rw e at h) in
    rw (f, e, window_five mem p) (leb_count-window k 5 mem p (ground arith) ends)

leb_error-ok :
    (code : ReadUnsignedLeb128ErrorCode) (pc : ℕ) (s : BodyState)
    → ok (leb_error code pc s).d ≡ true
    → code ≡ no_error
unfolding leb_error fail error
leb_error-ok no_error pc s h = refl
leb_error-ok invalid_leb128 pc s h = absurd (ground (arith, h))
leb_error-ok missing_leb128 pc s h = absurd (ground (arith, h))

-- Where the operand was read without an error, OpcodeLength agrees with its length.
operand-immediate_length :
    (pc : ℕ) (s : BodyState)
    → All IsByte s.d.mem
    → ok (unsigned_leb128_operand pc s).2.d ≡ true
    → (unsigned_leb128_operand pc s).1 ≡ immediate_length s.d.mem pc
unfolding unsigned_leb128_operand immediate_length
operand-immediate_length pc s bytes h =
    let e = leb_error-ok _ pc s h in
    let f = operand_length s.d.mem (pc + 1) s.d.limit bytes e in
    let g : pc + 1 + 5 ≡ pc + 6 = omega arith in
    let k : (read_unsigned_leb128_operand s.d.mem (pc + 1) (pc + 6)).len
        ≡ (read_unsigned_leb128_operand s.d.mem (pc + 1) s.d.limit).len =
      rw g at f in
    omega (arith, k)

-- A memory access without an offset behind it.
pub memory_operand-length :
    (pc : ℕ) (s : BodyState)
    → IsBody s
    → has_offset (get_or s.d.mem (pc + 1) 0) ≡ false
    → ok (memory_access_operand pc s).1.d ≡ true
    → (memory_access_operand pc s).0 ≡ 2
unfolding memory_access_operand operand_u8 check_operand fail error
memory_operand-length pc s w e h =
    let (b, s₁) = operand_u8 pc s in
    let l = unsigned_leb128_operand-Keeps (pc + 1) s₁ (Keeps-IsBody (operand_u8-Keeps pc s w) w) in
    let h₁ : ok s₁.d ≡ true = elim (Bool-cases (has_offset b)) [
      | inl c ↦ l.ok_before (ground (arith, c, h))
      | inr c ↦ ground (arith, c, h)
    ] in
    let x : operand_missing 1 pc s ≡ false = ground (arith, h₁) in ground (arith, x, e)

module _ (env : FunctionEnv) where
  pub local_operand-length :
      (pc : ℕ) (s : BodyState)
      → All IsByte s.d.mem
      → ok (local_operand env pc s).2.d ≡ true
      → (local_operand env pc s).1 ≡ immediate_length s.d.mem pc
  unfolding local_operand fail error
  local_operand-length pc s bytes h =
      ground (arith, operand-immediate_length pc s bytes (ground (arith, h)))

  pub global_operand-length :
      (pc : ℕ) (s : BodyState)
      → All IsByte s.d.mem
      → ok (global_operand env pc s).2.d ≡ true
      → (global_operand env pc s).1 ≡ immediate_length s.d.mem pc
  unfolding global_operand fail error
  global_operand-length pc s bytes h =
      ground (arith, operand-immediate_length pc s bytes (ground (arith, h)))

  pub function_sig_operand-length :
      (pc : ℕ) (s : BodyState)
      → All IsByte s.d.mem
      → ok (function_sig_operand env pc s).2.d ≡ true
      → (function_sig_operand env pc s).1 ≡ immediate_length s.d.mem pc
  unfolding function_sig_operand fail error
  function_sig_operand-length pc s bytes h =
      ground (arith, operand-immediate_length pc s bytes (ground (arith, h)))

  pub sig_operand-length :
      (pc : ℕ) (s : BodyState)
      → All IsByte s.d.mem
      → ok (sig_operand env pc s).2.d ≡ true
      → (sig_operand env pc s).1 ≡ immediate_length s.d.mem pc
  unfolding sig_operand fail error
  sig_operand-length pc s bytes h =
      ground (arith, operand-immediate_length pc s bytes (ground (arith, h)))
