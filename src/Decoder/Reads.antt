-- ===== src/Decoder/Reads.antt =====
-- The readers of class Decoder of wasm/decoder.h, on a little-endian target. A reader returns the
-- value and the decoder after it.
use v8_native_prototype.Base.{
  ℕ, zero, suc, List, ◌+◌, ◌-◌, ◌*◌, ◌^◌, ◌%◌, bit_and, bit_or, Bool, true, false, not, ◌&&◌, ◌||◌,
  Option, none, some, ltb, ◌==◌, if◌then◌else◌, get_or,
}
use v8_native_prototype.Decoder.State.{
  Decoder, expected_bytes, expected_1_byte, expected_2_bytes, expected_4_bytes,
  expected_at_least_1_byte, varint_too_large, error, error_here,
}

-- pc_[i].
abbrev pub byte_at : Decoder → ℕ → ℕ
byte_at d i = get_or d.mem (d.pc + i) 0

-- checkAvailable(size).
unfoldable pub check_available : ℕ → Decoder → Bool × Decoder
unfolding error
check_available size d =
    if ltb d.pc d.start || ltb d.limit (d.pc + size)
    then (false, error d.pc none (expected_bytes size) d)
    else (true, d)

-- traceOffEnd<T>(), which returns 0.
unfoldable pub trace_off_end : Decoder → ℕ × Decoder
trace_off_end d = (0, record d { pc = d.limit })

unfoldable pub u8 : Decoder → ℕ × Decoder
unfolding check_available trace_off_end error
u8 d =
    let (available, d₁) = check_available 1 d in
    if available
    then (byte_at d₁ 0, record d₁ { pc = d₁.pc + 1 })
    else trace_off_end (error_here expected_1_byte d₁)

-- static_cast<uint16_t>(b1 << 8) | b0.
unfoldable pub join_u16 : ℕ → ℕ → ℕ
join_u16 b0 b1 = bit_or (b1 * 2 ^ 8 % 2 ^ 16) b0

unfoldable pub u16 : Decoder → ℕ × Decoder
unfolding check_available trace_off_end error
u16 d =
    let (available, d₁) = check_available 2 d in
    if available
    then (join_u16 (byte_at d₁ 0) (byte_at d₁ 1), record d₁ { pc = d₁.pc + 2 })
    else trace_off_end (error_here expected_2_bytes d₁)

-- The four bytes, each shifted to its place as a uint32_t.
unfoldable pub join_u32 : ℕ → ℕ → ℕ → ℕ → ℕ
join_u32 b0 b1 b2 b3 =
    bit_or (bit_or (bit_or (b3 * 2 ^ 24 % 2 ^ 32) (b2 * 2 ^ 16 % 2 ^ 32)) (b1 * 2 ^ 8 % 2 ^ 32)) b0

unfoldable pub u32 : Decoder → ℕ × Decoder
unfolding check_available trace_off_end error
u32 d =
    let (available, d₁) = check_available 4 d in
    if available
    then (
      join_u32 (byte_at d₁ 0) (byte_at d₁ 1) (byte_at d₁ 2) (byte_at d₁ 3),
      record d₁ { pc = d₁.pc + 4 },
    )
    else trace_off_end (error_here expected_4_bytes d₁)

-- The locals of the loop in u32v: pc_, the last byte read and the result so far.
pub record VarState : Type 0 where
  pub pc : ℕ
  pub b : ℕ
  pub result : ℕ

-- `while (pc_ < end)`, where the first argument is end - pc_.
unfoldable pub u32v_loop : ℕ → List ℕ → ℕ → VarState → VarState
u32v_loop zero mem shift s = s
u32v_loop (suc n) mem shift s =
    let b = get_or mem s.pc 0 in
    let result = bit_or s.result (bit_and b 0x7f * 2 ^ shift % 2 ^ 32) in
    let s' : VarState = record { pc = s.pc + 1; b = b; result = result } in
    let rest = u32v_loop n mem (shift + 7) s' in if bit_and b 0x80 == 0 then s' else rest

-- pc_ + 5, and at most limit_.
unfoldable pub u32v_end : Decoder → ℕ
u32v_end d = let end = d.pc + 5 in if ltb d.limit end then d.limit else end

-- What u32v does after its loop; `pos` is where it began, and the second part of the value is what it
-- stores through `length`.
unfoldable pub u32v_finish : ℕ → ℕ → VarState → Decoder → (ℕ × Option ℕ) × Decoder
unfolding error
u32v_finish pos end s d =
    let d₁ : Decoder = record d { pc = s.pc } in
    (
      (s.result, some (s.pc - pos)),
      if (s.pc == end) && not (bit_and s.b 0x80 == 0)
          then error (s.pc - 1) none varint_too_large d₁
          else d₁,
    )

-- u32v behind its check that a byte is left.
unfoldable pub u32v_body : Decoder → (ℕ × Option ℕ) × Decoder
unfolding u32v_end u32v_finish u32v_loop
u32v_body d =
    let end = u32v_end d in
    let s = u32v_loop (end - d.pc) d.mem 0 (record { pc = d.pc; b = 0; result = 0 }) in
    u32v_finish d.pc end s d

-- u32v(length): where no byte is left nothing is stored through `length`.
unfoldable pub u32v : Decoder → (ℕ × Option ℕ) × Decoder
unfolding check_available trace_off_end error
u32v d =
    let (available, d₁) = check_available 1 d in
    let off : ℕ × Decoder = trace_off_end (error_here expected_at_least_1_byte d₁) in
    if available then u32v_body d₁ else ((off.0, none), off.1)
