-- ===== src/Decoder/VarInt.antt =====
-- Decoder::u32v of wasm/decoder.h against the reader of wasm/ast-decoder.cc and the writer of
-- wasm/encoder.cc.
use native.Mathlib.Decide.{dec_lt}
use v8_native_prototype.Base.{
  zero, suc, get_or, bit_and, bit_or, ◌*◌, ◌^◌, ◌%◌, ◌==◌, ap, refl, ◌∙◌, inl, inr, Bool-cases, ℕ,
  ◌+◌, ◌-◌, ◌≤◌, ◌<◌, ◌≡◌, ◌≢◌, false, List, some, arith,
}
use v8_native_prototype.Leb.Read.{
  LebState, no_error, leb_add, leb_loop, leb_end, leb_finish, read_unsigned_leb128_operand,
}
use v8_native_prototype.Decoder.Steps.{IsReading, u32v_loop_span}
use v8_native_prototype.Decoder.State.{Decoder, ok, error}
use v8_native_prototype.Decoder.Reads.{u32v, VarState, u32v_loop, u32v_end, u32v_body, u32v_finish}

-- Decoder::u32v against ReadUnsignedLEB128Operand at the same place.
u32v_off : (d : Decoder) → d.limit ≤ d.pc → ok (u32v d).1 ≡ false
unfolding u32v error
u32v_off d h = ground arith

u32v_on : (d : Decoder) → d.start ≤ d.pc → d.pc < d.limit → u32v d ≡ u32v_body d
unfolding u32v
u32v_on d h k = ground arith

-- The pointer, the last byte and the result of the other reader's loop.
abbrev as_leb : VarState → LebState
as_leb s = record { ptr = s.pc; b = s.b; result = s.result }

-- The two loops, one on top of the other.
u32v_loop-leb_loop :
    (n : ℕ) (mem : List ℕ) (shift : ℕ) (s : VarState)
    → as_leb (u32v_loop n mem shift s) ≡ leb_loop n mem shift (as_leb s)
unfolding u32v_loop leb_loop leb_add
u32v_loop-leb_loop zero mem shift s = refl
u32v_loop-leb_loop (suc n) mem shift s =
    let b = get_or mem s.pc 0 in
    let result = bit_or s.result (bit_and b 0x7f * 2 ^ shift % 2 ^ 32) in
    let s' : VarState = record { pc = s.pc + 1; b = b; result = result } in
    elim (Bool-cases (bit_and b 0x80 == 0)) [
      | inl e ↦ rw e refl
      | inr e ↦ rw e (u32v_loop-leb_loop n mem (shift + 7) s')
    ]

u32v_end-leb_end : (d : Decoder) → u32v_end d ≡ leb_end d.pc d.limit
unfolding u32v_end leb_end
u32v_end-leb_end d = refl

-- The state in which the loop of u32v ends, by the other reader's.
u32v_loop_ends :
    (d : Decoder)
    → let s = u32v_loop (u32v_end d - d.pc) d.mem 0 (record { pc = d.pc; b = 0; result = 0 }) in
      let r =
        leb_loop (leb_end d.pc d.limit - d.pc) d.mem 0 (record { ptr = d.pc; b = 0; result = 0 }) in
      (s.pc ≡ r.ptr) × (s.b ≡ r.b) × (s.result ≡ r.result)
u32v_loop_ends d =
    let e =
      u32v_loop-leb_loop (u32v_end d - d.pc) d.mem 0 (record { pc = d.pc; b = 0; result = 0 })
      ∙ ap (λ (n : ℕ). leb_loop (n - d.pc) d.mem 0 (record { ptr = d.pc; b = 0; result = 0 }))
          (u32v_end-leb_end d) in
    (
      ap (λ (x : LebState). x.ptr) e,
      ap (λ (x : LebState). x.b) e,
      ap (λ (x : LebState). x.result) e,
    )

u32v_loop_moves :
    (n : ℕ) (mem : List ℕ) (shift : ℕ) (s : VarState) → 0 < n → s.pc < (u32v_loop n mem shift s).pc
unfolding u32v_loop
u32v_loop_moves zero mem shift s h = absurd (omega arith)
u32v_loop_moves (suc n) mem shift s h =
    let b = get_or mem s.pc 0 in
    let result = bit_or s.result (bit_and b 0x7f * 2 ^ shift % 2 ^ 32) in
    ground
      (arith, u32v_loop_span n mem (shift + 7) (record { pc = s.pc + 1; b = b; result = result }))

u32v_end_above : (d : Decoder) → d.pc < d.limit → 0 < u32v_end d - d.pc
unfolding u32v_end
u32v_end_above d h = ground arith

u32v_body_failed :
    (d : Decoder)
    → d.pc < d.limit
    → (read_unsigned_leb128_operand d.mem d.pc d.limit).code ≢ no_error
    → ok (u32v_body d).1 ≡ false
unfolding u32v_body u32v_finish read_unsigned_leb128_operand error leb_finish
u32v_body_failed d k h =
    let start : VarState = record { pc = d.pc; b = 0; result = 0 } in
    let moves = u32v_loop_moves (u32v_end d - d.pc) d.mem 0 start (u32v_end_above d k) in
    ground (arith, moves, u32v_loop_ends d, u32v_end-leb_end d)

-- Where ReadUnsignedLEB128Operand returns kNoError, u32v, whose loop is its own, returns its value
-- at the same place, stores its length, and moves pc behind the number without an error, for a
-- decoder within its bounds that is not an LR_WasmDecoder.
pub u32v-operand :
    (d : Decoder)
    → IsReading d
    → let r = read_unsigned_leb128_operand d.mem d.pc d.limit in
      r.code ≡ no_error → u32v d ≡ ((r.value, some r.len), record d { pc = d.pc + r.len })
unfolding u32v u32v_body u32v_finish read_unsigned_leb128_operand leb_finish
u32v-operand d v h =
    let start : VarState = record { pc = d.pc; b = 0; result = 0 } in
    let span = u32v_loop_span (u32v_end d - d.pc) d.mem 0 start in
    ground (arith, span, u32v_loop_ends d, u32v_end-leb_end d)

-- Where ReadUnsignedLEB128Operand returns an error, u32v at the same place leaves the decoder
-- failed, for a decoder within its bounds that is not an LR_WasmDecoder.
pub u32v-operand_failed :
    (d : Decoder)
    → IsReading d
    → (read_unsigned_leb128_operand d.mem d.pc d.limit).code ≢ no_error
    → ok (u32v d).1 ≡ false
u32v-operand_failed d v h = elim (dec_lt d.pc d.limit) [
  | yes k ↦ rw (u32v_on d v.above k) (u32v_body_failed d k h)
  | no k ↦ u32v_off d (omega (arith, k))
]
