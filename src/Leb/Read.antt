-- ===== src/Leb/Read.antt =====
-- ReadUnsignedLEB128Operand of wasm/ast-decoder.cc. The memory is a list of bytes and a pointer is
-- its index there.
use v8_native_prototype.Base.{
  ℕ, zero, suc, ◌+◌, ◌-◌, ◌*◌, ◌^◌, ◌%◌, bit_and, bit_or, not, ◌&&◌, List, ◌==◌, ltb, if◌then◌else◌,
  get_or,
}

pub data ReadUnsignedLeb128ErrorCode : Type 0 where
  no_error invalid_leb128 missing_leb128 : ReadUnsignedLeb128ErrorCode

-- The locals of the loop: the pointer, the last byte read and the result so far.
pub record LebState : Type 0 where
  pub ptr : ℕ
  pub b : ℕ
  pub result : ℕ

-- *result | ((b & 0x7F) << shift), a uint32_t.
unfoldable pub leb_add : ℕ → ℕ → ℕ → ℕ
leb_add result b shift = bit_or result (bit_and b 0x7f * 2 ^ shift % 2 ^ 32)

-- `while (ptr < end)`, where the first argument is end - ptr.
unfoldable pub leb_loop : ℕ → List ℕ → ℕ → LebState → LebState
leb_loop zero mem shift s = s
leb_loop (suc n) mem shift s =
    let b = get_or mem s.ptr 0 in
    let s' : LebState = record { ptr = s.ptr + 1; b = b; result = leb_add s.result b shift } in
    let rest = leb_loop n mem (shift + 7) s' in if bit_and b 0x80 == 0 then s' else rest

-- What the reader returns and stores through its pointers.
pub record LebRead : Type 0 where
  pub code : ReadUnsignedLeb128ErrorCode
  pub len : ℕ
  pub value : ℕ

-- pc + 5, and at most limit.
unfoldable pub leb_end : ℕ → ℕ → ℕ
leb_end pc limit = if ltb limit (pc + 5) then limit else pc + 5

unfoldable pub leb_finish : ℕ → ℕ → LebState → LebRead
leb_finish pc end s =
    let len = s.ptr - pc in
    record {
      code =
          if (s.ptr == end) && not (bit_and s.b 0x80 == 0)
          then invalid_leb128
          else if len == 0
          then missing_leb128
          else no_error;
      len = len;
      value = s.result;
    }

unfoldable pub read_unsigned_leb128_operand : List ℕ → ℕ → ℕ → LebRead
unfolding leb_loop leb_add leb_end leb_finish
read_unsigned_leb128_operand mem pc limit =
    let end = leb_end pc limit in
    leb_finish pc end (leb_loop (end - pc) mem 0 (record { ptr = pc; b = 0; result = 0 }))
