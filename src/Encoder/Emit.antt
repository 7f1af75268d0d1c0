-- ===== src/Encoder/Emit.antt =====
-- The Emit functions of wasm/encoder.cc. The buffer is a list of bytes, and the two pointers into it
-- are indices; a write behind its end is lost. Memory is little-endian.
use v8_native_prototype.Base.{ℕ, ◌+◌, ◌/◌, ◌%◌, List, [], ◌∷◌, set, length}
use v8_native_prototype.Leb.Write.{var_int}

-- The buffer of WriteTo with its header and body pointers.
pub record Output : Type 0 where
  pub buffer : List ℕ
  pub header : ℕ
  pub body : ℕ

-- Bytes stored one after another from an address on.
unfoldable pub store : List ℕ → ℕ → List ℕ → List ℕ
store mem p [] = mem
store mem p (b ∷ bs) = store (set mem p b) (p + 1) bs

-- Bytes stored at the header pointer, which moves behind them.
unfoldable pub emit_bytes : List ℕ → Output → Output
unfolding store
emit_bytes bs o = record o { buffer = store o.buffer o.header bs; header = o.header + length bs }

-- Bytes stored at the body pointer.
unfoldable pub emit_body : List ℕ → Output → Output
unfolding store
emit_body bs o = record o { buffer = store o.buffer o.body bs; body = o.body + length bs }

unfoldable pub u8_bytes : ℕ → List ℕ
u8_bytes x = x % 256 ∷ []

unfoldable pub u16_bytes : ℕ → List ℕ
u16_bytes x = x % 256 ∷ x / 256 % 256 ∷ []

unfoldable pub u32_bytes : ℕ → List ℕ
u32_bytes x = x % 256 ∷ x / 256 % 256 ∷ x / 256 / 256 % 256 ∷ x / 256 / 256 / 256 % 256 ∷ []

-- EmitUint8(&header, x), and the same for the other widths.
abbrev pub emit_uint8 : ℕ → Output → Output
emit_uint8 x = emit_bytes (u8_bytes x)

abbrev pub emit_uint16 : ℕ → Output → Output
emit_uint16 x = emit_bytes (u16_bytes x)

abbrev pub emit_uint32 : ℕ → Output → Output
emit_uint32 x = emit_bytes (u32_bytes x)

abbrev pub emit_var_int : ℕ → Output → Output
emit_var_int val = emit_bytes (var_int val)
