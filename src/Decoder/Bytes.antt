-- ===== src/Decoder/Bytes.antt =====
-- What the readers of wasm/decoder.h return for the bytes in front of them.
use v8_native_prototype.Base.{
  ℕ, ◌+◌, ◌*◌, ◌^◌, ◌≤◌, ◌<◌, ◌≡◌, ap, ◌∙◌, List, [], ◌∷◌, ◌++◌, arith, length, drop, get_or,
  get_or-add,
}
use v8_native_prototype.Base.Bits.{shifted_bit_or}
use v8_native_prototype.Decoder.State.{Decoder}
use v8_native_prototype.Decoder.Reads.{byte_at, join_u16, join_u32, u8, u16, u32}

-- At the bytes `bs`, with all of them between start and limit.
pub record IsAt (d : Decoder) (bs : List ℕ) (rest : List ℕ) : Type 0 where
  pub stands : drop d.pc d.mem ≡ bs ++ rest
  pub above : d.start ≤ d.pc
  pub fits : d.pc + length bs ≤ d.limit

pub byte_at-drop :
    (d : Decoder) (i : ℕ) (bs : List ℕ) → drop d.pc d.mem ≡ bs → byte_at d i ≡ get_or bs i 0
byte_at-drop d i bs h = get_or-add d.pc i d.mem 0 ∙ ap (λ (xs : List ℕ). get_or xs i 0) h

pub u8_lem :
    (d : Decoder) (b : ℕ) (rest : List ℕ)
    → IsAt d (b ∷ []) rest
    → u8 d ≡ (b, record d { pc = d.pc + 1 })
unfolding u8
u8_lem d b rest h = ground (arith, byte_at-drop d 0 _ h.stands)

pub join_u16_lem : (b0 b1 : ℕ) → b0 < 256 → b1 < 256 → join_u16 b0 b1 ≡ b0 + b1 * 256
unfolding join_u16
join_u16_lem b0 b1 h k = ground (arith, shifted_bit_or 8 b1 b0 h)

pub u16_lem :
    (d : Decoder) (b0 b1 : ℕ) (rest : List ℕ)
    → b0 < 256
    → b1 < 256
    → IsAt d (b0 ∷ b1 ∷ []) rest
    → u16 d ≡ (b0 + b1 * 256, record d { pc = d.pc + 2 })
unfolding u16
u16_lem d b0 b1 rest k l h =
    ground (arith, join_u16_lem b0 b1 k l, byte_at-drop d 0 _ h.stands, byte_at-drop d 1 _ h.stands)

pub join_u32_lem :
    (b0 b1 b2 b3 : ℕ)
    → b0 < 256
    → b1 < 256
    → b2 < 256
    → b3 < 256
    → join_u32 b0 b1 b2 b3 ≡ b0 + b1 * 256 + b2 * 256 * 256 + b3 * 256 * 256 * 256
unfolding join_u32
join_u32_lem b0 b1 b2 b3 h0 h1 h2 h3 = ground (
  arith,
  shifted_bit_or 24 b3 (b2 * 2 ^ 16) (omega arith),
  shifted_bit_or 16 (b3 * 256 + b2) (b1 * 2 ^ 8) (omega arith),
  shifted_bit_or 8 ((b3 * 256 + b2) * 256 + b1) b0 (omega arith),
)

-- Where four bytes stand between pc and the limit, u32 returns the number that they spell, lowest byte
-- first, and moves pc behind them without an error.
pub u32_lem :
    (d : Decoder) (b0 b1 b2 b3 : ℕ) (rest : List ℕ)
    → b0 < 256
    → b1 < 256
    → b2 < 256
    → b3 < 256
    → IsAt d (b0 ∷ b1 ∷ b2 ∷ b3 ∷ []) rest
    → u32 d ≡ (b0 + b1 * 256 + b2 * 256 * 256 + b3 * 256 * 256 * 256, record d { pc = d.pc + 4 })
unfolding u32
u32_lem d b0 b1 b2 b3 rest h0 h1 h2 h3 h = ground (
  arith,
  join_u32_lem b0 b1 b2 b3 h0 h1 h2 h3,
  byte_at-drop d 0 _ h.stands,
  byte_at-drop d 1 _ h.stands,
  byte_at-drop d 2 _ h.stands,
  byte_at-drop d 3 _ h.stands,
)
