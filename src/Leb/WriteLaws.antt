-- ===== src/Leb/WriteLaws.antt =====
-- The two LEB128 writers of wasm/encoder.cc agree, and the shape of what they write.
use mathlib.Core.WellFounded.{Acc}
use v8_native_prototype.Base.{
  ℕ, zero, suc, ◌+◌, ◌/◌, ◌%◌, ◌^◌, ◌≤◌, ◌<◌, ◌≡◌, sym, ◌∙◌, List, [], ◌∷◌, ltb, arith,
  if◌then◌else◌,
}
use v8_native_prototype.Base.Bits.{
  bit_and_0x7f, bit_and_0xffffff80, bit_and_top_bit, bit_or_top_bit, top_bit_or, shift_right_seven,
}
use v8_native_prototype.Base.Order.{lt_wf}
use v8_native_prototype.Leb.Write.{
  leb128_next, var_int_loop, var_int, unsigned_leb128_loop, unsigned_leb128_from,
}

-- The groups of seven bits of a number, lowest first, all but the last with the top bit set; `k` is
-- one less than a bound on their number.
unfoldable pub groups : ℕ → ℕ → List ℕ
groups zero v = v % 128 ∷ []
groups (suc k) v =
    let rest = groups k (v / 128) in if ltb v 128 then v ∷ [] else (v % 128 + 128) ∷ rest

var_int_loop-groups : (k v : ℕ) (w : Acc ◌<◌ v) → v < 128 ^ suc k → var_int_loop v w ≡ groups k v
unfolding var_int_loop groups
var_int_loop-groups zero v (Acc.intro _ smaller) h = ground (arith, bit_and_0x7f v)
var_int_loop-groups (suc k) v (Acc.intro _ smaller) h = grind (
  arith,
  bit_and_0x7f v,
  top_bit_or (v % 128),
  λ (w : Acc ◌<◌ (v / 2 ^ 7)). var_int_loop-groups k (v / 128) w (omega arith),
)

pub var_int-groups : (k v : ℕ) → v < 128 ^ suc k → var_int v ≡ groups k v
unfolding var_int
var_int-groups k v h = var_int_loop-groups k v (lt_wf.apply v) h

leb128_next_small : (v : ℕ) → v < 128 → leb128_next v ≡ v
unfolding leb128_next
leb128_next_small v h = ground (arith, bit_and_0xffffff80 v (omega arith))

leb128_next_large : (v : ℕ) → 128 ≤ v → v < 2 ^ 32 → leb128_next v ≡ v % 128 + 128
unfolding leb128_next
leb128_next_large v h k =
    ground (arith, bit_and_0xffffff80 v k, bit_or_top_bit (v % 256) (omega arith))

unsigned_leb128_loop-groups :
    (k result shift v : ℕ)
    → v ≡ result / 2 ^ shift
    → v < 2 ^ 32
    → v < 128 ^ suc k
    → unsigned_leb128_loop (suc k) result shift ≡ groups k v
unfolding unsigned_leb128_loop groups
unsigned_leb128_loop-groups zero result shift v e b h =
    rw (← e, leb128_next_small v (omega arith), bit_and_top_bit v (omega arith)) (ground arith)
unsigned_leb128_loop-groups (suc k) result shift v e b h =
    let rest =
      unsigned_leb128_loop-groups k result (shift + 7) (v / 128)
        (rw e (sym (shift_right_seven result shift))) (omega arith) (omega arith) in
    rw (← e) (
      ground
        (arith, rest, leb128_next_small v, leb128_next_large v, bit_and_top_bit (leb128_next v)))

-- UnsignedLEB128From writes the bytes that EmitVarInt writes, for every uint32_t.
pub unsigned_leb128_from-var_int : (v : ℕ) → v < 2 ^ 32 → unsigned_leb128_from v ≡ var_int v
unfolding unsigned_leb128_from
unsigned_leb128_from-var_int v h =
    unsigned_leb128_loop-groups 4 v 0 v (omega arith) h (omega arith)
    ∙ sym (var_int-groups 4 v (omega arith))
