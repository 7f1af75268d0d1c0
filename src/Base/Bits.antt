-- ===== src/Base/Bits.antt =====
-- Laws of the masks and shifts that the readers and writers use: `|` of fields that do not overlap
-- is a sum, and the masks 0x7f and 0x80 on a byte are arithmetic.
use Prim.Native.Nat.{
  ℕ, zero, suc, ◌+◌, ◌*◌, ◌/◌, ◌%◌, ◌^◌, ◌≤◌, ◌<◌, min, max, bit_and, bit_or, digits,
  bit_or-bitwise, bit_and-bitwise,
}
use mathlib.Core.Path.{◌≡◌, refl, sym, ap, ap₂, ◌∙◌}
use mathlib.Core.Bool.{Bool, true, ◌&&◌}
use native.Mathlib.Omega.{arith}
use native.Mathlib.Nat.{pow-suc, div-div-eq-div-mul}
use native.Mathlib.Numerals.{towards_suc}
use v8_native_prototype.Base.Tests.{◌==◌, ==_iff}

-- Evaluation of a test at every number below a bound.
abbrev pub all_below : ℕ → (ℕ → Bool) → Bool
all_below zero p = true
all_below (suc n) p = p n && all_below n p

pub all_below_sound : (n : ℕ) (p : ℕ → Bool) (x : ℕ) → all_below n p ≡ true → x < n → p x ≡ true
all_below_sound zero p x h lt = absurd (omega arith)
all_below_sound (suc n) p x h lt = ground (arith, all_below_sound n p x)

low_seven_table : all_below 256 (λ b. bit_and b 0x7f == b % 128) ≡ true
low_seven_table = refl

pub bit_and_low_seven : (b : ℕ) → b < 256 → bit_and b 0x7f ≡ b % 128
bit_and_low_seven b h =
    (==_iff _ _).0 (all_below_sound 256 (λ x. bit_and x 0x7f == x % 128) b low_seven_table h)

top_bit_table : all_below 256 (λ b. bit_and b 0x80 == b / 128 * 128) ≡ true
top_bit_table = refl

pub bit_and_top_bit : (b : ℕ) → b < 256 → bit_and b 0x80 ≡ b / 128 * 128
bit_and_top_bit b h =
    (==_iff _ _).0 (all_below_sound 256 (λ x. bit_and x 0x80 == x / 128 * 128) b top_bit_table h)

set_top_bit_table : all_below 256 (λ b. bit_or b 0x80 == b % 128 + 128) ≡ true
set_top_bit_table = refl

pub bit_or_top_bit : (b : ℕ) → b < 256 → bit_or b 0x80 ≡ b % 128 + 128
bit_or_top_bit b h =
    (==_iff _ _).0 (all_below_sound 256 (λ x. bit_or x 0x80 == x % 128 + 128) b set_top_bit_table h)

top_bit_or_table : all_below 128 (λ b. bit_or 0x80 b == b + 128) ≡ true
top_bit_or_table = refl

pub top_bit_or : (b : ℕ) → b < 128 → bit_or 0x80 b ≡ b + 128
top_bit_or b h =
    (==_iff _ _).0 (all_below_sound 128 (λ x. bit_or 0x80 x == x + 128) b top_bit_or_table h)

-- The native operations stand for a recursion on binary digits; its count of rounds does not matter.
module _ (z : ℕ → ℕ) (f : ℕ → ℕ → ℕ) where
  rounds_enough : (n m a b : ℕ) → a ≤ n → a ≤ m → digits z f n a b ≡ digits z f m a b
  rounds_enough zero zero a b p q = refl
  rounds_enough zero (suc m) zero b p q = refl
  rounds_enough zero (suc m) (suc a) b p q = absurd (omega arith)
  rounds_enough (suc n) zero zero b p q = refl
  rounds_enough (suc n) zero (suc a) b p q = absurd (omega arith)
  rounds_enough (suc n) (suc m) zero b p q = refl
  rounds_enough (suc n) (suc m) (suc a) b p q =
      ap (λ (t : ℕ). t * 2 + f (suc a % 2) (b % 2))
        (rounds_enough n m (suc a / 2) (b / 2) (omega arith) (omega arith))

abbrev same_digits : ℕ → ℕ
same_digits y = y

abbrev no_digits : ℕ → ℕ
no_digits y = 0

bit_or_lowest : (a b : ℕ) → bit_or a b ≡ bit_or (a / 2) (b / 2) * 2 + max (a % 2) (b % 2)
bit_or_lowest zero b = omega (arith, bit_or-bitwise 0 b, bit_or-bitwise 0 (b / 2))
bit_or_lowest (suc a) b = omega (
  arith,
  bit_or-bitwise (suc a) b,
  bit_or-bitwise (suc a / 2) (b / 2),
  rounds_enough same_digits max a (suc a / 2) (suc a / 2) (b / 2) (omega arith) (omega arith),
)

bit_and_lowest : (a b : ℕ) → bit_and a b ≡ bit_and (a / 2) (b / 2) * 2 + min (a % 2) (b % 2)
bit_and_lowest zero b = omega (arith, bit_and-bitwise 0 b, bit_and-bitwise 0 (b / 2))
bit_and_lowest (suc a) b = omega (
  arith,
  bit_and-bitwise (suc a) b,
  bit_and-bitwise (suc a / 2) (b / 2),
  rounds_enough no_digits min a (suc a / 2) (suc a / 2) (b / 2) (omega arith) (omega arith),
)

pub zero-bit_or : (b : ℕ) → bit_or 0 b ≡ b
zero-bit_or b = bit_or-bitwise 0 b

bit_or-zero_rounds : (n a : ℕ) → a ≤ n → bit_or a 0 ≡ a
bit_or-zero_rounds n zero h = zero-bit_or 0
bit_or-zero_rounds zero (suc a) h = absurd (omega arith)
bit_or-zero_rounds (suc n) (suc a) h =
    omega (arith, bit_or_lowest (suc a) 0, bit_or-zero_rounds n (suc a / 2) (omega arith))

pub bit_or-zero : (a : ℕ) → bit_or a 0 ≡ a
bit_or-zero a = bit_or-zero_rounds a a (omega arith)

double_shift : (b k : ℕ) → b * 2 ^ suc k ≡ 2 * (b * 2 ^ k)
double_shift b k = omega (arith, ap (λ (t : ℕ). b * t) (pow-suc 2 k))

-- `low | (high << k)` where `low` has `k` bits.
pub bit_or_shifted : (k low high : ℕ) → low < 2 ^ k → bit_or low (high * 2 ^ k) ≡ low + high * 2 ^ k
bit_or_shifted zero low high h = ground (arith, zero-bit_or high)
bit_or_shifted (suc k) low high h = ground (
  arith,
  bit_or_lowest low (high * 2 ^ suc k),
  double_shift high k,
  pow-suc 2 k,
  bit_or_shifted k (low / 2) high (omega (arith, pow-suc 2 k)),
)

-- `(high << k) | low`.
pub shifted_bit_or : (k high low : ℕ) → low < 2 ^ k → bit_or (high * 2 ^ k) low ≡ high * 2 ^ k + low
shifted_bit_or zero high low h = ground (arith, bit_or-zero high)
shifted_bit_or (suc k) high low h = ground (
  arith,
  bit_or_lowest (high * 2 ^ suc k) low,
  double_shift high k,
  pow-suc 2 k,
  shifted_bit_or k high (low / 2) (omega (arith, pow-suc 2 k)),
)

bit_and-zero_rounds : (n a : ℕ) → a ≤ n → bit_and a 0 ≡ 0
bit_and-zero_rounds n zero h = bit_and-bitwise 0 0
bit_and-zero_rounds zero (suc a) h = absurd (omega arith)
bit_and-zero_rounds (suc n) (suc a) h =
    omega (arith, bit_and_lowest (suc a) 0, bit_and-zero_rounds n (suc a / 2) (omega arith))

bit_and_half :
    (a b q r : ℕ) → b ≡ q * 2 + r → r < 2 → bit_and a b ≡ bit_and (a / 2) q * 2 + min (a % 2) r
bit_and_half a b q r e h =
    bit_and_lowest a b
    ∙ ap₂ (λ (x y : ℕ). bit_and (a / 2) x * 2 + min (a % 2) y) (omega arith) (omega arith)

-- `ones k` has k one bits.
abbrev ones : ℕ → ℕ
ones zero = 0
ones (suc k) = ones k * 2 + 1

bit_and-ones : (k a : ℕ) → a < 2 ^ k → bit_and a (ones k) ≡ a
bit_and-ones zero a h = bit_and-zero_rounds a a (omega arith) ∙ omega arith
bit_and-ones (suc k) a h = omega (
  arith,
  bit_and_half a (ones (suc k)) (ones k) 1 refl (omega arith),
  bit_and-ones k (a / 2) (omega (arith, pow-suc 2 k)),
)

mask_step :
    (a q m : ℕ) → bit_and (a / 2) q ≡ a / 2 % m → bit_and a (q * 2 + 1) ≡ a / 2 % m * 2 + a % 2
mask_step a q m h =
    bit_and_half a (q * 2 + 1) q 1 refl (omega arith) ∙ ap₂ (λ (x y : ℕ). x * 2 + y) h (omega arith)

bit_and_0x07 : (v : ℕ) → bit_and v 7 ≡ v % 8
bit_and_0x07 v = mask_step v 3 4 (bit_and_0x03 (v / 2)) ∙ omega arith
  where
    bit_and_0x01 : (x : ℕ) → bit_and x 1 ≡ x % 2
    bit_and_0x01 x =
        mask_step x 0 1 (bit_and-zero_rounds (x / 2) (x / 2) (omega arith) ∙ omega arith)
        ∙ omega arith

    bit_and_0x03 : (x : ℕ) → bit_and x 3 ≡ x % 4
    bit_and_0x03 x = mask_step x 1 2 (bit_and_0x01 (x / 2)) ∙ omega arith

bit_and_0x1f : (v : ℕ) → bit_and v 0x1f ≡ v % 32
bit_and_0x1f v = mask_step v 15 16 (bit_and_0x0f (v / 2)) ∙ omega arith
  where
    bit_and_0x0f : (x : ℕ) → bit_and x 0xf ≡ x % 16
    bit_and_0x0f x = mask_step x 7 8 (bit_and_0x07 (x / 2)) ∙ omega arith

bit_and_0x3f : (v : ℕ) → bit_and v 0x3f ≡ v % 64
bit_and_0x3f v = mask_step v 31 32 (bit_and_0x1f (v / 2)) ∙ omega arith

-- `v & 0x7f` at every width.
pub bit_and_0x7f : (v : ℕ) → bit_and v 0x7f ≡ v % 128
bit_and_0x7f v = mask_step v 63 64 (bit_and_0x3f (v / 2)) ∙ omega arith

-- One more zero below a mask.
bit_and_even : (a m : ℕ) → bit_and a (m * 2) ≡ bit_and (a / 2) m * 2
bit_and_even a m = bit_and_half a (m * 2) m 0 (omega arith) (omega arith) ∙ omega arith

abbrev halves : ℕ → ℕ → ℕ
halves zero a = a
halves (suc k) a = halves k (a / 2)

times_one : (m : ℕ) → m * 1 ≡ m
times_one m = omega arith

shift_even : (m k : ℕ) → m * 2 ^ suc k ≡ m * 2 ^ k * 2
shift_even m k = omega (arith, double_shift m k)

-- A mask with zeros below keeps the bits above.
bit_and_shifted : (k a m : ℕ) → bit_and a (m * 2 ^ k) ≡ bit_and (halves k a) m * 2 ^ k
bit_and_shifted zero a m = ap (bit_and a) (times_one m) ∙ sym (times_one (bit_and a m))
bit_and_shifted (suc k) a m =
    ap (bit_and a) (shift_even m k)
    ∙ bit_and_even a (m * 2 ^ k)
    ∙ ap (λ (t : ℕ). t * 2) (bit_and_shifted k (a / 2) m)
    ∙ sym (shift_even (bit_and (halves k (a / 2)) m) k)

halves_seven : (a : ℕ) → halves 7 a ≡ a / 128
halves_seven a = omega arith

-- `v & 0xFFFFFF80` on a uint32_t.
pub bit_and_0xffffff80 : (v : ℕ) → v < 2 ^ 32 → bit_and v 0xffff_ff80 ≡ v / 128 * 128
bit_and_0xffffff80 v h =
    bit_and_shifted 7 v 0x1ff_ffff
    ∙ ap (λ (t : ℕ). bit_and t 0x1ff_ffff * 128) (halves_seven v)
    ∙ ap (λ (t : ℕ). t * 128) (bit_and-ones 25 (v / 128) (omega arith))

-- A mask of ones above k zeros.
bit_and_high : (k j v q : ℕ) → halves k v ≡ q → q < 2 ^ j → bit_and v (ones j * 2 ^ k) ≡ q * 2 ^ k
bit_and_high k j v q e h =
    bit_and_shifted k v (ones j)
    ∙ ap (λ (t : ℕ). bit_and t (ones j) * 2 ^ k) e
    ∙ ap (λ (t : ℕ). t * 2 ^ k) (bit_and-ones j q h)

-- `v & ~(size - 1)` on a uint32_t, for the sizes 1, 2, 4 and 8.
pub bit_and_not_0 : (v : ℕ) → v < 2 ^ 32 → bit_and v 0xffff_ffff ≡ v
bit_and_not_0 v h = bit_and_high 0 32 v v refl h ∙ omega arith

pub bit_and_not_1 : (v : ℕ) → v < 2 ^ 32 → bit_and v 0xffff_fffe ≡ v / 2 * 2
bit_and_not_1 v h = bit_and_high 1 31 v (v / 2) refl (omega arith)

pub bit_and_not_3 : (v : ℕ) → v < 2 ^ 32 → bit_and v 0xffff_fffc ≡ v / 4 * 4
bit_and_not_3 v h = bit_and_high 2 30 v (v / 4) (omega arith) (omega arith)

pub bit_and_not_7 : (v : ℕ) → v < 2 ^ 32 → bit_and v 0xffff_fff8 ≡ v / 8 * 8
bit_and_not_7 v h = bit_and_high 3 29 v (v / 8) (omega arith) (omega arith)

pub shift_seven : (s : ℕ) → 2 ^ (s + 7) ≡ 2 ^ s * 128
shift_seven s = simp towards_suc (omega arith)

-- `x >> (s + 7)` is `(x >> s) >> 7`.
pub shift_right_seven : (x s : ℕ) → x / 2 ^ (s + 7) ≡ x / 2 ^ s / 128
shift_right_seven x s = rw (shift_seven s) (sym (div-div-eq-div-mul x (2 ^ s) 128))
