-- ===== src/Leb/ReadLaws.antt =====
-- The LEB128 reader against a description that does not mention bits or pointers.
use native.Mathlib.Nat.{pow-suc}
use v8_native_prototype.Base.{
  ℕ, zero, suc, ◌+◌, ◌-◌, ◌*◌, ◌^◌, ◌%◌, ◌≤◌, ◌<◌, ◌≡◌, refl, ap, ◌∙◌, ◌⊎◌, inr, bit_and, Bool,
  true, false, List, [], ◌∷◌, ◌==◌, ltb, if◌then◌else◌, get_or, arith, length, All,
}
use v8_native_prototype.Base.Bits.{bit_or_shifted, bit_and_low_seven, bit_and_top_bit}
use v8_native_prototype.Leb.Read.{
  no_error, invalid_leb128, missing_leb128, LebState, LebRead, leb_add, leb_loop, leb_end,
  leb_finish, read_unsigned_leb128_operand,
}

-- A group goes on top of the groups before it; the fifth keeps only the bits that fit.
pub leb_add_lem :
    (i acc b : ℕ)
    → i ≤ 4
    → acc < 128 ^ i
    → b < 256
    → leb_add acc b (7 * i) ≡ (acc + b % 128 * 128 ^ i) % 2 ^ 32
unfolding leb_add
leb_add_lem zero acc b h k l =
    ground (arith, bit_and_low_seven b l, bit_or_shifted 0 acc (b % 128) k)
leb_add_lem (suc zero) acc b h k l =
    ground (arith, bit_and_low_seven b l, bit_or_shifted 7 acc (b % 128) k)
leb_add_lem (suc (suc zero)) acc b h k l =
    ground (arith, bit_and_low_seven b l, bit_or_shifted 14 acc (b % 128) k)
leb_add_lem (suc (suc (suc zero))) acc b h k l =
    ground (arith, bit_and_low_seven b l, bit_or_shifted 21 acc (b % 128) k)
leb_add_lem (suc (suc (suc (suc zero)))) acc b h k l =
    ground (arith, bit_and_low_seven b l, bit_or_shifted 28 acc (b % 16) (omega arith))
leb_add_lem (suc (suc (suc (suc (suc i))))) acc b h k l = absurd (omega arith)

-- The bytes at p, p + 1, ..., p + n - 1.
unfoldable pub window : ℕ → List ℕ → ℕ → List ℕ
window zero mem p = []
window (suc n) mem p = get_or mem p 0 ∷ window n mem (p + 1)

-- Of a row of bytes: the number that the groups up to the first byte below 128 stand for, how many
-- bytes that takes, and whether there is such a byte at all.
unfoldable pub leb_value : List ℕ → ℕ
leb_value [] = 0
leb_value (b ∷ bs) = if ltb b 128 then b else b % 128 + 128 * leb_value bs

unfoldable pub leb_count : List ℕ → ℕ
leb_count [] = 0
leb_count (b ∷ bs) = if ltb b 128 then 1 else suc (leb_count bs)

unfoldable pub leb_ends : List ℕ → Bool
leb_ends [] = false
leb_ends (b ∷ bs) = if ltb b 128 then true else leb_ends bs

abbrev pub IsByte : ℕ → Type 0
IsByte b = b < 256

pub get_or-IsByte : (mem : List ℕ) (p : ℕ) → All IsByte mem → get_or mem p 0 < 256
get_or-IsByte [] p h = omega arith
get_or-IsByte (b ∷ bs) zero h = h.0
get_or-IsByte (b ∷ bs) (suc p) h = get_or-IsByte bs p h.1

-- Whether the byte that the loop read last has its top bit clear.
abbrev last_clear : ℕ → ℕ → List ℕ → Bool
last_clear zero b w = bit_and b 0x80 == 0
last_clear (suc n) b w = leb_ends w

group_bound : (acc g t : ℕ) → acc < t → g < 128 → acc + g * t < t * 128
group_bound acc g t h k = grind arith

-- The groups still to come, one place further up.
next_group :
    (acc g v t : ℕ)
    → ((acc + g * t) % 2 ^ 32 + v * (t * 128)) % 2 ^ 32 ≡ (acc + (g + 128 * v) * t) % 2 ^ 32
next_group acc g v t = omega arith

module _ (mem : List ℕ) (bytes : All IsByte mem) where
  leb_loop_lem :
      (n i : ℕ) (s : LebState)
      → n + i ≤ 5
      → s.result < 128 ^ i
      → s.result < 2 ^ 32
      → let w = window n mem s.ptr in
        let r = leb_loop n mem (7 * i) s in
        (r.ptr ≡ s.ptr + leb_count w)
        × (r.result ≡ (s.result + leb_value w * 128 ^ i) % 2 ^ 32)
        × ((bit_and r.b 0x80 == 0) ≡ last_clear n s.b w)
  unfolding leb_loop window leb_count leb_value leb_ends
  leb_loop_lem zero i s h k m = ground arith
  leb_loop_lem (suc n) i s h k m =
      let b = get_or mem s.ptr 0 in
      let b_small : b < 256 = get_or-IsByte mem s.ptr bytes in
      let s' : LebState = record { ptr = s.ptr + 1; b = b; result = leb_add s.result b (7 * i) } in
      let added = leb_add_lem i s.result b (omega arith) k b_small in
      let bound = group_bound s.result (b % 128) (128 ^ i) k (omega arith) in
      let rest =
        leb_loop_lem n (suc i) s' (omega arith) (omega (arith, added, bound, pow-suc 128 i))
          (omega (arith, added)) in
      let next : 7 * i + 7 ≡ 7 * suc i = omega arith in
      rw next (
        ground (
          arith,
          added,
          rest,
          pow-suc 128 i,
          bit_and_top_bit b b_small,
          next_group s.result (b % 128) (leb_value (window n mem (s.ptr + 1))) (128 ^ i),
        ))

length-window : (n : ℕ) (mem : List ℕ) (p : ℕ) → length (window n mem p) ≡ n
unfolding window
length-window zero mem p = refl
length-window (suc n) mem p = omega (arith, length-window n mem (p + 1))

-- The count is the position of the byte that ends the number, or the whole row.
leb_count_cases :
    (w : List ℕ)
    → ((leb_ends w ≡ true) × (0 < leb_count w)) ⊎ ((leb_ends w ≡ false) × (leb_count w ≡ length w))
unfolding leb_ends leb_count
leb_count_cases [] = inr (refl, refl)
leb_count_cases (b ∷ bs) = ground (arith, leb_count_cases bs)

leb_end_span : (pc limit : ℕ) → leb_end pc limit - pc + 0 ≤ 5
unfolding leb_end
leb_end_span pc limit = ground arith

-- What a reader should make of the bytes that it may look at.
unfoldable pub leb_meaning : List ℕ → LebRead
unfolding leb_ends leb_count leb_value
leb_meaning w = record {
  code = if leb_ends w then no_error else if length w == 0 then missing_leb128 else invalid_leb128;
  len = leb_count w;
  value = leb_value w % 2 ^ 32;
}

-- The bytes from pc on, five at most, and none at or behind the limit.
unfoldable pub leb_window : List ℕ → ℕ → ℕ → List ℕ
leb_window mem pc limit = window (if ltb (limit - pc) 5 then limit - pc else 5) mem pc

pub leb_end_window :
    (pc limit : ℕ) → leb_end pc limit - pc ≡ (if ltb (limit - pc) 5 then limit - pc else 5)
unfolding leb_end
leb_end_window pc limit = ground arith

leb_finish_lem :
    (pc end : ℕ) (w : List ℕ) (s : LebState)
    → length w ≡ end - pc
    → s.ptr ≡ pc + leb_count w
    → s.result ≡ leb_value w % 2 ^ 32
    → (bit_and s.b 0x80 == 0) ≡ last_clear (length w) 0 w
    → leb_finish pc end s ≡ leb_meaning w
unfolding leb_finish leb_meaning
leb_finish_lem pc end [] s hn hp hr hb = ground arith
leb_finish_lem pc end (b ∷ bs) s hn hp hr hb = ground (arith, leb_count_cases (b ∷ bs))

-- On every memory of bytes, for every pointer and limit, ReadUnsignedLEB128Operand looks at the at
-- most five bytes in front of the limit and no others. If one of them is below 128 it returns
-- kNoError, the position behind the first such byte, and the number that the groups of seven bits
-- up to there stand for, lowest first, cut to 32 bits. If none is, it returns kMissingLEB128 where
-- there is no byte to look at, and kInvalidLEB128 otherwise.
pub read_unsigned_leb128_operand_lem :
    (mem : List ℕ) (pc limit : ℕ)
    → All IsByte mem
    → read_unsigned_leb128_operand mem pc limit ≡ leb_meaning (leb_window mem pc limit)
unfolding read_unsigned_leb128_operand leb_window
read_unsigned_leb128_operand_lem mem pc limit bytes =
    let n = leb_end pc limit - pc in
    let start : LebState = record { ptr = pc; b = 0; result = 0 } in
    let (hp, hr, hb) =
      leb_loop_lem mem bytes n 0 start (leb_end_span pc limit) (omega arith) (omega arith) in
    let size = length-window n mem pc in
    leb_finish_lem pc (leb_end pc limit) (window n mem pc) _ size hp (omega (arith, hr))
      (rw size hb)
    ∙ ap (λ (k : ℕ). leb_meaning (window k mem pc)) (leb_end_window pc limit)

-- On any memory, the loop does not go back or past its end.
pub leb_loop_span :
    (n : ℕ) (mem : List ℕ) (shift : ℕ) (s : LebState)
    → (s.ptr ≤ (leb_loop n mem shift s).ptr) × ((leb_loop n mem shift s).ptr ≤ s.ptr + n)
unfolding leb_loop
leb_loop_span zero mem shift s = omega arith
leb_loop_span (suc n) mem shift s = ground (
  arith,
  leb_loop_span n mem (shift + 7) (record {
    ptr = s.ptr + 1;
    b = get_or mem s.ptr 0;
    result = leb_add s.result (get_or mem s.ptr 0) shift;
  }),
)
