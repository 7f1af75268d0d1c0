-- ===== src/Leb/RoundTrip.antt =====
-- What the LEB128 writers of wasm/encoder.cc store, the reader of wasm/ast-decoder.cc reads back.
use v8_native_prototype.Base.{
  ltb, if◌then◌else◌, ℕ, zero, suc, ◌+◌, ◌-◌, ◌/◌, ◌^◌, ◌≤◌, ◌<◌, ◌≡◌, ap, ap₂, ◌∙◌, true, List, [],
  ◌∷◌, ◌++◌, arith, length, All, drop, get_or-drop, drop-next,
}
use v8_native_prototype.Leb.Write.{var_int}
use v8_native_prototype.Leb.WriteLaws.{groups, var_int-groups}
use v8_native_prototype.Leb.Read.{no_error, read_unsigned_leb128_operand}
use v8_native_prototype.Leb.ReadLaws.{
  IsByte, window, leb_window, leb_ends, leb_count, leb_value, leb_meaning,
  read_unsigned_leb128_operand_lem,
}

-- Groups that a writer stored, with anything behind them.
pub groups_meaning :
    (k v : ℕ) (w : List ℕ)
    → v < 128 ^ suc k
    → (leb_ends (groups k v ++ w) ≡ true)
      × (leb_count (groups k v ++ w) ≡ length (groups k v))
      × (leb_value (groups k v ++ w) ≡ v)
unfolding groups leb_ends leb_count leb_value
groups_meaning zero v w h = ground arith
groups_meaning (suc k) v w h = ground (arith, groups_meaning k (v / 128) w (omega arith))

-- A writer stores at least one byte, at most five for a uint32_t, and nothing but bytes.
pub length-groups : (k v : ℕ) → (1 ≤ length (groups k v)) × (length (groups k v) ≤ suc k)
unfolding groups
length-groups zero v = omega arith
length-groups (suc k) v = ground (arith, length-groups k (v / 128))

pub groups-IsByte : (k v : ℕ) → All IsByte (groups k v)
unfolding groups
groups-IsByte zero v = omega arith
groups-IsByte (suc k) v = ground (arith, groups-IsByte k (v / 128))

-- A row of bytes that stands at p is what a window there shows first.
pub window-drop :
    (bs : List ℕ) (n : ℕ) (mem : List ℕ) (p : ℕ) (rest : List ℕ)
    → drop p mem ≡ bs ++ rest
    → length bs ≤ n
    → window n mem p ≡ bs ++ window (n - length bs) mem (p + length bs)
unfolding window
window-drop [] n mem p rest h k = ap₂ (λ (x y : ℕ). window x mem y) (omega arith) (omega arith)
window-drop (b ∷ bs) zero mem p rest h k = absurd (omega arith)
window-drop (b ∷ bs) (suc n) mem p rest h k =
    ap₂ (λ (x : ℕ) (ys : List ℕ). x ∷ ys) (get_or-drop p mem 0 b (bs ++ rest) h)
      (window-drop bs n mem (p + 1) rest (drop-next p mem b (bs ++ rest) h) (omega arith)
        ∙ ap₂ (λ (x y : ℕ). bs ++ window x mem y) (omega arith) (omega arith))

-- The window of a reader that starts at a number which ends in front of its limit.
window_span :
    (pc limit n : ℕ) → n ≤ 5 → pc + n ≤ limit → n ≤ (if ltb (limit - pc) 5 then limit - pc else 5)
window_span pc limit n h k = ground arith

leb_meaning-groups :
    (v : ℕ) (w : List ℕ)
    → v < 2 ^ 32
    → leb_meaning (groups 4 v ++ w)
      ≡ record { code = no_error; len = length (groups 4 v); value = v }
unfolding leb_meaning
leb_meaning-groups v w h = ground (arith, groups_meaning 4 v w (omega arith))

-- Where the bytes that EmitVarInt stores for a uint32_t v stand in a memory of bytes at pc and end in
-- front of the limit, the reader returns kNoError, v, and the number of those bytes, from 1
-- to 5, whatever stands behind them.
pub read-var_int :
    (mem : List ℕ) (pc limit v : ℕ) (rest : List ℕ)
    → All IsByte mem
    → v < 2 ^ 32
    → drop pc mem ≡ var_int v ++ rest
    → pc + length (var_int v) ≤ limit
    → (read_unsigned_leb128_operand mem pc limit
        ≡ record { code = no_error; len = length (var_int v); value = v })
      × (1 ≤ length (var_int v))
      × (length (var_int v) ≤ 5)
unfolding leb_window
read-var_int mem pc limit v rest bytes small at fits =
    let same = var_int-groups 4 v (omega arith) in
    let (low, high) = length-groups 4 v in
    let span = window_span pc limit (length (groups 4 v)) high (rw same at fits) in
    let seen = window-drop (groups 4 v) _ mem pc rest (rw same at at) span in
    rw same (
      read_unsigned_leb128_operand_lem mem pc limit bytes
          ∙ ap leb_meaning seen
          ∙ leb_meaning-groups v _ small,
      low,
      high,
    )
