-- ===== src/Leb/Write.antt =====
-- EmitVarInt and UnsignedLEB128From of wasm/encoder.cc, as the bytes that they store, in order.
use mathlib.Core.Logic.{dite}
use mathlib.Core.WellFounded.{Acc}
use native.Mathlib.Decide.{dec_lt}
use v8_native_prototype.Base.{
  ℕ, zero, suc, ◌+◌, ◌/◌, ◌%◌, ◌^◌, ◌<◌, bit_and, bit_or, not, List, [], ◌∷◌, ◌==◌, arith,
  if◌then◌else◌,
}
use v8_native_prototype.Base.Order.{lt_wf}

pub next_shrinks : (val : ℕ) → 0 < val / 2 ^ 7 → val / 2 ^ 7 < val
next_shrinks val h = omega arith

-- The loop of EmitVarInt: it goes on while `next = val >> 7` is not 0.
unfoldable pub var_int_loop : (val : ℕ) → Acc ◌<◌ val → List ℕ
var_int_loop val (Acc.intro _ smaller) =
    let out = bit_and val 0x7f % 256 in
    dite (dec_lt 0 (val / 2 ^ 7))
      (λ more. bit_or 0x80 out ∷ var_int_loop (val / 2 ^ 7) (smaller _ (next_shrinks val more)))
      (λ _. out ∷ [])

-- The bytes that EmitVarInt stores.
unfoldable pub var_int : ℕ → List ℕ
unfolding var_int_loop lt_wf dec_lt
var_int val = var_int_loop val (lt_wf.apply val)

-- The byte `next` of UnsignedLEB128From, where `v` is `result >> shift`.
unfoldable pub leb128_next : ℕ → ℕ
leb128_next v = if not (bit_and v 0xffff_ff80 == 0) then bit_or (v % 256) 0x80 else v % 256

-- The loop of UnsignedLEB128From; the fuel counts its rounds.
unfoldable pub unsigned_leb128_loop : ℕ → ℕ → ℕ → List ℕ
unsigned_leb128_loop zero result shift = []
unsigned_leb128_loop (suc fuel) result shift =
    let next = leb128_next (result / 2 ^ shift) in
    let rest = unsigned_leb128_loop fuel result (shift + 7) in
    next ∷ (if not (bit_and next 0x80 == 0) then rest else [])

-- A uint32_t has at most five groups of seven bits, so five rounds are enough.
unfoldable pub unsigned_leb128_from : ℕ → List ℕ
unfolding unsigned_leb128_loop leb128_next
unsigned_leb128_from result = unsigned_leb128_loop 5 result 0
