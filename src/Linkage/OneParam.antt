-- ===== src/Linkage/OneParam.antt =====
-- One parameter in GetWasmCallDescriptor (wasm/wasm-linkage.cc): the allocator after it, against
-- the places that the values before it take.
use Prim.Native.Nat.{min}
use v8_native_prototype.Base.{
  ℕ, zero, suc, ◌+◌, ◌≤◌, ◌<◌, ◌≡◌, refl, ap, arith, true, false, List, [], ◌∷◌, ◌++◌, length,
  length-append, drop, drop-nil, if◌then◌else◌,
}
use v8_native_prototype.Opcodes.Types.{LocalType}
use v8_native_prototype.Linkage.Alloc.{Target, Allocator, is_floating_point, words}
use v8_native_prototype.Linkage.Placement.{Registers, floats, ints, words_of, stack_words}

-- The allocator behind a row of values.
pub record After (t : Target) (regs : Registers) (types : List LocalType) (a : Allocator)
    : Type 0 where
  pub gp_regs : a.gp_regs ≡ regs.gp
  pub gp_count : a.gp_count ≡ length regs.gp
  pub gp_offset : a.gp_offset ≡ min (length regs.gp) (length (ints types))
  pub fp_regs : a.fp_regs ≡ regs.fp
  pub fp_count : a.fp_count ≡ length regs.fp
  pub fp_offset : a.fp_offset ≡ min (length regs.fp) (length (floats types))
  pub stack_offset : a.stack_offset ≡ stack_words t regs types

-- A value more at the end of a row is one more of its class.
pub floats-snoc :
    (types : List LocalType) (type : LocalType)
    → floats (types ++ (type ∷ []))
      ≡ (if is_floating_point type then floats types ++ (type ∷ []) else floats types)
unfolding floats
floats-snoc [] type = refl
floats-snoc (u ∷ types) type = ground (arith, floats-snoc types type)

pub ints-snoc :
    (types : List LocalType) (type : LocalType)
    → ints (types ++ (type ∷ []))
      ≡ (if is_floating_point type then ints types else ints types ++ (type ∷ []))
unfolding ints
ints-snoc [] type = refl
ints-snoc (u ∷ types) type = ground (arith, ints-snoc types type)

-- The words behind the first n values, with one value more at the end.
pub words_of-drop_within :
    (t : Target) (n : ℕ) (types : List LocalType) (type : LocalType)
    → length types < n
    → words_of t (drop n (types ++ (type ∷ []))) ≡ words_of t (drop n types)
unfolding words_of
words_of-drop_within t zero types type h = absurd (omega arith)
words_of-drop_within t (suc n) [] type h = ap (words_of t) (drop-nil n)
words_of-drop_within t (suc n) (u ∷ types) type h =
    words_of-drop_within t n types type (omega arith)

pub words_of-drop_past :
    (t : Target) (n : ℕ) (types : List LocalType) (type : LocalType)
    → n ≤ length types
    → words_of t (drop n (types ++ (type ∷ []))) ≡ words_of t (drop n types) + words t type
unfolding words_of
words_of-drop_past t zero [] type h = omega arith
words_of-drop_past t zero (u ∷ types) type h =
    omega (arith, words_of-drop_past t 0 types type (omega arith))
words_of-drop_past t (suc n) [] type h = absurd (omega arith)
words_of-drop_past t (suc n) (u ∷ types) type h = words_of-drop_past t n types type (omega arith)

pub fp_full-After :
    (t : Target) (regs : Registers) (types : List LocalType) (type : LocalType) (a : Allocator)
    → After t regs types a
    → is_floating_point type ≡ true
    → length regs.fp ≤ length (floats types)
    → After t regs
        (types ++ (type ∷ []))
        (record a { stack_offset = a.stack_offset + words t type })
unfolding stack_words
fp_full-After t regs types type a v fl h =
    let fs = floats-snoc types type in
    let is = ints-snoc types type in
    record {
      gp_regs = ground (arith, fl, h, fs, is, v.gp_regs);
      gp_count = ground (arith, fl, h, fs, is, v.gp_count);
      gp_offset = ground (arith, fl, h, fs, is, v.gp_offset);
      fp_regs = ground (arith, fl, h, fs, is, v.fp_regs);
      fp_count = ground (arith, fl, h, fs, is, v.fp_count);
      fp_offset =
          ground (arith, fl, h, fs, is, v.fp_offset, length-append (floats types) (type ∷ []));
      stack_offset = ground (
        arith,
        fl,
        h,
        fs,
        is,
        v.stack_offset,
        words_of-drop_past t (length regs.fp) (floats types) type h,
      );
    }

pub fp_free-After :
    (t : Target) (regs : Registers) (types : List LocalType) (type : LocalType) (a : Allocator)
    → After t regs types a
    → is_floating_point type ≡ true
    → length (floats types) < length regs.fp
    → After t regs (types ++ (type ∷ [])) (record a { fp_offset = a.fp_offset + 1 })
unfolding stack_words
fp_free-After t regs types type a v fl h =
    let fs = floats-snoc types type in
    let is = ints-snoc types type in
    record {
      gp_regs = ground (arith, fl, h, fs, is, v.gp_regs);
      gp_count = ground (arith, fl, h, fs, is, v.gp_count);
      gp_offset = ground (arith, fl, h, fs, is, v.gp_offset);
      fp_regs = ground (arith, fl, h, fs, is, v.fp_regs);
      fp_count = ground (arith, fl, h, fs, is, v.fp_count);
      fp_offset =
          ground (arith, fl, h, fs, is, v.fp_offset, length-append (floats types) (type ∷ []));
      stack_offset = ground (
        arith,
        fl,
        h,
        fs,
        is,
        v.stack_offset,
        words_of-drop_within t (length regs.fp) (floats types) type h,
      );
    }

pub gp_full-After :
    (t : Target) (regs : Registers) (types : List LocalType) (type : LocalType) (a : Allocator)
    → After t regs types a
    → is_floating_point type ≡ false
    → length regs.gp ≤ length (ints types)
    → After t regs
        (types ++ (type ∷ []))
        (record a { stack_offset = a.stack_offset + words t type })
unfolding stack_words
gp_full-After t regs types type a v fl h =
    let fs = floats-snoc types type in
    let is = ints-snoc types type in
    record {
      gp_regs = ground (arith, fl, h, fs, is, v.gp_regs);
      gp_count = ground (arith, fl, h, fs, is, v.gp_count);
      gp_offset =
          ground (arith, fl, h, fs, is, v.gp_offset, length-append (ints types) (type ∷ []));
      fp_regs = ground (arith, fl, h, fs, is, v.fp_regs);
      fp_count = ground (arith, fl, h, fs, is, v.fp_count);
      fp_offset = ground (arith, fl, h, fs, is, v.fp_offset);
      stack_offset = ground (
        arith,
        fl,
        h,
        fs,
        is,
        v.stack_offset,
        words_of-drop_past t (length regs.gp) (ints types) type h,
      );
    }

pub gp_free-After :
    (t : Target) (regs : Registers) (types : List LocalType) (type : LocalType) (a : Allocator)
    → After t regs types a
    → is_floating_point type ≡ false
    → length (ints types) < length regs.gp
    → After t regs (types ++ (type ∷ [])) (record a { gp_offset = a.gp_offset + 1 })
unfolding stack_words
gp_free-After t regs types type a v fl h =
    let fs = floats-snoc types type in
    let is = ints-snoc types type in
    record {
      gp_regs = ground (arith, fl, h, fs, is, v.gp_regs);
      gp_count = ground (arith, fl, h, fs, is, v.gp_count);
      gp_offset =
          ground (arith, fl, h, fs, is, v.gp_offset, length-append (ints types) (type ∷ []));
      fp_regs = ground (arith, fl, h, fs, is, v.fp_regs);
      fp_count = ground (arith, fl, h, fs, is, v.fp_count);
      fp_offset = ground (arith, fl, h, fs, is, v.fp_offset);
      stack_offset = ground (
        arith,
        fl,
        h,
        fs,
        is,
        v.stack_offset,
        words_of-drop_within t (length regs.gp) (ints types) type h,
      );
    }
