-- ===== src/Linkage/Distinct.antt =====
-- That no configuration of wasm/wasm-linkage.cc names a register twice: the registers are numbered, and
-- the numbers compared.
use v8_native_prototype.Base.{
  ℕ, zero, suc, ◌<◌, ◌≡◌, ◌≢◌, refl, arith, Bool, true, not, ◌&&◌, List, [], ◌∷◌, some, get_elem?,
  ◌==◌,
}
use v8_native_prototype.Linkage.Registers.{
  Architecture, Register, DoubleRegister, gp_param_registers, fp_param_registers, arch_ia32,
  arch_x64, arch_x87, arch_arm, arch_arm64, arch_mips, arch_mips64, arch_ppc, arch_unknown, eax,
  edx, ecx, ebx, esi, edi, rax, rdx, rcx, rbx, rsi, rdi, r0, r1, r2, r3, r4, r5, r6, r7, r8, r9,
  r10, x0, x1, x2, x3, x4, x5, x6, x7, a0, a1, a2, a3, a4, a5, a6, a7, v0, v1, xmm1, xmm2, xmm3,
  xmm4, xmm5, xmm6, d0, d1, d2, d3, d4, d5, d6, d7, f2, f4, f6, f8, f10, f12, f14,
}

module _ {ℓ} {A : Type ℓ} (rank : A → ℕ) where
  abbrev unlike : A → List A → Bool
  unlike x [] = true
  unlike x (y ∷ ys) = not (rank x == rank y) && unlike x ys

  abbrev distinct : List A → Bool
  distinct [] = true
  distinct (x ∷ xs) = unlike x xs && distinct xs

  unlike_sound :
      (x : A) (ys : List A) (i : ℕ) (y : A) → unlike x ys ≡ true → get_elem? ys i ≡ some y → x ≢ y
  unlike_sound x [] i y h e = cc
  unlike_sound x (z ∷ ys) zero y h e = ground (arith, h, e)
  unlike_sound x (z ∷ ys) (suc i) y h e = unlike_sound x ys i y (ground (arith, h)) e

  distinct_sound :
      (xs : List A) (i j : ℕ) (x y : A)
      → distinct xs ≡ true
      → i < j
      → get_elem? xs i ≡ some x
      → get_elem? xs j ≡ some y
      → x ≢ y
  distinct_sound [] i j x y h lt e f = cc
  distinct_sound (z ∷ xs) zero zero x y h lt e f = absurd (omega arith)
  distinct_sound (z ∷ xs) zero (suc j) x y h lt e f =
      ground (arith, h, e, unlike_sound z xs j y (ground (arith, h)) f)
  distinct_sound (z ∷ xs) (suc i) zero x y h lt e f = absurd (omega arith)
  distinct_sound (z ∷ xs) (suc i) (suc j) x y h lt e f =
      distinct_sound xs i j x y (ground (arith, h)) (omega arith) e f

abbrev rank : Register → ℕ
rank eax = 0
rank edx = 1
rank ecx = 2
rank ebx = 3
rank esi = 4
rank edi = 5
rank rax = 6
rank rdx = 7
rank rcx = 8
rank rbx = 9
rank rsi = 10
rank rdi = 11
rank r0 = 12
rank r1 = 13
rank r2 = 14
rank r3 = 15
rank r4 = 16
rank r5 = 17
rank r6 = 18
rank r7 = 19
rank r8 = 20
rank r9 = 21
rank r10 = 22
rank x0 = 23
rank x1 = 24
rank x2 = 25
rank x3 = 26
rank x4 = 27
rank x5 = 28
rank x6 = 29
rank x7 = 30
rank a0 = 31
rank a1 = 32
rank a2 = 33
rank a3 = 34
rank a4 = 35
rank a5 = 36
rank a6 = 37
rank a7 = 38
rank v0 = 39
rank v1 = 40

abbrev double_rank : DoubleRegister → ℕ
double_rank xmm1 = 0
double_rank xmm2 = 1
double_rank xmm3 = 2
double_rank xmm4 = 3
double_rank xmm5 = 4
double_rank xmm6 = 5
double_rank d0 = 6
double_rank d1 = 7
double_rank d2 = 8
double_rank d3 = 9
double_rank d4 = 10
double_rank d5 = 11
double_rank d6 = 12
double_rank d7 = 13
double_rank f2 = 14
double_rank f4 = 15
double_rank f6 = 16
double_rank f8 = 17
double_rank f10 = 18
double_rank f12 = 19
double_rank f14 = 20

gp_param_registers-distinct : (arch : Architecture) → distinct rank (gp_param_registers arch) ≡ true
unfolding gp_param_registers
gp_param_registers-distinct arch_ia32 = refl
gp_param_registers-distinct arch_x64 = refl
gp_param_registers-distinct arch_x87 = refl
gp_param_registers-distinct arch_arm = refl
gp_param_registers-distinct arch_arm64 = refl
gp_param_registers-distinct arch_mips = refl
gp_param_registers-distinct arch_mips64 = refl
gp_param_registers-distinct arch_ppc = refl
gp_param_registers-distinct arch_unknown = refl

pub gp_param_registers_differ :
    (arch : Architecture) (i j : ℕ) (r s : Register)
    → i < j
    → get_elem? (gp_param_registers arch) i ≡ some r
    → get_elem? (gp_param_registers arch) j ≡ some s
    → r ≢ s
gp_param_registers_differ arch i j r s =
    distinct_sound rank (gp_param_registers arch) i j r s (gp_param_registers-distinct arch)

fp_param_registers-distinct :
    (arch : Architecture) → distinct double_rank (fp_param_registers arch) ≡ true
unfolding fp_param_registers
fp_param_registers-distinct arch_ia32 = refl
fp_param_registers-distinct arch_x64 = refl
fp_param_registers-distinct arch_x87 = refl
fp_param_registers-distinct arch_arm = refl
fp_param_registers-distinct arch_arm64 = refl
fp_param_registers-distinct arch_mips = refl
fp_param_registers-distinct arch_mips64 = refl
fp_param_registers-distinct arch_ppc = refl
fp_param_registers-distinct arch_unknown = refl

pub fp_param_registers_differ :
    (arch : Architecture) (i j : ℕ) (r s : DoubleRegister)
    → i < j
    → get_elem? (fp_param_registers arch) i ≡ some r
    → get_elem? (fp_param_registers arch) j ≡ some s
    → r ≢ s
fp_param_registers_differ arch i j r s =
    distinct_sound double_rank (fp_param_registers arch) i j r s (fp_param_registers-distinct arch)
