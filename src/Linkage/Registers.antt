-- ===== src/Linkage/Registers.antt =====
-- The register configuration of wasm/wasm-linkage.cc, by target architecture. An architecture that does
-- not define a row of registers has none.
use v8_native_prototype.Base.{List, [], ◌∷◌}

pub data Architecture : Type 0 where
  arch_ia32 arch_x64 arch_x87 arch_arm arch_arm64 arch_mips arch_mips64 arch_ppc arch_unknown :
      Architecture

-- The general purpose registers that the configurations name.
pub data Register : Type 0 where
  eax edx ecx ebx esi edi : Register
  rax rdx rcx rbx rsi rdi : Register
  r0 r1 r2 r3 r4 r5 r6 r7 r8 r9 r10 : Register
  x0 x1 x2 x3 x4 x5 x6 x7 : Register
  a0 a1 a2 a3 a4 a5 a6 a7 v0 v1 : Register

-- The floating point registers.
pub data DoubleRegister : Type 0 where
  xmm1 xmm2 xmm3 xmm4 xmm5 xmm6 : DoubleRegister
  d0 d1 d2 d3 d4 d5 d6 d7 : DoubleRegister
  f2 f4 f6 f8 f10 f12 f14 : DoubleRegister

-- GP_PARAM_REGISTERS.
unfoldable pub gp_param_registers : Architecture → List Register
gp_param_registers arch_ia32 = eax ∷ edx ∷ ecx ∷ ebx ∷ esi ∷ edi ∷ []
gp_param_registers arch_x64 = rax ∷ rdx ∷ rcx ∷ rbx ∷ rsi ∷ rdi ∷ []
gp_param_registers arch_x87 = eax ∷ edx ∷ ecx ∷ ebx ∷ esi ∷ edi ∷ []
gp_param_registers arch_arm = r0 ∷ r1 ∷ r2 ∷ r3 ∷ []
gp_param_registers arch_arm64 = x0 ∷ x1 ∷ x2 ∷ x3 ∷ x4 ∷ x5 ∷ x6 ∷ x7 ∷ []
gp_param_registers arch_mips = a0 ∷ a1 ∷ a2 ∷ a3 ∷ []
gp_param_registers arch_mips64 = a0 ∷ a1 ∷ a2 ∷ a3 ∷ a4 ∷ a5 ∷ a6 ∷ a7 ∷ []
gp_param_registers arch_ppc = r3 ∷ r4 ∷ r5 ∷ r6 ∷ r7 ∷ r8 ∷ r9 ∷ r10 ∷ []
gp_param_registers arch_unknown = []

-- GP_RETURN_REGISTERS.
unfoldable pub gp_return_registers : Architecture → List Register
gp_return_registers arch_ia32 = eax ∷ edx ∷ []
gp_return_registers arch_x64 = rax ∷ rdx ∷ []
gp_return_registers arch_x87 = eax ∷ edx ∷ []
gp_return_registers arch_arm = r0 ∷ r1 ∷ []
gp_return_registers arch_arm64 = x0 ∷ x1 ∷ []
gp_return_registers arch_mips = v0 ∷ v1 ∷ []
gp_return_registers arch_mips64 = v0 ∷ v1 ∷ []
gp_return_registers arch_ppc = r3 ∷ r4 ∷ []
gp_return_registers arch_unknown = []

-- FP_PARAM_REGISTERS.
unfoldable pub fp_param_registers : Architecture → List DoubleRegister
fp_param_registers arch_ia32 = xmm1 ∷ xmm2 ∷ xmm3 ∷ xmm4 ∷ xmm5 ∷ xmm6 ∷ []
fp_param_registers arch_x64 = xmm1 ∷ xmm2 ∷ xmm3 ∷ xmm4 ∷ xmm5 ∷ xmm6 ∷ []
fp_param_registers arch_x87 = []
fp_param_registers arch_arm = d0 ∷ d1 ∷ d2 ∷ d3 ∷ d4 ∷ d5 ∷ d6 ∷ d7 ∷ []
fp_param_registers arch_arm64 = d0 ∷ d1 ∷ d2 ∷ d3 ∷ d4 ∷ d5 ∷ d6 ∷ d7 ∷ []
fp_param_registers arch_mips = f2 ∷ f4 ∷ f6 ∷ f8 ∷ f10 ∷ f12 ∷ f14 ∷ []
fp_param_registers arch_mips64 = f2 ∷ f4 ∷ f6 ∷ f8 ∷ f10 ∷ f12 ∷ f14 ∷ []
fp_param_registers arch_ppc = d0 ∷ d1 ∷ d2 ∷ d3 ∷ d4 ∷ d5 ∷ d6 ∷ d7 ∷ []
fp_param_registers arch_unknown = []

-- FP_RETURN_REGISTERS.
unfoldable pub fp_return_registers : Architecture → List DoubleRegister
fp_return_registers arch_ia32 = xmm1 ∷ xmm2 ∷ []
fp_return_registers arch_x64 = xmm1 ∷ xmm2 ∷ []
fp_return_registers arch_x87 = []
fp_return_registers arch_arm = d0 ∷ d1 ∷ []
fp_return_registers arch_arm64 = d0 ∷ d1 ∷ []
fp_return_registers arch_mips = f2 ∷ f4 ∷ []
fp_return_registers arch_mips64 = f2 ∷ f4 ∷ []
fp_return_registers arch_ppc = d0 ∷ d1 ∷ []
fp_return_registers arch_unknown = []
