-- ===== src/TestModule/Insns.antt =====
-- test_module/test_vmx.c, test_rdpmc.c, test_xsave.c and the one-instruction tests of test_mod.c.
pub mod Keeps
pub mod Passes
use pcm_test.Base.{
  ℕ, zero, suc, ◌+◌, ◌*◌, ◌/◌, ◌%◌, ◌^◌, Option, some, [], ◌∷◌, ◌==◌, not, bit_and, bit_or,
  if◌then◌else◌,
}
use pcm_test.Base.Kernel.{printk}
use pcm_test.TestModule.Msr.{Msrs}
use pcm_test.TestModule.Run.{Run, pure, ◌>>=◌, ◌>>◌, kernel, insn}

-- eax, ebx, ecx and edx after cpuid.
pub record CpuidRegs : Type 0 where
  pub eax : ℕ
  pub ebx : ℕ
  pub ecx : ℕ
  pub edx : ℕ

-- The instructions, as the kernel's wrappers or the inline assembly issue them, and the numbers of
-- the kernel's headers. Arguments of assembly are in the order of the registers in the source.
pub record Insns (C : Type 0) : Type 0 where
  pub msrs : Msrs C
  pub invd : C → Option (Unit {0}) × C
  pub getsec : ℕ → C → Option (Unit {0}) × C
  pub mwait : ℕ → ℕ → C → Option (Unit {0}) × C
  pub monitor : ℕ → ℕ → ℕ → C → Option (Unit {0}) × C
  pub vmxon : ℕ → C → Option (Unit {0}) × C
  pub vmxoff : C → Option (Unit {0}) × C
  pub rdpmc : ℕ → C → Option (ℕ × ℕ) × C
  pub xsaves : ℕ → ℕ → ℕ → C → Option (Unit {0}) × C
  pub xsetbv : ℕ → ℕ → ℕ → C → Option (Unit {0}) × C
  pub cpuid_count : ℕ → ℕ → C → Option CpuidRegs × C
  pub read_cr0 : C → Option ℕ × C
  pub write_cr0 : ℕ → C → Option (Unit {0}) × C
  pub read_cr4 : C → Option ℕ × C
  pub write_cr4 : ℕ → C → Option (Unit {0}) × C
  pub rdmsrl : ℕ → C → Option ℕ × C
  pub wrmsrl : ℕ → ℕ → C → Option (Unit {0}) × C
  pub thread_flags : C → Option ℕ × C
  pub x86_cr0_cd : ℕ
  pub x86_cr4_osxsave : ℕ
  pub x86_cr4_vmxe : ℕ
  pub msr_ia32_feature_control : ℕ
  pub feature_control_locked : ℕ
  pub feature_control_vmxon_enabled_outside_smx : ℕ

-- What the tests use of the heap.
pub record KernelHeap (H : Type 0) : Type 0 where
  pub kmalloc : ℕ → H → ℕ × H
  pub kfree : ℕ → H → H
  pub pa : ℕ → ℕ

-- `XSTATE_MASK`, `XSTATE_CPUID` and `XCR_XFEATURE_ENABLED_MASK`
abbrev pub xstate_mask : ℕ
xstate_mask = 0x1

abbrev pub xstate_cpuid : ℕ
xstate_cpuid = 0x0000000d

abbrev pub xcr_xfeature_enabled_mask : ℕ
xcr_xfeature_enabled_mask = 0x00000000

abbrev test_bits : {C : Type 0} → Insns C → ℕ
test_bits x = bit_or x.feature_control_locked x.feature_control_vmxon_enabled_outside_smx

module _ {C H : Type 0} (x : Insns C) where
  pub test_invd : Run C H (Unit {0})
  test_invd = do insn x.invd; kernel (printk "invd executed\n" [])

  pub test_getsec : Run C H (Unit {0})
  test_getsec = do insn (x.getsec 0); kernel (printk "getsec executed\n" [])

  pub test_mwait : Run C H (Unit {0})
  test_mwait = do insn (x.mwait 0xf 0); kernel (printk "mwait executed\n" [])

  pub test_monitor : Run C H (Unit {0})
  test_monitor = do
    flags ← insn x.thread_flags
    insn (x.monitor flags 0 0)
    kernel (printk "monitor executed\n" [])

  pub test_access_cr0 : Run C H (Unit {0})
  test_access_cr0 = do
    cr0 ← insn x.read_cr0
    insn (x.write_cr0 (bit_or (cr0 % 2 ^ 32) x.x86_cr0_cd))
    kernel (printk "read write cr0 succeeded.\n" [])

  pub test_access_cr4 : Run C H (Unit {0})
  test_access_cr4 = do
    cr4 ← insn x.read_cr4
    insn (x.write_cr4 (bit_or (cr4 % 2 ^ 32) x.x86_cr4_osxsave))
    kernel (printk "read write cr4 succeeded.\n" [])

  pub test_vmxoff : Run C H (Unit {0})
  test_vmxoff = insn x.vmxoff

  pub test_vmxon : ℕ → Run C H (Unit {0})
  test_vmxon addr = do
    old ← insn (x.rdmsrl x.msr_ia32_feature_control)
    if not (bit_and old (test_bits x) == test_bits x)
        then insn (x.wrmsrl x.msr_ia32_feature_control (bit_or old (test_bits x)))
        else pure tt
    cr4 ← insn x.read_cr4
    insn (x.write_cr4 (bit_or cr4 x.x86_cr4_vmxe))
    insn (x.vmxon addr)
    kernel (printk "vmxon succeed\n" [])

  unfoldable pub asm_rdpmc : ℕ → Run C H ℕ
  asm_rdpmc counter = do r ← insn (x.rdpmc counter); pure (bit_or (r.1 * 2 ^ 32) r.0)

  -- The rounds of the loop of `test_rdpmc` that are left, from the counter `i` on.
  unfoldable pub rdpmc_rounds : ℕ → ℕ → Run C H (Unit {0})
  unfolding asm_rdpmc
  rdpmc_rounds zero i = pure tt
  rdpmc_rounds (suc n) i = do
    ret ← asm_rdpmc i
    if not (ret == 0) then kernel (printk "rdpmc fail with value %llu" (ret ∷ [])) else pure tt
    rdpmc_rounds n (i + 1)

  unfoldable pub test_rdpmc : Run C H (Unit {0})
  unfolding rdpmc_rounds
  test_rdpmc = do rdpmc_rounds 4 0; kernel (printk "rdpmc test PASS!\n" [])

  pub test_xsetbv : Run C H (Unit {0})
  test_xsetbv = do
    r ← insn (x.cpuid_count xstate_cpuid 0)
    kernel (printk "Begin to test legal xsetbv:\n" [])
    kernel (printk "eax %d" (r.eax ∷ []))
    kernel (printk "edx %d" (r.edx ∷ []))
    insn (x.xsetbv r.eax r.edx xcr_xfeature_enabled_mask)
    kernel (printk "Legal xsetbv test is executed.\n" [])
    kernel (printk "Begin to test illegal xsetbv:\n" [])
    kernel (printk "eax %d" (r.eax ∷ []))
    kernel (printk "edx %d" ((r.edx + 1) % 2 ^ 32 ∷ []))
    insn (x.xsetbv r.eax ((r.edx + 1) % 2 ^ 32) xcr_xfeature_enabled_mask)
    kernel (printk "Illegal xsetbv test is executed.\n" [])

module _ {C H : Type 0} (k : KernelHeap H) where
  -- `kmalloc` with GFP_KERNEL
  unfoldable pub allocate : ℕ → Run C H ℕ
  allocate size s = (some (k.kmalloc size s.heap).0, record s { heap = (k.kmalloc size s.heap).1 })

  unfoldable pub test_xsaves : Insns C → Run C H (Unit {0})
  unfolding allocate
  test_xsaves x = do
    fx ← allocate 0x00000440
    insn (x.xsaves fx (xstate_mask % 2 ^ 32) (xstate_mask / 2 ^ 32))
    kernel (printk "xsaves is executed.\n" [])
