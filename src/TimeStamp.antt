-- ===== src/TimeStamp.antt =====
-- pcm-unit/driver/tsc.c and tsc_adjust.c: the tests of the time stamp counter.
pub mod Adjust
pub mod Written
pub mod Keeps
pub mod Tests
use pcm_test.Base.{
  ℕ, ◌+◌, ◌-◌, ◌*◌, ◌/◌, ◌%◌, ◌^◌, Bool, [], ◌∷◌, ◌==◌, not, bit_and, if◌then◌else◌,
}
use pcm_test.Base.Kernel.{M, pure, ◌>>=◌, ◌>>◌, printk, outside}

-- eax, ebx, ecx and edx after cpuid.
pub record CpuidRegs : Type 0 where
  pub eax : ℕ
  pub ebx : ℕ
  pub ecx : ℕ
  pub edx : ℕ

-- The instructions as the kernel's functions issue them. A write gives its error; a read gives its
-- error and the value, which it stores in any case; native_read_tscp gives the counter and ecx.
pub record Counter (C : Type 0) : Type 0 where
  pub rdtscll : C → ℕ × C
  pub native_write_msr_safe : ℕ → ℕ → ℕ → C → ℕ × C
  pub wrmsrl_safe : ℕ → ℕ → C → ℕ × C
  pub rdmsrl_safe : ℕ → C → (ℕ × ℕ) × C
  pub native_read_tscp : C → (ℕ × ℕ) × C
  pub cpuid : ℕ → C → CpuidRegs × C
  pub msr_ia32_tsc : ℕ
  pub msr_tsc_aux : ℕ

-- `IA32_TSC_ADJUST`
abbrev pub ia32_tsc_adjust : ℕ
ia32_tsc_adjust = 0x3b

-- The difference of two u64.
abbrev pub minus : ℕ → ℕ → ℕ
minus a b = (a + 2 ^ 64 - b % 2 ^ 64) % 2 ^ 64

module _ {C : Type 0} (x : Counter C) where
  pub check_cpuid_80000001_edx : ℕ → M C Bool
  check_cpuid_80000001_edx bit = do
    r ← outside (x.cpuid 0x8000_0001)
    pure (not (bit_and r.edx bit == 0))

  pub test_wrtsc : ℕ → M C (Unit {0})
  test_wrtsc t1 = do
    err ← outside (x.native_write_msr_safe x.msr_ia32_tsc (t1 % 2 ^ 32) (t1 / 2 ^ 32 % 2 ^ 32))
    t2 ← outside x.rdtscll
    printk "rdtsc after wrtsc%lld : %lld \n" (t1 ∷ t2 ∷ [])

  pub test_rdtscp : ℕ → M C (Unit {0})
  test_rdtscp aux = do
    err ← outside (x.wrmsrl_safe x.msr_tsc_aux aux)
    r ← outside x.native_read_tscp
    printk "Test RDTSCP eax=%d, aux=%lld\n" (r.1 ∷ aux ∷ [])

  pub test_tsc : M C (Unit {0})
  test_tsc = do
    t1 ← outside x.rdtscll
    t2 ← outside x.rdtscll
    printk "rdtsc latency %u\n" (minus t2 t1 % 2 ^ 32 ∷ [])
    test_wrtsc 0
    test_wrtsc 100_000_000_000
    test_rdtscp 0
    test_rdtscp 10
    test_rdtscp 0x100

  -- The first half of the test where the feature is there: the register is written.
  pub adjust_by_register : M C (Unit {0})
  adjust_by_register = do
    p ← outside (x.rdmsrl_safe ia32_tsc_adjust)
    printk "IA32_TSC_ADJUST msr initialization,  %lld\n" (p.1 ∷ [])
    t1 ← outside x.rdtscll
    err1 ← outside (x.wrmsrl_safe ia32_tsc_adjust 100_000_000_000)
    t2 ← outside x.rdtscll
    t3 ← outside (x.rdmsrl_safe ia32_tsc_adjust)
    printk "IA32_TSC_ADJUST msr read / write, %lld\n" (t3.1 ∷ [])
    printk "TSC adjustment for IA32_TSC_ADJUST value, t2-t1=%lld\n" (minus t2 t1 ∷ [])
    err2 ← outside (x.wrmsrl_safe ia32_tsc_adjust 0)
    zero_read ← outside (x.rdmsrl_safe ia32_tsc_adjust)
    printk "IA32_TSC_ADJUST msr read / write, %lld\n" (zero_read.1 ∷ [])

  -- The second half: the counter is written.
  pub adjust_by_counter : M C (Unit {0})
  adjust_by_counter = do
    t1 ← outside x.rdtscll
    err ← outside (x.wrmsrl_safe x.msr_ia32_tsc 100_000_000_000)
    t2 ← outside x.rdtscll
    t5 ← outside (x.rdmsrl_safe ia32_tsc_adjust)
    let est_delta_time = minus (minus 100_000_000_000 t5.1) t1
    printk "IA32_TSC_ADJUST msr adjustment on tsc write, est_delta_time=%lld, stdvalue=%lld\n"
        (est_delta_time ∷ 2 * minus t2 100_000_000_000 % 2 ^ 64 ∷ [])

  pub test_tsc_adjust : M C (Unit {0})
  unfolding adjust_by_register adjust_by_counter
  test_tsc_adjust = do
    r ← outside (x.cpuid 7)
    if not (bit_and r.ebx 2 == 0)
        then (do adjust_by_register; adjust_by_counter)
        else printk "IA32_TSC_ADJUST feature not enabled\n" []
