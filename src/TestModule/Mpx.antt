-- ===== src/TestModule/Mpx.antt =====
-- test_module/test_mpx.c and test_mpx.h: one read and one write of MSR_IA32_BNDCFGS. The level that
-- KERN_ERR puts before a line is left out, and the name of the function is written into the format.
use pcm_test.Base.{ℕ, [], ◌∷◌, ◌==◌, not, if◌then◌else◌}
use pcm_test.Base.Kernel.{M, pure, ◌>>=◌, ◌>>◌, printk, outside}
use pcm_test.TestModule.Msr.{Msrs}

abbrev pub msr_ia32_bndcfgs : ℕ
msr_ia32_bndcfgs = 0x00000d90

module _ {W : Type 0} (p : Msrs W) where
  pub test_mpx_rdmsr : M W ℕ
  test_mpx_rdmsr = do
    r ← outside (p.rdmsr_safe msr_ia32_bndcfgs)
    printk "return value of rdmsr_safe is %d\n" (r.err ∷ [])
    if not (r.err == 0) then printk "test_mpx_rdmsr return err %d\n" (r.err ∷ []) else pure tt
    pure r.err

  pub test_mpx_wrmsr : M W ℕ
  test_mpx_wrmsr = do
    err ← outside (p.wrmsr_safe msr_ia32_bndcfgs 0 0)
    if not (err == 0) then printk "test_mpx_wrmsr return err %d\n" (err ∷ []) else pure tt
    pure err
