-- ===== src/TestModule/Msr.antt =====
-- test_module/test_pt.c, test_mpx.c and test_vmx.c use model-specific registers through these calls
-- of the kernel. Errors are ints, here as 32-bit patterns; 0 is success.
use pcm_test.Base.{ℕ, ◌≡◌}

-- `rdmsr_safe` gives the error and stores the low and the high half.
pub record Reading : Type 0 where
  pub err : ℕ
  pub low : ℕ
  pub high : ℕ

pub record Msrs (W : Type 0) : Type 0 where
  pub rdmsr_safe : ℕ → W → Reading × W
  pub wrmsr_safe : ℕ → ℕ → ℕ → W → ℕ × W

-- Which registers fault does not change by an access: `read_fault w r` is 0 if a read of `r` in the
-- state `w` succeeds, and otherwise its error.
pub record IsMsrs {W : Type 0} (p : Msrs W) : Type 0 where
  pub read_fault : W → ℕ → ℕ
  pub write_fault : W → ℕ → ℕ
  pub rdmsr_safe-err : (w : W) (r : ℕ) → (p.rdmsr_safe r w).0.err ≡ read_fault w r
  pub rdmsr_safe-fault : (w : W) (r s : ℕ) → read_fault (p.rdmsr_safe r w).1 s ≡ read_fault w s
  pub wrmsr_safe-err : (w : W) (r lo hi : ℕ) → (p.wrmsr_safe r lo hi w).0 ≡ write_fault w r
  pub wrmsr_safe-fault :
      (w : W) (r lo hi s : ℕ) → write_fault (p.wrmsr_safe r lo hi w).1 s ≡ write_fault w s
