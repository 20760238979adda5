-- ===== src/TestModule/Init.antt =====
-- test_module/test_mod.c: what loading and unloading the module does.
pub mod Memory
use pcm_test.Base.{ℕ, Option, some, [], ◌∷◌, ◌==◌, not, if◌then◌else◌}
use pcm_test.Base.Kernel.{printk}
use pcm_test.TestModule.Run.{Module, Run, pure, ◌>>=◌, ◌>>◌, kernel, insn}
use pcm_test.TestModule.Insns.{
  Insns, KernelHeap, test_invd, test_getsec, test_mwait, test_monitor, test_access_cr0,
  test_access_cr4, test_vmxoff, test_vmxon, test_rdpmc, test_xsetbv, allocate, test_xsaves,
}
use pcm_test.TestModule.Pt.{test_pt_rdmsr, test_pt_wrmsr}
use pcm_test.TestModule.Mpx.{test_mpx_rdmsr, test_mpx_wrmsr}

module _ {C H : Type 0} (x : Insns C) (k : KernelHeap H) where
  abbrev pub set_vmxon_region : ℕ → Run C H (Unit {0})
  set_vmxon_region a s = (some tt, record s { vmxon_region = a; vmxon_phy_region = k.pa a })

  -- Case 1 of the `switch`.
  pub vmxon_case : Run C H (Unit {0})
  vmxon_case = do region ← allocate k 0x1000; set_vmxon_region region; test_vmxon x (k.pa region)

  -- Cases 3 and 9 do not look at what the tests return.
  pub pt_case : Run C H (Unit {0})
  pt_case = do _ ← kernel (test_pt_rdmsr x.msrs); _ ← kernel (test_pt_wrmsr x.msrs); pure tt

  pub mpx_case : Run C H (Unit {0})
  mpx_case = do
    kernel (printk "test_mpx\n" [])
    _ ← kernel (test_mpx_rdmsr x.msrs)
    _ ← kernel (test_mpx_wrmsr x.msrs)
    pure tt

  -- `switch (tc_no)`
  pub switch : ℕ → Run C H (Unit {0})
  unfolding vmxon_case pt_case mpx_case
  switch tc_no =
      if tc_no == 1
      then vmxon_case
      else if tc_no == 2
      then test_vmxoff x
      else if tc_no == 3
      then pt_case
      else if tc_no == 4
      then test_rdpmc x
      else if tc_no == 5
      then test_invd x
      else if tc_no == 6
      then test_getsec x
      else if tc_no == 7
      then test_monitor x
      else if tc_no == 8
      then test_mwait x
      else if tc_no == 9
      then mpx_case
      else if tc_no == 10
      then test_xsaves k x
      else if tc_no == 11
      then test_xsetbv x
      else if tc_no == 12
      then test_access_cr0 x
      else if tc_no == 13
      then test_access_cr4 x
      else kernel (printk "Invalid tc_no %d\n" (tc_no ∷ []))

  pub init_test_mode : ℕ → Run C H ℕ
  init_test_mode tc_no = do kernel (printk "tc_no is %d\n" (tc_no ∷ [])); switch tc_no; pure 0

  abbrev free : ℕ → Run C H (Unit {0})
  free a s = (some tt, record s { heap = k.kfree a s.heap })

  pub exit_test_mode : Run C H (Unit {0})
  exit_test_mode = do
    kernel (printk "test_module cleanup\n" [])
    λ s. if not (s.vmxon_region == 0) then free s.vmxon_region s else (some tt, s)
