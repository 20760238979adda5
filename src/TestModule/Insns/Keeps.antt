-- ===== src/TestModule/Insns/Keeps.antt =====
-- The tests of one instruction, of test_vmx.c, test_rdpmc.c and test_xsetbv leave the heap alone.
use pcm_test.Base.{ℕ, zero, suc, ◌+◌}
use pcm_test.TestModule.Run.Keeps.{Keeps, then-Keeps, before-Keeps, keeping}
use pcm_test.TestModule.Insns.{
  Insns, test_invd, test_getsec, test_mwait, test_monitor, test_access_cr0, test_access_cr4,
  test_vmxoff, test_vmxon, asm_rdpmc, rdpmc_rounds, test_rdpmc, test_xsetbv,
}

module _ {C H : Type 0} (x : Insns C) where
  pub test_invd-Keeps : Keeps {C = C} {H = H} (test_invd x)
  unfolding test_invd
  test_invd-Keeps = search (keeping) depth 30

  pub test_getsec-Keeps : Keeps {C = C} {H = H} (test_getsec x)
  unfolding test_getsec
  test_getsec-Keeps = search (keeping) depth 30

  pub test_mwait-Keeps : Keeps {C = C} {H = H} (test_mwait x)
  unfolding test_mwait
  test_mwait-Keeps = search (keeping) depth 30

  pub test_monitor-Keeps : Keeps {C = C} {H = H} (test_monitor x)
  unfolding test_monitor
  test_monitor-Keeps = search (keeping) depth 30

  pub test_access_cr0-Keeps : Keeps {C = C} {H = H} (test_access_cr0 x)
  unfolding test_access_cr0
  test_access_cr0-Keeps = search (keeping) depth 30

  pub test_access_cr4-Keeps : Keeps {C = C} {H = H} (test_access_cr4 x)
  unfolding test_access_cr4
  test_access_cr4-Keeps = search (keeping) depth 30

  pub test_vmxoff-Keeps : Keeps {C = C} {H = H} (test_vmxoff x)
  unfolding test_vmxoff
  test_vmxoff-Keeps = search (keeping) depth 30

  pub test_xsetbv-Keeps : Keeps {C = C} {H = H} (test_xsetbv x)
  unfolding test_xsetbv
  test_xsetbv-Keeps = search (keeping) depth 30

  pub test_vmxon-Keeps : (a : ℕ) → Keeps {C = C} {H = H} (test_vmxon x a)
  unfolding test_vmxon
  test_vmxon-Keeps a = search (keeping) depth 30

  asm_rdpmc-Keeps : (i : ℕ) → Keeps {C = C} {H = H} (asm_rdpmc x i)
  unfolding asm_rdpmc
  asm_rdpmc-Keeps i = search (keeping) depth 30

  rdpmc_rounds-Keeps : (n i : ℕ) → Keeps {C = C} {H = H} (rdpmc_rounds x n i)
  unfolding rdpmc_rounds
  rdpmc_rounds-Keeps zero i = search (keeping) depth 30
  rdpmc_rounds-Keeps (suc n) i =
      then-Keeps _ _ (asm_rdpmc-Keeps i)
        (λ ret. before-Keeps _ _ (search (keeping) depth 20) (rdpmc_rounds-Keeps n (i + 1)))

  pub test_rdpmc-Keeps : Keeps {C = C} {H = H} (test_rdpmc x)
  unfolding test_rdpmc
  test_rdpmc-Keeps = search (keeping, rdpmc_rounds-Keeps) depth 30
