-- ===== src/TestModule/Pt.antt =====
-- test_module/test_pt.c and test_pt.h: reads and writes of the processor trace registers, up to the
-- first that fails.
pub mod Laws
use pcm_test.Base.{ℕ, ◌≡◌, refl, String, List, [], ◌∷◌, ◌==◌, if◌then◌else◌}
use pcm_test.Base.Kernel.{M, pure, ◌>>=◌, ◌>>◌, printk, outside}
use pcm_test.TestModule.Msr.{Reading, Msrs}

abbrev pub ia32_rtit_ctl_msr : ℕ
ia32_rtit_ctl_msr = 0x570

abbrev pub ia32_rtit_status_msr : ℕ
ia32_rtit_status_msr = 0x571

abbrev pub ia32_rtit_cr3_match : ℕ
ia32_rtit_cr3_match = 0x572

abbrev pub ia32_rtit_output_base : ℕ
ia32_rtit_output_base = 0x560

abbrev pub ia32_rtit_output_mask : ℕ
ia32_rtit_output_mask = 0x561

abbrev pub ia32_rtit_addr0_a : ℕ
ia32_rtit_addr0_a = 0x580

abbrev pub ia32_rtit_addr0_b : ℕ
ia32_rtit_addr0_b = 0x581

abbrev pub ia32_rtit_addr1_a : ℕ
ia32_rtit_addr1_a = 0x582

abbrev pub ia32_rtit_addr1_b : ℕ
ia32_rtit_addr1_b = 0x583

abbrev pub ia32_rtit_addr2_a : ℕ
ia32_rtit_addr2_a = 0x584

abbrev pub ia32_rtit_addr2_b : ℕ
ia32_rtit_addr2_b = 0x585

abbrev pub ia32_rtit_addr3_a : ℕ
ia32_rtit_addr3_a = 0x586

abbrev pub ia32_rtit_addr3_b : ℕ
ia32_rtit_addr3_b = 0x587

module _ {W : Type 0} (p : Msrs W) where
  -- One step of `test_pt_rdmsr`, and what follows it; a failure goes to the label `fail`.
  pub check_rd : String → ℕ → M W ℕ → M W ℕ
  check_rd text msr_val rest = do
    printk text []
    r ← outside (p.rdmsr_safe msr_val)
    if r.err == 0 then rest else do printk "rdmsr 0x%x err %d\n" (msr_val ∷ r.err ∷ []); pure 1

  -- One step of `test_pt_wrmsr`, which writes zero.
  pub check_wr : String → ℕ → M W ℕ → M W ℕ
  check_wr text msr_val rest = do
    printk text []
    err ← outside (p.wrmsr_safe msr_val 0x0 0x0)
    if err == 0 then rest else do printk "wrmsr 0x%x err %d\n" (msr_val ∷ err ∷ []); pure 1

  pub test_pt_rdmsr : M W ℕ
  test_pt_rdmsr =
      (check_rd "test rdmsr 0x570\n" ia32_rtit_ctl_msr (
        check_rd "test rdmsr 0x571\n" ia32_rtit_status_msr (
          check_rd "test rdmsr 0x572\n" ia32_rtit_cr3_match (
            check_rd "test rdmsr 0x560\n" ia32_rtit_output_base (
              check_rd "test rdmsr 0x561\n" ia32_rtit_output_mask (
                check_rd "test rdmsr 0x580\n" ia32_rtit_addr0_a (
                  check_rd "test rdmsr 0x581\n" ia32_rtit_addr0_b (
                    check_rd "test rdmsr 0x582\n" ia32_rtit_addr1_a (
                      check_rd "test rdmsr 0x583\n" ia32_rtit_addr1_b (
                        check_rd "test rdmsr 0x584\n" ia32_rtit_addr2_a (
                          check_rd "test rdmsr 0x585\n" ia32_rtit_addr2_b (
                            check_rd "test rdmsr 0x586\n" ia32_rtit_addr3_a (
                              check_rd "test rdmsr 0x587\n" ia32_rtit_addr3_b
                                (do printk "rdmsr for PT msrs success\n" []; pure 0))))))))))))))

  pub test_pt_wrmsr : M W ℕ
  test_pt_wrmsr =
      (check_wr "test wrmsr 0x570\n" ia32_rtit_ctl_msr (
        check_wr "test wrmsr 0x571\n" ia32_rtit_status_msr (
          check_wr "test wrmsr 0x572\n" ia32_rtit_cr3_match (
            check_wr "test wrmsr 0x560\n" ia32_rtit_output_base (
              check_wr "test wrmsr 0x561\n" ia32_rtit_output_mask (
                check_wr "test wrmsr 0x580\n" ia32_rtit_addr0_a (
                  check_wr "test wrmsr 0x581\n" ia32_rtit_addr0_b (
                    check_wr "test wrmsr 0x582\n" ia32_rtit_addr1_a (
                      check_wr "test wrmsr 0x583\n" ia32_rtit_addr1_b (
                        check_wr "test wrmsr 0x584\n" ia32_rtit_addr2_a (
                          check_wr "test wrmsr 0x585\n" ia32_rtit_addr2_b (
                            check_wr "test wrmsr 0x586\n" ia32_rtit_addr3_a (
                              check_wr "test wrmsr 0x587\n" ia32_rtit_addr3_b
                                (do printk "wrmsr success for PT MSRs\n" []; pure 0))))))))))))))
