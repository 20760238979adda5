-- ===== src/MsrTest/Tests.antt =====
-- A processor whose registers hold nothing but zero and raise no error.
use pcm_test.Base.{ℕ, ◌+◌, ◌≡◌, refl, [], ◌++◌, arith}
use pcm_test.Base.Kernel.{Sys}
use pcm_test.MsrTest.{MsrPort, find_from, find_msr_info, test_msr_rw}
use pcm_test.MsrTest.Laws.{false_alarm, test_msr_rw_lem}

abbrev zero_registers : MsrPort ℕ
zero_registers = record {
  wrmsrl_safe = λ r v w. (0, w + 1);
  rdmsrl_safe = λ r w. ((0, 0), w);
  read_cs = λ w. (0x10, w);
  read_ss = λ w. (0x18, w);
  write_ss = λ v w. (tt, w);
  syscall = λ w. (tt, w);
  syscall_target = 0x1000;
  msr_efer = 0xc0000080;
  msr_lstar = 0xc0000082;
  msr_star = 0xc0000081;
  efer_sce = 1;
}

abbrev idle : Sys ℕ
idle = record { world = 0; log = [] }

test_msr_rw_lem_example :
    (test_msr_rw zero_registers 0x277 0x07070707 0x07070707 idle).1.log
    ≡ [] ++ false_alarm "MSR_IA32_CR_PAT" 0x07070707
unfolding find_msr_info find_from
test_msr_rw_lem_example =
    test_msr_rw_lem zero_registers 0x277 0x07070707 0x07070707 4 idle refl (λ e. omega arith)
      (λ w. refl)
