-- ===== src/TestModule/Insns/Passes.antt =====
-- test_module/test_rdpmc.c: what `test_rdpmc` says last.
use pcm_test.Base.{◌≡◌, [], Option, none, some, String, last?, last?-append}
use pcm_test.Base.Kernel.{printk}
use pcm_test.TestModule.Run.{Module, resume, ◌>>◌, kernel}
use pcm_test.TestModule.Insns.{Insns, rdpmc_rounds, test_rdpmc}

module _ {C H : Type 0} where
  -- The last line of a run that prints at its end, if no instruction faults.
  resume_print-last :
      (o : Option (Unit {0})) (text : String) (s : Module C H)
      → (resume o (λ _. kernel (printk text [])) s).0 ≡ some tt
      → last? (resume o (λ _. kernel (printk text [])) s).1.sys.log
        ≡ some (record { format = text; values = [] })
  unfolding kernel
  resume_print-last none text s ends = cc
  resume_print-last (some _) text s ends = last?-append s.sys.log _

  -- If none of its instructions faults, `test_rdpmc` logs "rdpmc test PASS!" last, whatever the
  -- counters hold.
  pub test_rdpmc-last :
      (x : Insns C) (s : Module C H)
      → (test_rdpmc x s).0 ≡ some tt
      → last? (test_rdpmc x s).1.sys.log
        ≡ some (record { format = "rdpmc test PASS!\n"; values = [] })
  unfolding test_rdpmc ◌>>◌
  test_rdpmc-last x s ends =
      resume_print-last (rdpmc_rounds x 4 0 s).0 "rdpmc test PASS!\n" (rdpmc_rounds x 4 0 s).1 ends
