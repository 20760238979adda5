-- ===== src/TestModule/Pt/Laws.antt =====
-- test_module/test_pt.c: the two functions report the first register of the table that fails.
use pcm_test.Base.{
  ℕ, ◌≡◌, refl, ◌∙◌, String, List, [], ◌∷◌, Option, none, some, ◌==◌, if◌then◌else◌, inl, inr,
  Bool-cases, last?, last?-append,
}
use pcm_test.Base.Kernel.{Sys, M, pure, ◌>>◌, printk}
use pcm_test.TestModule.Msr.{Msrs, IsMsrs}
use pcm_test.TestModule.Pt.{check_rd, check_wr, test_pt_rdmsr, test_pt_wrmsr}

-- The registers in the order of the tests.
abbrev pub pt_registers : List ℕ
pt_registers =
    0x570 ∷ 0x571 ∷ 0x572 ∷ 0x560 ∷ 0x561 ∷ 0x580 ∷ 0x581 ∷ 0x582 ∷ 0x583 ∷ 0x584 ∷ 0x585 ∷ 0x586
    ∷ 0x587 ∷ []

-- The first register of a list that faults.
abbrev pub first_failure : (ℕ → ℕ) → List ℕ → Option ℕ
first_failure fault [] = none
first_failure fault (r ∷ rs) = if fault r == 0 then first_failure fault rs else some r

-- What a function returns and logs last: 0 and the line of success, or 1 and the register with its
-- error.
abbrev pub Reports : {W : Type 0} → String → String → (ℕ → ℕ) → Option ℕ → ℕ × Sys W → Type 0
Reports good bad fault none out =
    (out.0 ≡ 0) × (last? out.1.log ≡ some (record { format = good; values = [] }))
Reports good bad fault (some r) out =
    (out.0 ≡ 1) × (last? out.1.log ≡ some (record { format = bad; values = r ∷ fault r ∷ [] }))

module _ {W : Type 0} (p : Msrs W) (d : IsMsrs p) (fault : ℕ → ℕ) where
  open d use {
    read_fault, write_fault, rdmsr_safe-err, rdmsr_safe-fault, wrmsr_safe-err, wrmsr_safe-fault,
  }

  abbrev reads : String
  reads = "rdmsr for PT msrs success\n"

  abbrev read_fails : String
  read_fails = "rdmsr 0x%x err %d\n"

  -- A function that reports on a list, in every state with these faults.
  record Reads (rs : List ℕ) (m : M W ℕ) : Type 0 where
    reports :
        (s : Sys W)
        → ((r : ℕ) → read_fault s.world r ≡ fault r)
        → Reports reads read_fails fault (first_failure fault rs) (m s)

  no_more : Reads [] (do printk reads []; pure 0)
  no_more = record { reports = λ s same. (refl, last?-append s.log _) }

  check_rd-Reads :
      (text : String) (r : ℕ) (rs : List ℕ) (rest : M W ℕ)
      → Reads rs rest
      → Reads (r ∷ rs) (check_rd p text r rest)
  unfolding check_rd
  check_rd-Reads text r rs rest h = record {
    reports = λ s same. elim (Bool-cases (fault r == 0)) [
      | inl fine ↦
          rw (rdmsr_safe-err s.world r, same r, fine)
            (h.reports _ (λ q. rdmsr_safe-fault s.world r q ∙ same q))
      | inr fails ↦ rw (rdmsr_safe-err s.world r, same r, fails) (refl, last?-append _ _)
    ];
  }

  -- `test_pt_rdmsr` tries the registers in the order of the table. If none faults it returns 0 and
  -- logs success last; otherwise it returns 1, and its last line names the first register that
  -- faults, with its error.
  pub test_pt_rdmsr_lem :
      (s : Sys W)
      → ((r : ℕ) → read_fault s.world r ≡ fault r)
      → Reports "rdmsr for PT msrs success\n" "rdmsr 0x%x err %d\n" fault
          (first_failure fault pt_registers)
          (test_pt_rdmsr p s)
  unfolding test_pt_rdmsr
  test_pt_rdmsr_lem =
      (check_rd-Reads _ _ _ _ (
        check_rd-Reads _ _ _ _ (
          check_rd-Reads _ _ _ _ (
            check_rd-Reads _ _ _ _ (
              check_rd-Reads _ _ _ _ (
                check_rd-Reads _ _ _ _ (
                  check_rd-Reads _ _ _ _ (
                    check_rd-Reads _ _ _ _ (
                      check_rd-Reads _ _ _ _ (
                        check_rd-Reads _ _ _ _ (
                          check_rd-Reads _ _ _ _ (
                            check_rd-Reads _ _ _ _
                              (check_rd-Reads _ _ _ _ no_more))))))))))))).reports

  abbrev writes : String
  writes = "wrmsr success for PT MSRs\n"

  abbrev write_fails : String
  write_fails = "wrmsr 0x%x err %d\n"

  -- A function that reports on a list, in every state with these faults.
  record Writes (rs : List ℕ) (m : M W ℕ) : Type 0 where
    reports :
        (s : Sys W)
        → ((r : ℕ) → write_fault s.world r ≡ fault r)
        → Reports writes write_fails fault (first_failure fault rs) (m s)

  no_more_writes : Writes [] (do printk writes []; pure 0)
  no_more_writes = record { reports = λ s same. (refl, last?-append s.log _) }

  check_wr-Writes :
      (text : String) (r : ℕ) (rs : List ℕ) (rest : M W ℕ)
      → Writes rs rest
      → Writes (r ∷ rs) (check_wr p text r rest)
  unfolding check_wr
  check_wr-Writes text r rs rest h = record {
    reports = λ s same. elim (Bool-cases (fault r == 0)) [
      | inl fine ↦
          rw (wrmsr_safe-err s.world r 0 0, same r, fine)
            (h.reports _ (λ q. wrmsr_safe-fault s.world r 0 0 q ∙ same q))
      | inr fails ↦ rw (wrmsr_safe-err s.world r 0 0, same r, fails) (refl, last?-append _ _)
    ];
  }

  -- `test_pt_wrmsr` writes zero to the registers in the order of the table. If none faults it returns
  -- 0 and logs success last; otherwise it returns 1, and its last line names the first register that
  -- faults, with its error.
  pub test_pt_wrmsr_lem :
      (s : Sys W)
      → ((r : ℕ) → write_fault s.world r ≡ fault r)
      → Reports "wrmsr success for PT MSRs\n" "wrmsr 0x%x err %d\n" fault
          (first_failure fault pt_registers)
          (test_pt_wrmsr p s)
  unfolding test_pt_wrmsr
  test_pt_wrmsr_lem =
      (check_wr-Writes _ _ _ _ (
        check_wr-Writes _ _ _ _ (
          check_wr-Writes _ _ _ _ (
            check_wr-Writes _ _ _ _ (
              check_wr-Writes _ _ _ _ (
                check_wr-Writes _ _ _ _ (
                  check_wr-Writes _ _ _ _ (
                    check_wr-Writes _ _ _ _ (
                      check_wr-Writes _ _ _ _ (
                        check_wr-Writes _ _ _ _ (
                          check_wr-Writes _ _ _ _ (
                            check_wr-Writes _ _ _ _
                              (check_wr-Writes _ _ _ _ no_more_writes))))))))))))).reports
