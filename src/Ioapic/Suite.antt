-- ===== src/Ioapic/Suite.antt =====
-- ioapic.c: the tests with a second processor, and `test_ioapic`. The second processor is sent its
-- function without a wait, and runs it in some later round of the first one's loop, or when the loop
-- has ended. The loop runs for `patience` rounds at most; a loop that still waits then ends the model's
-- run.
pub mod InService
pub mod Waits
pub mod Tests
use pcm_test.Base.{
  ℕ, zero, suc, ◌+◌, ◌-◌, ◌%◌, ◌^◌, Bool, true, false, String, [], ◌∷◌, Option, none, some, ◌==◌,
  not, if◌then◌else◌, ltb,
}
use pcm_test.Ioapic.Registers.{
  TriggerMode, edge, level, ioapic_reg_version, ioapic_reg_id, ioapic_arbitration_id,
}
use pcm_test.Ioapic.Rig.{
  Board, Isr, isr_79, Rig, M, pure, ◌>>=◌, ◌>>◌, printk, ask, act, read, modify,
}
use pcm_test.Ioapic.Handlers.{apic_read_bit, set_irq_line, interrupts}
use pcm_test.Ioapic.LocalApic.{enable_x2apic_local, mask_pic_interrupts}
use pcm_test.Ioapic.Interrupts.{
  Addresses, call, install, redirect, irq_enable, edge_format, level_format, tmr_report,
  test_ioapic_edge_intr, test_ioapic_level_intr, test_ioapic_simultaneous, test_ioapic_edge_tmr,
  test_ioapic_level_tmr, test_ioapic_level_coalesce, test_ioapic_level_sequential,
  test_ioapic_level_retrigger, test_ioapic_edge_mask, test_ioapic_level_mask,
  test_ioapic_level_retrigger_mask,
}
use pcm_test.Base.Kernel

-- The register tests, which know the kernel log and the controller.
abbrev pub registers : {W : Type 0} → (Kernel.Sys W → Unit {0} × Kernel.Sys W) → M W (Unit {0})
registers m s =
    let r = (m (record { world = s.world; log = s.log })).1 in
    (tt, record s { world = r.world; log = r.log })

-- How the loop ends: after that many rounds, or not within the patience.
pub data Rounds : Type 0 where
  after : ℕ → Rounds
  still_waiting : Rounds

-- How a test ends, or all tests.
pub data Ending : Type 0 where
  ended waiting : Ending

abbrev minus_one : ℕ
minus_one = 2 ^ 32 - 1

abbrev smp_level_format : String
smp_level_format =
    "TMR for ioapic level interrupts tmr_before=%x, expected_tmr_before=%x, g_tmr_79=%x\n"

-- When the second processor starts: in how many rounds, or not again.
abbrev pub sooner : Option ℕ → Option ℕ
sooner none = none
sooner (some zero) = none
sooner (some (suc k)) = some k

module _ {W : Type 0} (b : Board W) (at : Addresses) (burst : ℕ) where
  -- What the second processor, number 1, runs; `delay` only takes time.
  pub toggle_irq_line_0x0e : M W (Unit {0})
  toggle_irq_line_0x0e = do
    act (b.cli 1)
    set_irq_line b 0x0e 1
    set_irq_line b 0x0e 0
    act (b.sti 1)

  pub set_irq_line_0x0e : M W (Unit {0})
  set_irq_line_0x0e = do act (b.cli 1); set_irq_line b 0x0e 1; act (b.sti 1)

  pub due : Option ℕ → M W (Unit {0}) → M W (Unit {0})
  due none job = pure tt
  due (some zero) job = job
  due (some (suc k)) job = pure tt

  -- A start that has not come when the loop ends comes then.
  pub overdue : Option ℕ → M W (Unit {0}) → M W (Unit {0})
  overdue none job = pure tt
  overdue (some k) job = job

  -- `while(g_tmr_79 == -1) i++;`
  pub wait : ℕ → Option ℕ → M W (Unit {0}) → ℕ → M W Rounds
  wait zero start job i = pure still_waiting
  wait (suc patience) start job i = do
    due start job
    interrupts b burst
    tmr ← read (λ g. g.g_tmr_79)
    let rest = wait patience (sooner start) job ((i + 1) % 2 ^ 32)
    let left = do overdue (sooner start) job; pure (after i)
    if tmr == minus_one then rest else left

  -- What a test with a second processor does after its loop, if the loop has ended.
  pub received : Rounds → M W (Unit {0}) → M W Ending
  received still_waiting report = pure waiting
  received (after i) report = do
    printk "%d iterations before interrupt received\n" (i ∷ [])
    report
    pure ended

  module _ (patience : ℕ) where
    pub test_ioapic_edge_tmr_smp : Option ℕ → Bool → M W Ending
    test_ioapic_edge_tmr_smp start expected_tmr_before = do
      modify (λ g. record g { g_tmr_79 = minus_one })
      install b at burst 0x79 isr_79
      redirect b at burst 0x0e 0x79 edge
      tmr_before ← apic_read_bit b b.apic_tmr 0x79
      i ← wait patience start toggle_irq_line_0x0e 0
      received i (tmr_report b at burst edge_format tmr_before expected_tmr_before)

    pub test_ioapic_level_tmr_smp : Option ℕ → Bool → M W Ending
    test_ioapic_level_tmr_smp start expected_tmr_before = do
      modify (λ g. record g { g_tmr_79 = minus_one })
      install b at burst 0x79 isr_79
      redirect b at burst 0x0e 0x79 level
      tmr_before ← apic_read_bit b b.apic_tmr 0x79
      i ← wait patience start set_irq_line_0x0e 0
      received i (tmr_report b at burst smp_level_format tmr_before expected_tmr_before)

    -- The rest, unless a loop still waits.
    pub unless_waiting : Ending → M W Ending → M W Ending
    unless_waiting waiting rest = pure waiting
    unless_waiting ended rest = rest

    -- The four tests with a second processor, which starts after `starts 0` to `starts 3` rounds, or
    -- not at all where smp_call_function_single fails.
    pub smp_tests : (ℕ → Option ℕ) → M W Ending
    smp_tests starts = do
      first ← test_ioapic_edge_tmr_smp (starts 0) false
      unless_waiting first (do
        second ← test_ioapic_level_tmr_smp (starts 1) false
        unless_waiting second (do
          third ← test_ioapic_level_tmr_smp (starts 2) true
          unless_waiting third (test_ioapic_edge_tmr_smp (starts 3) true)))

    pub test_ioapic : (ℕ → Option ℕ) → M W Ending
    test_ioapic starts = do
      mask_pic_interrupts b
      enabled ← enable_x2apic_local b
      if not (enabled == 0) then printk "x2apic enabled\n" [] else printk "x2apic not detected\n" []
      irq_enable b at burst
      registers (ioapic_reg_version b.mmio)
      registers (ioapic_reg_id b.mmio)
      registers (ioapic_arbitration_id b.mmio)
      test_ioapic_edge_intr b at burst
      test_ioapic_level_intr b at burst
      test_ioapic_simultaneous b at burst
      test_ioapic_level_coalesce b at burst
      test_ioapic_level_sequential b at burst
      test_ioapic_level_retrigger b at burst
      test_ioapic_edge_mask b at burst
      test_ioapic_level_mask b at burst
      test_ioapic_level_retrigger_mask b at burst
      test_ioapic_edge_tmr b at burst false
      test_ioapic_level_tmr b at burst false
      test_ioapic_level_tmr b at burst true
      test_ioapic_edge_tmr b at burst true
      cpus ← ask b.num_online_cpus
      if ltb 1 cpus then smp_tests starts else pure ended
