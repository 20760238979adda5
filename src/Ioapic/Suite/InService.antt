-- ===== src/Ioapic/Suite/InService.antt =====
-- ioapic.c: the whole of `test_ioapic` leaves as many interrupts in service as there were.
use pcm_test.Base.{ℕ, zero, suc, ◌≡◌, ◌-◌, ◌^◌, Bool, String, Option, none, some}
use pcm_test.Ioapic.Registers.Access.{reg_version-keeps, reg_id-keeps, arbitration_id-keeps}
use pcm_test.Ioapic.Registers.{
  TriggerMode, edge, level, ioapic_reg_version, ioapic_reg_id, ioapic_arbitration_id,
}
use pcm_test.Ioapic.Rig.{Board, Rig, isr_79, modify, M, ◌>>=◌, ◌>>◌}
use pcm_test.Ioapic.Rig.Keeps.{
  Keeps, keeping, before-Keeps, then-Keeps, pure-Keeps, read-Keeps, either-Keeps, modify-Keeps,
}
use pcm_test.Ioapic.Handlers.{apic_read_bit}
use pcm_test.Ioapic.Handlers.InService.{IsBoard}
use pcm_test.Ioapic.LocalApic.InService.{pic-Keeps, x2apic-Keeps}
use pcm_test.Ioapic.Interrupts.{Addresses, call, install, redirect, edge_format, tmr_report}
use pcm_test.Ioapic.Interrupts.InService.{
  nop-Keeps, raw_line-Keeps, handler-Keeps, bit-Keeps, act_cli-Keeps, act_sti-Keeps,
  redirected-Keeps, edge_intr-Keeps, level_intr-Keeps, simultaneous-Keeps, level_coalesce-Keeps,
  level_sequential-Keeps, level_retrigger-Keeps, edge_mask-Keeps, level_mask-Keeps,
  level_retrigger_mask-Keeps, edge_tmr-Keeps, level_tmr-Keeps,
}
use pcm_test.Ioapic.Suite.{
  Rounds, after, still_waiting, Ending, ended, waiting, registers, sooner, toggle_irq_line_0x0e,
  set_irq_line_0x0e, due, overdue, wait, received, test_ioapic_edge_tmr_smp,
  test_ioapic_level_tmr_smp, unless_waiting, smp_tests, test_ioapic,
}

module _ {W : Type 0} (b : Board W) (at : Addresses) (burst : ℕ) (d : IsBoard b) where
  open d use {in_service, mmio-keeps, num_online_cpus-keeps}

  version-Keeps : Keeps in_service (registers (ioapic_reg_version b.mmio))
  version-Keeps = record { kept = λ s. reg_version-keeps mmio-keeps _ }

  id-Keeps : Keeps in_service (registers (ioapic_reg_id b.mmio))
  id-Keeps = record { kept = λ s. reg_id-keeps mmio-keeps _ }

  arbitration-Keeps : Keeps in_service (registers (ioapic_arbitration_id b.mmio))
  arbitration-Keeps = record { kept = λ s. arbitration_id-keeps mmio-keeps _ }

  toggle_job-Keeps : Keeps in_service (toggle_irq_line_0x0e b at burst)
  unfolding toggle_irq_line_0x0e
  toggle_job-Keeps =
      search
        (
          keeping,
          act_cli-Keeps b at burst d,
          act_sti-Keeps b at burst d,
          raw_line-Keeps b at burst d,
        )
        depth 30

  set_job-Keeps : Keeps in_service (set_irq_line_0x0e b at burst)
  unfolding set_irq_line_0x0e
  set_job-Keeps =
      search
        (
          keeping,
          act_cli-Keeps b at burst d,
          act_sti-Keeps b at burst d,
          raw_line-Keeps b at burst d,
        )
        depth 30

  due-Keeps :
      (start : Option ℕ) (job : M W (Unit {0}))
      → Keeps in_service job
      → Keeps in_service (due b at burst start job)
  unfolding due
  due-Keeps none job h = pure-Keeps in_service tt
  due-Keeps (some zero) job h = h
  due-Keeps (some (suc k)) job h = pure-Keeps in_service tt

  overdue-Keeps :
      (start : Option ℕ) (job : M W (Unit {0}))
      → Keeps in_service job
      → Keeps in_service (overdue b at burst start job)
  unfolding overdue
  overdue-Keeps none job h = pure-Keeps in_service tt
  overdue-Keeps (some k) job h = h

  wait-Keeps :
      (patience : ℕ) (start : Option ℕ) (job : M W (Unit {0})) (i : ℕ)
      → Keeps in_service job
      → Keeps in_service (wait b at burst patience start job i)
  unfolding wait
  wait-Keeps zero start job i h = pure-Keeps in_service still_waiting
  wait-Keeps (suc patience) start job i h = before-Keeps in_service _ _ (due-Keeps start job h) (
      before-Keeps in_service _ _ (nop-Keeps b at burst d) (
        then-Keeps in_service _ _ (read-Keeps in_service _) (λ tmr.
          either-Keeps in_service _ _ _ (wait-Keeps patience (sooner start) job _ h) (
            before-Keeps in_service _ _ (overdue-Keeps (sooner start) job h)
              (pure-Keeps in_service (after i))))))

  received-Keeps :
      (i : Rounds) (report : M W (Unit {0}))
      → Keeps in_service report
      → Keeps in_service (received b at burst i report)
  unfolding received
  received-Keeps still_waiting report h = pure-Keeps in_service waiting
  received-Keeps (after i) report h = search (keeping) depth 12

  module _ (patience : ℕ) where
    report-Keeps :
        (format : String) (before expected : Bool)
        → Keeps in_service (tmr_report b at burst format before expected)
    report-Keeps format before expected = search (keeping) depth 12

    call-Keeps : (m : M W (Unit {0})) → Keeps in_service m → Keeps in_service (call b at burst m)
    call-Keeps m h = before-Keeps in_service _ _ h (nop-Keeps b at burst d)

    -- A test with a second processor: what it does first, then the loop and the report.
    waited-Keeps :
        (trig : TriggerMode) (start : Option ℕ) (job : M W (Unit {0}))
        (report : Bool → M W (Unit {0}))
        → Keeps in_service job
        → ((before : Bool) → Keeps in_service (report before))
        → Keeps in_service (do
          modify (λ g. record g { g_tmr_79 = 2 ^ 32 - 1 })
          install b at burst 0x79 isr_79
          redirect b at burst 0x0e 0x79 trig
          tmr_before ← apic_read_bit b b.apic_tmr 0x79
          i ← wait b at burst patience start job 0
          received b at burst i (report tmr_before))
    waited-Keeps trig start job report h hr =
        before-Keeps in_service _ _ (modify-Keeps in_service _) (
          before-Keeps in_service _ _ (call-Keeps _ (handler-Keeps b at burst d _ _ _)) (
            before-Keeps in_service _ _ (call-Keeps _ (redirected-Keeps b at burst d _ _ _)) (
              then-Keeps in_service _ _ (bit-Keeps b at burst d _ _) (λ before.
                then-Keeps in_service _ _ (wait-Keeps patience start job 0 h)
                  (λ i. received-Keeps i _ (hr before))))))

    edge_smp-Keeps :
        (start : Option ℕ) (e : Bool)
        → Keeps in_service (test_ioapic_edge_tmr_smp b at burst patience start e)
    unfolding test_ioapic_edge_tmr_smp
    edge_smp-Keeps start e =
        waited-Keeps edge start _ _ toggle_job-Keeps (λ before. report-Keeps edge_format before e)

    level_smp-Keeps :
        (start : Option ℕ) (e : Bool)
        → Keeps in_service (test_ioapic_level_tmr_smp b at burst patience start e)
    unfolding test_ioapic_level_tmr_smp
    level_smp-Keeps start e =
        waited-Keeps level start _ _ set_job-Keeps (λ before. report-Keeps _ before e)

    unless-Keeps :
        (o : Ending) (rest : M W Ending)
        → Keeps in_service rest
        → Keeps in_service (unless_waiting b at burst patience o rest)
    unfolding unless_waiting
    unless-Keeps waiting rest h = pure-Keeps in_service waiting
    unless-Keeps ended rest h = h

    smp-Keeps : (starts : ℕ → Option ℕ) → Keeps in_service (smp_tests b at burst patience starts)
    unfolding smp_tests
    smp-Keeps starts = search (keeping, unless-Keeps, edge_smp-Keeps, level_smp-Keeps) depth 40

    ruleset single = (
      edge_intr-Keeps, level_intr-Keeps, simultaneous-Keeps, level_coalesce-Keeps,
      level_sequential-Keeps, level_retrigger-Keeps, edge_mask-Keeps, level_mask-Keeps,
      level_retrigger_mask-Keeps, edge_tmr-Keeps, level_tmr-Keeps,
    )

    all-Keeps : (starts : ℕ → Option ℕ) → Keeps in_service (test_ioapic b at burst patience starts)
    unfolding test_ioapic
    all-Keeps starts =
        search
          (
            keeping, single, pic-Keeps, x2apic-Keeps, act_sti-Keeps, nop-Keeps, version-Keeps,
            id-Keeps, arbitration-Keeps, num_online_cpus-keeps, smp-Keeps,
          )
          depth 80

    -- Whatever interrupts the processor takes between the calls of `test_ioapic`, and whenever the
    -- second processor runs what it is sent, as many interrupts are in service at the end, or when a
    -- loop still waits after `patience` rounds, as at the start.
    pub test_ioapic-in_service :
        (starts : ℕ → Option ℕ) (s : Rig W)
        → in_service (test_ioapic b at burst patience starts s).1.world ≡ in_service s.world
    test_ioapic-in_service starts s = (all-Keeps starts).kept s
