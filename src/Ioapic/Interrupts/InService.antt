-- ===== src/Ioapic/Interrupts/InService.antt =====
-- ioapic.c: no interrupt test leaves an interrupt in service.
use pcm_test.Base.{ℕ, zero, suc, Bool}
use pcm_test.Ioapic.Registers.{TriggerMode, set_ioapic_redir, set_mask}
use pcm_test.Ioapic.Registers.Access.{set_ioapic_redir-keeps, set_mask-keeps}
use pcm_test.Ioapic.Rig.{Board, M, act, ◌>>◌}
use pcm_test.Ioapic.Rig.Keeps.{
  Keeps, keeping, then-Keeps, read-Keeps, act-Keeps, before-Keeps, either-Keeps, pure-Keeps,
}
use pcm_test.Ioapic.Handlers.{interrupts, apic_read_bit, set_irq_line, handle_irq_local}
use pcm_test.Ioapic.Handlers.InService.{
  IsBoard, set_irq_line-Keeps, apic_read_bit-Keeps, interrupts-Keeps, handle_irq_local-Keeps,
}
use pcm_test.Ioapic.Interrupts.{
  Addresses, call, line, irq_disable, irq_enable, toggle_irq_line, retrigger_rounds,
  test_ioapic_edge_tmr, test_ioapic_level_tmr, test_ioapic_edge_intr, test_ioapic_level_intr,
  test_ioapic_simultaneous, test_ioapic_level_coalesce, test_ioapic_level_sequential,
  test_ioapic_level_retrigger, test_ioapic_edge_mask, test_ioapic_level_mask,
  test_ioapic_level_retrigger_mask,
}

module _ {W : Type 0} (b : Board W) (at : Addresses) (burst : ℕ) (d : IsBoard b) where
  open d use {in_service, mmio-keeps, cli-keeps, sti-keeps, hlt-keeps}

  pub nop-Keeps : Keeps in_service (interrupts b burst)
  nop-Keeps = interrupts-Keeps b d burst

  pub redirected-Keeps :
      (n vec : ℕ) (trig : TriggerMode) → Keeps in_service (act (set_ioapic_redir b.mmio n vec trig))
  redirected-Keeps n vec trig =
      act-Keeps in_service _ (set_ioapic_redir-keeps mmio-keeps n vec trig)

  masked-Keeps : (n mask : ℕ) → Keeps in_service (act (set_mask b.mmio n mask))
  masked-Keeps n mask = act-Keeps in_service _ (set_mask-keeps mmio-keeps n mask)

  line-Keeps : (n val : ℕ) → Keeps in_service (line b at burst n val)
  line-Keeps n val = before-Keeps in_service _ _ (set_irq_line-Keeps b d _ _) nop-Keeps

  toggle-Keeps : (n : ℕ) → Keeps in_service (toggle_irq_line b at burst n)
  unfolding toggle_irq_line
  toggle-Keeps n = before-Keeps in_service _ _ (line-Keeps n 1) (line-Keeps n 0)

  pub raw_line-Keeps : (n val : ℕ) → Keeps in_service (set_irq_line b n val)
  raw_line-Keeps = set_irq_line-Keeps b d

  pub handler-Keeps : (vec func entry : ℕ) → Keeps in_service (handle_irq_local b vec func entry)
  handler-Keeps = handle_irq_local-Keeps b d

  pub bit-Keeps : (r n : ℕ) → Keeps in_service (apic_read_bit b r n)
  bit-Keeps = apic_read_bit-Keeps b d

  pub act_cli-Keeps : (cpu : ℕ) → Keeps in_service (act (b.cli cpu))
  act_cli-Keeps cpu = act-Keeps in_service _ (cli-keeps cpu)

  pub act_sti-Keeps : (cpu : ℕ) → Keeps in_service (act (b.sti cpu))
  act_sti-Keeps cpu = act-Keeps in_service _ (sti-keeps cpu)

  act_hlt-Keeps : Keeps in_service (act b.hlt)
  act_hlt-Keeps = act-Keeps in_service _ hlt-keeps

  ruleset calls = (
    keeping, nop-Keeps, redirected-Keeps, masked-Keeps, raw_line-Keeps, toggle-Keeps, handler-Keeps,
    bit-Keeps, act_cli-Keeps, act_sti-Keeps, act_hlt-Keeps,
  )

  again-Keeps :
      (k : M W (Unit {0}))
      → Keeps in_service k
      → Keeps in_service
          (do irq_enable b at burst; call b at burst (act b.hlt); irq_disable b at burst; k)
  again-Keeps k h = search (calls) depth 40

  rounds-Keeps : (rounds : ℕ) → Keeps in_service (retrigger_rounds b at burst rounds)
  unfolding retrigger_rounds
  rounds-Keeps zero = pure-Keeps in_service tt
  rounds-Keeps (suc rounds) = then-Keeps in_service _ _ (read-Keeps in_service _) (λ count.
      either-Keeps in_service _ _ _ (pure-Keeps in_service tt)
        (again-Keeps _ (rounds-Keeps rounds)))

  pub edge_intr-Keeps : Keeps in_service (test_ioapic_edge_intr b at burst)
  unfolding test_ioapic_edge_intr
  edge_intr-Keeps = search (calls) depth 60

  pub level_intr-Keeps : Keeps in_service (test_ioapic_level_intr b at burst)
  unfolding test_ioapic_level_intr
  level_intr-Keeps = search (calls) depth 60

  pub simultaneous-Keeps : Keeps in_service (test_ioapic_simultaneous b at burst)
  unfolding test_ioapic_simultaneous
  simultaneous-Keeps = search (calls) depth 60

  pub level_coalesce-Keeps : Keeps in_service (test_ioapic_level_coalesce b at burst)
  unfolding test_ioapic_level_coalesce
  level_coalesce-Keeps = search (calls) depth 60

  pub level_sequential-Keeps : Keeps in_service (test_ioapic_level_sequential b at burst)
  unfolding test_ioapic_level_sequential
  level_sequential-Keeps = search (calls) depth 60

  pub level_retrigger-Keeps : Keeps in_service (test_ioapic_level_retrigger b at burst)
  unfolding test_ioapic_level_retrigger
  level_retrigger-Keeps = search (calls, rounds-Keeps) depth 60

  pub edge_mask-Keeps : Keeps in_service (test_ioapic_edge_mask b at burst)
  unfolding test_ioapic_edge_mask
  edge_mask-Keeps = search (calls) depth 60

  pub level_mask-Keeps : Keeps in_service (test_ioapic_level_mask b at burst)
  unfolding test_ioapic_level_mask
  level_mask-Keeps = search (calls) depth 60

  pub level_retrigger_mask-Keeps : Keeps in_service (test_ioapic_level_retrigger_mask b at burst)
  unfolding test_ioapic_level_retrigger_mask
  level_retrigger_mask-Keeps = search (calls) depth 60

  pub edge_tmr-Keeps :
      (expected : Bool) → Keeps in_service (test_ioapic_edge_tmr b at burst expected)
  unfolding test_ioapic_edge_tmr
  edge_tmr-Keeps expected = search (calls) depth 60

  pub level_tmr-Keeps :
      (expected : Bool) → Keeps in_service (test_ioapic_level_tmr b at burst expected)
  unfolding test_ioapic_level_tmr
  level_tmr-Keeps expected = search (calls) depth 60
