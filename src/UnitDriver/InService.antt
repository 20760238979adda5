-- ===== src/UnitDriver/InService.antt =====
-- pcm-unit/driver: what every command of the driver leaves as it was, by its tests.
use pcm_test.Base.{ℕ, ◌≡◌, refl, Bool-cases, if◌then◌else◌, Option, arith, ap, inl, inr}
use pcm_test.Base.Kernel.{Sys, M, pure, either-view}
use pcm_test.Ioctl.Abi.{IoctlAbi}
use pcm_test.Ioctl.UnitTests.{
  Test, tsc, setjmp, msr, kvm_clock, ioapic, tsc_adjust, perform, command-view,
}
use pcm_test.TimeStamp.Keeps.{KeepsView as CounterView, test_tsc-kept, test_tsc_adjust-kept}
use pcm_test.MsrTest.Keeps.{KeepsView as MsrView, test_msr-kept}
use pcm_test.ClockTest.Keeps.{KeepsView as ClockView, test_kvm_clock-kept}
use pcm_test.SetJmp.Loop.{test_setjmp_lem}
use pcm_test.Ioapic.Handlers.InService.{IsBoard}
use pcm_test.Ioapic.Suite.InService.{test_ioapic-in_service}
use pcm_test.UnitDriver.{
  Hardware, Driver, unless_stopped, on_machine, on_clocks, on_rig, on_jumps, tests, driver_cpu,
  pcm_cdev_ioctl,
}

-- One machine whose interrupts in service only its local controller changes: none of what the other
-- files do with it does.
pub record IsHardware {C : Type 0} (h : Hardware C) : Type 0 where
  pub board : IsBoard h.board
  open board use {in_service}
  pub counter : CounterView h.counter in_service
  pub msr : MsrView h.msr in_service
  pub clocks : ClockView h.clocks in_service
  pub system_time :
      (v : ℕ) (c : C)
      → in_service (h.clocks.wrmsrl_safe h.clocks.msr_kvm_system_time_new v c).1 ≡ in_service c
  pub disable-keeps : (c : C) → in_service (h.cpu.local_irq_disable c) ≡ in_service c
  pub enable-keeps : (c : C) → in_service (h.cpu.local_irq_enable c) ≡ in_service c
  pub vmcall-keeps : (nr : ℕ) (c : C) → in_service (h.cpu.vmcall nr c) ≡ in_service c

module _ {C : Type 0} (h : Hardware C) (d : IsHardware h) (i : ℕ) where
  abbrev serving : Sys (Driver C) → ℕ
  serving s = d.board.in_service s.world.outer

  unless-kept :
      (m : M (Driver C) (Unit {0})) (s : Sys (Driver C))
      → serving (m s).1 ≡ serving s
      → serving (unless_stopped m s).1 ≡ serving s
  unfolding unless_stopped
  unless-kept m s e = either-view serving s.world.stopped (pure tt) m s refl e

  test-kept :
      (abi : IoctlAbi) (x : Test) (s : Sys (Driver C))
      → serving (perform abi (tests h i) x s).1 ≡ serving s
  unfolding tests on_machine on_clocks on_rig on_jumps
  test-kept abi tsc s = unless-kept _ s (test_tsc-kept h.counter d.board.in_service d.counter _)
  test-kept abi setjmp s = unless-kept _ s (
      ap (λ (r : Option (Unit {0}) × Sys (Driver C)). serving r.1)
        (test_setjmp_lem 9 i s (omega arith)))
  test-kept abi msr s = unless-kept _ s (test_msr-kept h.msr d.board.in_service d.msr _)
  test-kept abi kvm_clock s =
      unless-kept _ s (test_kvm_clock-kept h.clocks d.board.in_service d.clocks d.system_time _)
  test-kept abi ioapic s =
      unless-kept _ s
        (test_ioapic-in_service h.board h.addresses h.burst d.board h.patience h.starts _)
  test-kept abi tsc_adjust s =
      unless-kept _ s (test_tsc_adjust-kept h.counter d.board.in_service d.counter _)

  change-kept :
      (f : C → C) (v : Driver C)
      → ((c : C) → d.board.in_service (f c) ≡ d.board.in_service c)
      → d.board.in_service (if v.stopped then v.outer else f v.outer) ≡ d.board.in_service v.outer
  change-kept f v e = elim (Bool-cases v.stopped) [
    | inl over ↦ rw over refl
    | inr going ↦ rw going (e v.outer)
  ]

  -- On a machine whose interrupts in service only its local controller changes: whatever command the
  -- driver is given, and whatever interrupts the processor takes during its tests, as many interrupts
  -- are in service after the command as before it, or where the run stops in a loop that still waits.
  pub pcm_cdev_ioctl-in_service :
      (abi : IoctlAbi) (cmd arg : ℕ) (s : Sys (Driver C))
      → d.board.in_service (pcm_cdev_ioctl h i abi cmd arg s).1.world.outer
        ≡ d.board.in_service s.world.outer
  unfolding pcm_cdev_ioctl driver_cpu
  pcm_cdev_ioctl-in_service abi cmd arg s =
      command-view abi (tests h i) (driver_cpu h i) (λ v. d.board.in_service v.outer)
        (λ v. change-kept h.cpu.local_irq_disable v d.disable-keeps)
        (λ v. change-kept h.cpu.local_irq_enable v d.enable-keeps)
        (λ nr v. change-kept (h.cpu.vmcall nr) v (d.vmcall-keeps nr)) (test-kept abi) cmd arg s
