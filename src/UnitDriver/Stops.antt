-- ===== src/UnitDriver/Stops.antt =====
-- pcm-unit/driver: the commands that do not return on a machine of several processors.
use pcm_test.Base.{
  ℕ, ◌≡◌, refl, ap, Bool, true, false, inl, inr, ◌⊎◌, [], ◌∷◌, ltb, if◌then◌else◌, arith,
}
use pcm_test.Base.Kernel.{Sys, M, pure}
use pcm_test.Ioctl.{magic}
use pcm_test.Ioctl.Abi.{IoctlAbi, IsIoctlAbi}
use pcm_test.Ioctl.UnitTests.{perform_all, ioapic, tsc_adjust, io_command_lem}
use pcm_test.Ioapic.Suite.Waits.{test_ioapic-waits}
use pcm_test.UnitDriver.{
  Hardware, Driver, is_waiting, unless_stopped, on_rig, tests, driver_cpu, pcm_cdev_ioctl,
}

module _ {C : Type 0} (h : Hardware C)
    (several : (c : C) → ltb 1 (h.board.num_online_cpus c).0 ≡ true) (i : ℕ) where
  branch-stopped :
      (b : Bool) (m n : M (Driver C) (Unit {0})) (s : Sys (Driver C))
      → (b ≡ true → (m s).1.world.stopped ≡ true)
      → (b ≡ false → (n s).1.world.stopped ≡ true)
      → ((if b then m else n) s).1.world.stopped ≡ true
  branch-stopped true m n s over going = over refl
  branch-stopped false m n s over going = going refl

  -- A run that has stopped stays so, and one that goes on stops where its test does.
  unless-stopped :
      (m : M (Driver C) (Unit {0})) (s : Sys (Driver C))
      → (m s).1.world.stopped ≡ true
      → (unless_stopped m s).1.world.stopped ≡ true
  unfolding unless_stopped
  unless-stopped m s e = branch-stopped s.world.stopped (pure tt) m s (λ over. over) (λ going. e)

  after-stopped :
      (m : M (Driver C) (Unit {0})) (s : Sys (Driver C))
      → s.world.stopped ≡ true
      → (unless_stopped m s).1.world.stopped ≡ true
  unfolding unless_stopped
  after-stopped m s over = rw over refl

  ioapic-stopped :
      (abi : IoctlAbi) (s : Sys (Driver C))
      → (perform_all abi (tests h i) (ioapic ∷ tsc_adjust ∷ []) s).1.world.stopped ≡ true
  unfolding perform_all tests on_rig
  ioapic-stopped abi s = after-stopped _ _ (
      unless-stopped _ s (
        ap is_waiting
          (test_ioapic-waits h.board h.addresses h.burst h.patience several h.starts _)))

  -- On a machine of more than one processor that lets the driver store to its first page, the commands
  -- KVMCLOCK_TEST and IOAPIC_TEST, with the kernel's encoding, do not come to their end, however long
  -- the loops of `test_ioapic` wait, whatever interrupts the processor takes, and whatever the tests
  -- before that one do.
  pub pcm_cdev_ioctl-stopped :
      (abi : IoctlAbi) (n arg : ℕ) (s : Sys (Driver C))
      → IsIoctlAbi abi
      → (n ≡ 4) ⊎ (n ≡ 5)
      → (pcm_cdev_ioctl h i abi (abi.io magic n) arg s).1.world.stopped ≡ true
  unfolding pcm_cdev_ioctl driver_cpu perform_all
  pcm_cdev_ioctl-stopped abi n arg s d (inl four) =
      rw (four, io_command_lem abi (tests h i) (driver_cpu h i) 4 arg s d (omega arith))
        (ioapic-stopped abi _)
  pcm_cdev_ioctl-stopped abi n arg s d (inr five) =
      rw (five, io_command_lem abi (tests h i) (driver_cpu h i) 5 arg s d (omega arith))
        (ioapic-stopped abi _)
