-- ===== src/Ioctl/UnitTests.antt =====
-- pcm-unit/driver/pcm_test_mod.c and pcm_test_ioctl.h: the `switch` of the unit tests' driver.
use pcm_test.Base.{
  ℕ, zero, suc, ◌<◌, ◌≡◌, refl, ◌∙◌, ap, inl, inr, List, [], ◌∷◌, arith, ◌==◌, if◌then◌else◌, leb,
  zero-bit_and, ◌≢◌,
}
use pcm_test.Base.Kernel.{Sys, M, pure, ◌>>◌, either-view}
use pcm_test.Ioctl.Abi.{IoctlAbi, IsIoctlAbi, io_eq, not_io}
use pcm_test.Ioctl.{Cpu, Status, success, einval, magic, handle}
use pcm_test.Ioctl.Gate.{entered, opened, closed, IsAccepted, handle-cases}

-- The tests of the other files of the driver.
pub record Tests (W : Type 0) : Type 0 where
  pub test_tsc : M W (Unit {0})
  pub test_setjmp : M W (Unit {0})
  pub test_msr : M W (Unit {0})
  pub test_kvm_clock : M W (Unit {0})
  pub test_ioapic : M W (Unit {0})
  pub test_tsc_adjust : M W (Unit {0})

-- `PCM_TEST_IOC_MAXNR`
abbrev pub max_nr : ℕ
max_nr = 6

-- The tests as data, and what each command number is to run, in order.
pub data Test : Type 0 where
  tsc setjmp msr kvm_clock ioapic tsc_adjust : Test

abbrev pub plan : ℕ → List Test
plan (suc zero) = tsc ∷ []
plan (suc (suc zero)) = setjmp ∷ []
plan (suc (suc (suc zero))) = msr ∷ []
plan (suc (suc (suc (suc zero)))) = kvm_clock ∷ ioapic ∷ tsc_adjust ∷ []
plan (suc (suc (suc (suc (suc zero))))) = ioapic ∷ tsc_adjust ∷ []
plan (suc (suc (suc (suc (suc (suc zero)))))) = tsc_adjust ∷ []
plan _ = []

module _ {W : Type 0} (abi : IoctlAbi) (t : Tests W) where
  -- The cases from IOAPIC_TEST on, and from KVMCLOCK_TEST on, have no `break`.
  from_tsc_adjust : M W (Unit {0})
  from_tsc_adjust = t.test_tsc_adjust

  from_ioapic : M W (Unit {0})
  unfolding from_tsc_adjust
  from_ioapic = do t.test_ioapic; from_tsc_adjust

  from_kvm_clock : M W (Unit {0})
  unfolding from_ioapic
  from_kvm_clock = do t.test_kvm_clock; from_ioapic

  -- `switch (cmd)`
  pub dispatch : ℕ → M W (Unit {0})
  unfolding from_kvm_clock
  dispatch cmd =
      if cmd == abi.io magic 1
      then t.test_tsc
      else if cmd == abi.io magic 2
      then t.test_setjmp
      else if cmd == abi.io magic 3
      then t.test_msr
      else if cmd == abi.io magic 4
      then from_kvm_clock
      else if cmd == abi.io magic 5
      then from_ioapic
      else if cmd == abi.io magic 6
      then from_tsc_adjust
      else pure tt

  pub pcm_cdev_ioctl : Cpu W → ℕ → ℕ → M W Status
  pcm_cdev_ioctl cpu = handle abi cpu max_nr dispatch

  abbrev pub perform : Test → M W (Unit {0})
  perform tsc = t.test_tsc
  perform setjmp = t.test_setjmp
  perform msr = t.test_msr
  perform kvm_clock = t.test_kvm_clock
  perform ioapic = t.test_ioapic
  perform tsc_adjust = t.test_tsc_adjust

  unfoldable pub perform_all : List Test → M W (Unit {0})
  perform_all [] = pure tt
  perform_all (x ∷ xs) = do perform x; perform_all xs

  -- For a number below 256 the `switch` runs the tests of the plan, in its order.
  pub dispatch-plan :
      (n : ℕ) (s : Sys W)
      → IsIoctlAbi abi
      → n < 256
      → (dispatch (abi.io magic n) s).1 ≡ (perform_all (plan n) s).1
  unfolding dispatch perform_all
  dispatch-plan n s h small = ground (
    arith,
    io_eq abi magic n 1 h (omega arith) small (omega arith),
    io_eq abi magic n 2 h (omega arith) small (omega arith),
    io_eq abi magic n 3 h (omega arith) small (omega arith),
    io_eq abi magic n 4 h (omega arith) small (omega arith),
    io_eq abi magic n 5 h (omega arith) small (omega arith),
    io_eq abi magic n 6 h (omega arith) small (omega arith),
  )

  -- What no test changes, no command changes.
  pub dispatch-view :
      {A : Type 0} (view : Sys W → A)
      → ((x : Test) (s : Sys W) → view (perform x s).1 ≡ view s)
      → (cmd : ℕ) (s : Sys W) → view (dispatch cmd s).1 ≡ view s
  unfolding dispatch
  dispatch-view view h cmd s = either-view view (cmd == abi.io magic 1) _ _ s (h tsc s) (
      either-view view (cmd == abi.io magic 2) _ _ s (h setjmp s) (
        either-view view (cmd == abi.io magic 3) _ _ s (h msr s) (
          either-view view (cmd == abi.io magic 4) _ _ s
            (h tsc_adjust _ ∙ h ioapic _ ∙ h kvm_clock s)
            (either-view view (cmd == abi.io magic 5) _ _ s (h tsc_adjust _ ∙ h ioapic s)
              (either-view view (cmd == abi.io magic 6) _ _ s (h tsc_adjust s) refl)))))

  dispatch_directed :
      (cmd : ℕ) (s : Sys W) → IsIoctlAbi abi → abi.dir_of cmd ≢ 0 → dispatch cmd s ≡ (tt, s)
  unfolding dispatch
  dispatch_directed cmd s h d = simp (
    not_io abi magic cmd 1 h d (omega arith) (omega arith),
    not_io abi magic cmd 2 h d (omega arith) (omega arith),
    not_io abi magic cmd 3 h d (omega arith) (omega arith),
    not_io abi magic cmd 4 h d (omega arith) (omega arith),
    not_io abi magic cmd 5 h d (omega arith) (omega arith),
    not_io abi magic cmd 6 h d (omega arith) (omega arith),
  )

  module _ (cpu : Cpu W) where
    -- Neither does the handler change what neither the tests nor the processor's operations do.
    pub command-view :
        {A : Type 0} (view : W → A)
        → ((v : W) → view (cpu.local_irq_disable v) ≡ view v)
        → ((v : W) → view (cpu.local_irq_enable v) ≡ view v)
        → ((nr : ℕ) (v : W) → view (cpu.vmcall nr v) ≡ view v)
        → ((x : Test) (s : Sys W) → view (perform x s).1.world ≡ view s.world)
        → (cmd arg : ℕ) (s : Sys W) → view (pcm_cdev_ioctl cpu cmd arg s).1.world ≡ view s.world
    unfolding pcm_cdev_ioctl
    command-view view disable enable vmcall h cmd arg s =
        elim (handle-cases abi cpu max_nr dispatch cmd arg s) [
          | inl e ↦ ap (λ (t : Sys W). view t.world) e
          | inr e ↦
              ap (λ (t : Sys W). view t.world) e
              ∙ enable _
              ∙ vmcall 103 _
              ∙ dispatch-view (λ t. view t.world) h cmd (opened cpu s)
              ∙ vmcall 102 _
              ∙ disable s.world
        ]

    -- A command that `_IO` makes of the driver's type and a number up to 6 succeeds: with interrupts
    -- off and after hypercall 102 it runs the tests of the plan in order, and then hypercall 103.
    -- Numbers from 7 on are refused with -EINVAL, and nothing runs.
    pub io_command_lem :
        (n arg : ℕ) (s : Sys W)
        → IsIoctlAbi abi
        → n < 256
        → pcm_cdev_ioctl cpu (abi.io magic n) arg s ≡ (
            if leb n 6
            then (success, closed cpu (perform_all (plan n) (opened cpu s)).1)
            else (einval, entered s))
    unfolding pcm_cdev_ioctl handle
    io_command_lem n arg s h small = ground (
      arith,
      h.type_of-io magic n (omega arith) small,
      h.nr_of-io magic n (omega arith) small,
      h.dir_of-io magic n (omega arith) small,
      dispatch-plan n (opened cpu s) h small,
      zero-bit_and abi.dir_read,
      zero-bit_and abi.dir_write,
    )

    -- An accepted command of no such form, as one that carries a direction, runs no test: it makes
    -- the two hypercalls, turns interrupts off and on, and succeeds.
    pub directed_command_lem :
        (cmd arg : ℕ) (s : Sys W)
        → IsIoctlAbi abi
        → abi.dir_of cmd ≢ 0
        → IsAccepted abi cpu max_nr (dispatch) cmd arg s.world
        → pcm_cdev_ioctl cpu cmd arg s ≡ (success, closed cpu (opened cpu s))
    unfolding pcm_cdev_ioctl handle
    directed_command_lem cmd arg s h directed a =
        ground
          (arith, a.of_type, a.in_range, a.allowed, dispatch_directed cmd (opened cpu s) h directed)
