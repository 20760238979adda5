-- ===== src/UnitApp/OnDriver.antt =====
-- pcm-unit/app/pcmtest.c on the driver of pcm-unit/driver/pcm_test_mod.c with the test of tsc.c.
use pcm_test.Base.{ℕ, ◌≡◌, refl, ◌∙◌, ap, arith, [], ◌∷◌, ◌++◌}
use pcm_test.Base.Kernel.{Sys}
use pcm_test.Ioctl.{Cpu, success}
use pcm_test.Ioctl.Abi.{IoctlAbi, IsIoctlAbi}
use pcm_test.Ioctl.{magic}
use pcm_test.Ioctl.Gate.{entered, opened, closed}
use pcm_test.Ioctl.UnitTests.{Tests, pcm_cdev_ioctl, perform_all, io_command_lem}
use pcm_test.GuestApp.{SystemCalls}
use pcm_test.GuestApp.OnDriver.{Routes}
use pcm_test.TimeStamp
use pcm_test.TimeStamp.{Counter}
use pcm_test.TimeStamp.Adjust.{IsCounter}
use pcm_test.TimeStamp.Written.{HasAux, six_lines, test_tsc-lines}
use pcm_test.UnitApp.{opened_device, ended, main}

module _ {W : Type 0} (abi : IoctlAbi) (t : Tests W) (cpu : Cpu W) (sys : SystemCalls (Sys W)) where
  -- What the driver does for the program's command.
  abbrev after_test : Sys W → Sys W
  after_test s = closed cpu (t.test_tsc (opened cpu s)).1

  command_lem :
      (arg : ℕ) (s : Sys W)
      → IsIoctlAbi abi
      → pcm_cdev_ioctl abi t cpu (abi.io magic 1) arg s ≡ (success, after_test s)
  unfolding perform_all
  command_lem arg s h = io_command_lem abi t cpu 1 arg s h (omega arith)

  main-test_tsc :
      (fd arg : ℕ) (ready : Sys W → Sys W) (s : Sys W)
      → IsIoctlAbi abi
      → Routes sys fd ready (λ cmd. pcm_cdev_ioctl abi t cpu cmd arg)
      → main abi sys s ≡ (0, sys.close fd (after_test (ready s)))
  unfolding main opened_device ended
  main-test_tsc fd arg ready s h routes =
      rw
        (
          routes.open_file-device s,
          routes.ioctl-handler (abi.io magic 1) (ready s),
          command_lem arg (ready s) h,
        )
        refl

module _ {W : Type 0} (abi : IoctlAbi) (rest : Tests W) (cpu : Cpu W) (x : Counter W)
    (d : IsCounter x) (e : HasAux x d) where
  -- The driver's tests, with that of tsc.c as test_tsc.
  abbrev pub tests : Tests W
  tests = record rest { test_tsc = TimeStamp.test_tsc x }

  -- Where the kernel opens the device, passes the program's command to the driver's handler, and
  -- logs as it closes the device what the driver's release does, and the counter is as its manual has
  -- it, the program returns 0, and closes the device last; the driver has then logged its entry, the
  -- six lines of tsc.c's test and the line of its release. The test has run after interrupts were turned off and hypercall 102 was made, and
  -- hypercall 103 was made and interrupts were turned on after it. `arg` stands for the argument of
  -- `ioctl` that the program does not give.
  pub main-lines :
      (sys : SystemCalls (Sys W)) (fd arg : ℕ) (ready : Sys W → Sys W) (s : Sys W)
      → IsIoctlAbi abi
      → Routes sys fd ready (λ cmd. pcm_cdev_ioctl abi tests cpu cmd arg)
      → ((k : Sys W) → (sys.close fd k).log ≡ (entered k).log)
      → (main abi sys s
          ≡ (0, sys.close fd (closed cpu (TimeStamp.test_tsc x (opened cpu (ready s))).1)))
        × ((main abi sys s).1.log
            ≡ six_lines x d e
                (entered (ready s)).log
                (cpu.vmcall 102 (cpu.local_irq_disable (ready s).world))
              ++ record { format = "%s()\n"; values = [] } ∷ [])
  main-lines sys fd arg ready s h routes released =
      let run = main-test_tsc abi tests cpu sys fd arg ready s h routes in
      (
        run,
        ap (λ (r : ℕ × Sys W). r.1.log) run
            ∙ released _
            ∙ ap (λ log. log ++ record { format = "%s()\n"; values = [] } ∷ [])
                (test_tsc-lines x d e (opened cpu (ready s))),
      )
