-- ===== src/InsTests/OnDriver.antt =====
-- focus_test/driver: rdrand.c as the driver's command runs it.
use pcm_test.Base.{ℕ, ◌≡◌, ◌∙◌, ap, inl, inr, Bool, false, [], ◌∷◌, ◌++◌, String, arith}
use pcm_test.Base.Kernel.{Sys}
use pcm_test.Ioctl.{Cpu, success, magic}
use pcm_test.Ioctl.Abi.{IoctlAbi, IsIoctlAbi}
use pcm_test.Ioctl.Gate.{opened, closed}
use pcm_test.Ioctl.FocusTests.{pcm_cdev_ioctl, perform_all, focus_command_lem}
use pcm_test.InsTests.{Machine, Driver, rdrand_test, tests}
use pcm_test.InsTests.Random.{AllFail, EndsAsDrawn, advanced, draw, rdrand_long_lem}

module _ {C : Type 0} (x : Machine C) (abi : IoctlAbi) (cpu : Cpu (Driver C)) where
  -- A line with one number.
  abbrev pub logged : String → ℕ → Sys (Driver C) → Sys (Driver C)
  logged format n s = record s { log = s.log ++ record { format = format; values = n ∷ [] } ∷ [] }

  failed :
      (v : ℕ) (s : Sys (Driver C)) (r : (Bool × ℕ) × Sys (Driver C))
      → AllFail x 10 s.world.outer
      → EndsAsDrawn x 10 v s r
      → r ≡ ((false, (draw x 9 s.world.outer).1), advanced x 10 s)
  failed v s r fails (inl (k, h, earlier, ok, e)) = ground (arith, fails k h)
  failed v s r fails (inr (all, e)) = e

  -- If rdrand fails ten times, the driver's command for it still returns 0, and logs the value that
  -- the last failure left as if it were a random number.
  pub rdrand_command-failed :
      (v arg : ℕ) (s : Sys (Driver C))
      → IsIoctlAbi abi
      → AllFail x 10 (opened cpu s).world.outer
      → pcm_cdev_ioctl abi (tests x v) cpu (abi.io magic 4) arg s ≡ (
        success,
        closed cpu (
            logged "get_rdrand=%lx\n"
              (draw x 9 (opened cpu s).world.outer).1
              (advanced x 10 (opened cpu s))),
      )
  unfolding rdrand_test perform_all
  rdrand_command-failed v arg s h fails =
      focus_command_lem abi (tests x v) cpu 4 arg s h (omega arith)
      ∙ ap (λ r. (success, closed cpu (logged "get_rdrand=%lx\n" r.0.1 r.1)))
          (failed v (opened cpu s) _ fails (rdrand_long_lem x v (opened cpu s)))
