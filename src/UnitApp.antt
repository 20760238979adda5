-- ===== src/UnitApp.antt =====
-- pcm-unit/app/pcmtest.c: the program that has the unit tests' driver run its first test. The text
-- that it prints for an error, which is strerror's, is left out.
pub mod OnDriver
mod Tests
use pcm_test.Base.{ℕ, Option, none, some, ◌==◌, not, if◌then◌else◌}
use pcm_test.Ioctl.{magic}
use pcm_test.Ioctl.Abi.{IoctlAbi}
use pcm_test.GuestApp.{SystemCalls}

module _ {W : Type 0} (abi : IoctlAbi) (sys : SystemCalls W) where
  -- What follows `ioctl`, from what it has returned.
  pub ended : ℕ → ℕ × W → ℕ × W
  ended fd (err, w) = if not (err == 0) then (1, w) else (0, sys.close fd w)

  -- What follows `open`.
  pub opened_device : Option ℕ × W → ℕ × W
  opened_device (none, w) = (1, w)
  opened_device (some fd, w) = ended fd (sys.ioctl fd (abi.io magic 1) w)

  pub main : W → ℕ × W
  main w = opened_device (sys.open_file "/dev/pcm_test" w)
