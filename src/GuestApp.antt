-- ===== src/GuestApp.antt =====
-- focus_test/guestapp/pcmtest.c: the program in the guest that asks the driver for one test. The text
-- that it prints for an error, which is strerror's, is left out.
pub mod OnDriver
mod Tests
use pcm_test.Base.{ℕ, String, List, [], ◌∷◌, Option, none, some, ◌==◌, not, if◌then◌else◌}
use pcm_test.CommandLine.{Opt, type_option, help_option, unknown_option, CString, buffsize}
use pcm_test.Ioctl.{magic}
use pcm_test.Ioctl.Abi.{IoctlAbi}

-- The system calls: a descriptor or none if `open` fails, what `ioctl` returns, and `close`.
pub record SystemCalls (W : Type 0) : Type 0 where
  pub open_file : String → W → Option ℕ × W
  pub ioctl : ℕ → ℕ → W → ℕ × W
  pub close : ℕ → W → W

module _ {W : Type 0} (abi : IoctlAbi) (sys : SystemCalls W) (c : CString) where
  -- `ins_ioc`, by the array `type`.
  pub ins_ioc : c.Buffer → ℕ
  ins_ioc type =
      if c.strcmp type "cpuid" == 0
      then abi.io magic 1
      else if c.strcmp type "rdpmc" == 0
      then abi.io magic 5
      else if c.strcmp type "rdrand" == 0
      then abi.io magic 4
      else if c.strcmp type "rdseed" == 0
      then abi.io magic 3
      else if c.strcmp type "rdtsc" == 0
      then abi.io magic 6
      else if c.strcmp type "rdtscp" == 0
      then abi.io magic 7
      else if c.strcmp type "pio" == 0
      then abi.io magic 8
      else if c.strcmp type "mmio" == 0
      then abi.io magic 9
      else if c.strcmp type "icmp" == 0
      then abi.io magic 10
      else abi.io magic 1

  -- The end of `main`, from what `ioctl` has returned.
  abbrev finish : ℕ → ℕ × W → ℕ × W
  finish fd (err, w) = if not (err == 0) then (1, w) else (0, sys.close fd w)

  -- What follows `open`, with the rest of the loop as `rest`.
  abbrev opened : (ℕ → W → ℕ × W) → Option ℕ × W → ℕ × W
  opened rest (none, w) = (1, w)
  opened rest (some fd, w) = rest fd w

  -- The loop over the options, with what follows it. Each -t opens the device.
  pub options : ℕ → c.Buffer → List Opt → W → ℕ × W
  unfolding ins_ioc
  options fd type [] w = finish fd (sys.ioctl fd (ins_ioc type) w)
  options fd type (type_option optarg ∷ os) w =
      opened (λ new_fd v. options new_fd (c.strncpy type optarg buffsize) os v)
        (sys.open_file "/dev/pcm_test" w)
  options fd type (help_option ∷ os) w = (1, w)
  options fd type (unknown_option ∷ os) w = options fd type os w

  -- `fd` starts with what the variable holds, for it has no initialiser.
  pub main : ℕ → List Opt → W → ℕ × W
  unfolding options
  main fd = options fd (c.array_of buffsize "cpuid")
