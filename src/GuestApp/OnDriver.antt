-- ===== src/GuestApp/OnDriver.antt =====
-- focus_test/guestapp/pcmtest.c on the driver of focus_test/driver/pcm_test_mod.c: which test runs for
-- the name of a test.
use pcm_test.Base.{
  ℕ, ◌-◌, ◌^◌, ◌<◌, ◌≡◌, refl, String, [], ◌∷◌, some, if◌then◌else◌, same_text, arith,
}
use Prim.Native.String.{len}
use pcm_test.Base.Kernel.{Sys}
use pcm_test.CommandLine.{type_option, CString, buffsize}
use pcm_test.CommandLine.Laws.{IsCString}
use pcm_test.Ioctl.{Cpu, Status, success, magic}
use pcm_test.Ioctl.Abi.{IoctlAbi, IsIoctlAbi}
use pcm_test.Ioctl.Gate.{opened, closed}
use pcm_test.Ioctl.FocusTests.{
  Tests, Test, cpuid, invd, rdseed, rdrand, rdpmc, rdtsc, rdtscp, pio, mmio, icmp, perform,
  perform_all, pcm_cdev_ioctl, focus_command_lem,
}
use pcm_test.GuestApp.{SystemCalls, ins_ioc, options, main}

-- The name of a test on the command line.
abbrev pub name_of : Test → String
name_of cpuid = "cpuid"
name_of invd = "invd"
name_of rdseed = "rdseed"
name_of rdrand = "rdrand"
name_of rdpmc = "rdpmc"
name_of rdtsc = "rdtsc"
name_of rdtscp = "rdtscp"
name_of pio = "pio"
name_of mmio = "mmio"
name_of icmp = "icmp"

-- The test that runs for a name: the program knows no "invd", and keeps to its default.
abbrev pub test_for : Test → Test
test_for invd = cpuid
test_for t = t

-- The numbers of the commands.
abbrev number_of : Test → ℕ
number_of cpuid = 1
number_of invd = 2
number_of rdseed = 3
number_of rdrand = 4
number_of rdpmc = 5
number_of rdtsc = 6
number_of rdtscp = 7
number_of pio = 8
number_of mmio = 9
number_of icmp = 10

-- What `ioctl` returns for the handler's status.
abbrev pub returned_status : Status → ℕ
returned_status success = 0
returned_status _ = 2 ^ 32 - 1

-- The kernel opens the device for the program, and passes its commands to the driver's handler. `arg`
-- stands for the third argument, which the program does not give.
pub record Routes {W : Type 0} (sys : SystemCalls (Sys W)) (fd : ℕ) (ready : Sys W → Sys W)
    (handler : ℕ → Sys W → Status × Sys W) : Type 0 where
  pub open_file-device : (s : Sys W) → sys.open_file "/dev/pcm_test" s ≡ (some fd, ready s)
  pub ioctl-handler :
      (cmd : ℕ) (s : Sys W)
      → sys.ioctl fd cmd s ≡ (returned_status (handler cmd s).0, (handler cmd s).1)

module _ {W : Type 0} (abi : IoctlAbi) (t : Tests W) (cpu : Cpu W) (sys : SystemCalls (Sys W))
    (c : CString) (k : IsCString c) where
  -- The command for a text.
  abbrev command_of : String → ℕ
  command_of u =
      if same_text u "cpuid"
      then abi.io magic 1
      else if same_text u "rdpmc"
      then abi.io magic 5
      else if same_text u "rdrand"
      then abi.io magic 4
      else if same_text u "rdseed"
      then abi.io magic 3
      else if same_text u "rdtsc"
      then abi.io magic 6
      else if same_text u "rdtscp"
      then abi.io magic 7
      else if same_text u "pio"
      then abi.io magic 8
      else if same_text u "mmio"
      then abi.io magic 9
      else if same_text u "icmp"
      then abi.io magic 10
      else abi.io magic 1

  command_of-name : (x : Test) → command_of (name_of x) ≡ abi.io magic (number_of (test_for x))
  command_of-name cpuid = refl
  command_of-name invd = refl
  command_of-name rdseed = refl
  command_of-name rdrand = refl
  command_of-name rdpmc = refl
  command_of-name rdtsc = refl
  command_of-name rdtscp = refl
  command_of-name pio = refl
  command_of-name mmio = refl
  command_of-name icmp = refl

  ins_ioc-text :
      (b : c.Buffer) (u : String) → k.text b ≡ some u → ins_ioc abi sys c b ≡ command_of u
  unfolding ins_ioc
  ins_ioc-text b u holds =
      rw
        (
          k.strcmp-text b u "cpuid" holds,
          k.strcmp-text b u "rdpmc" holds,
          k.strcmp-text b u "rdrand" holds,
          k.strcmp-text b u "rdseed" holds,
          k.strcmp-text b u "rdtsc" holds,
          k.strcmp-text b u "rdtscp" holds,
          k.strcmp-text b u "pio" holds,
          k.strcmp-text b u "mmio" holds,
          k.strcmp-text b u "icmp" holds,
        )
        refl

  short_name : (x : Test) → len (name_of x) < buffsize
  short_name cpuid = omega arith
  short_name invd = omega arith
  short_name rdseed = omega arith
  short_name rdrand = omega arith
  short_name rdpmc = omega arith
  short_name rdtsc = omega arith
  short_name rdtscp = omega arith
  short_name pio = omega arith
  short_name mmio = omega arith
  short_name icmp = omega arith

  runs :
      (arg : ℕ) (x : Test) (s : Sys W)
      → IsIoctlAbi abi
      → pcm_cdev_ioctl abi t cpu (abi.io magic (number_of (test_for x))) arg s
        ≡ (success, closed cpu (perform abi t (test_for x) (opened cpu s)).1)
  unfolding perform_all
  runs arg cpuid s h = focus_command_lem abi t cpu 1 arg s h (omega arith)
  runs arg invd s h = focus_command_lem abi t cpu 1 arg s h (omega arith)
  runs arg rdseed s h = focus_command_lem abi t cpu 3 arg s h (omega arith)
  runs arg rdrand s h = focus_command_lem abi t cpu 4 arg s h (omega arith)
  runs arg rdpmc s h = focus_command_lem abi t cpu 5 arg s h (omega arith)
  runs arg rdtsc s h = focus_command_lem abi t cpu 6 arg s h (omega arith)
  runs arg rdtscp s h = focus_command_lem abi t cpu 7 arg s h (omega arith)
  runs arg pio s h = focus_command_lem abi t cpu 8 arg s h (omega arith)
  runs arg mmio s h = focus_command_lem abi t cpu 9 arg s h (omega arith)
  runs arg icmp s h = focus_command_lem abi t cpu 10 arg s h (omega arith)

  -- With -t and the name of a test of the driver the program returns 0 and closes the device, after
  -- the driver has run that test, as the only one, between its two hypercalls with interrupts off; but
  -- for "invd" the test that runs is cpuid's. `fd0` is what the descriptor holds before it is set.
  pub main-name :
      (fd0 fd arg : ℕ) (x : Test) (ready : Sys W → Sys W) (s : Sys W)
      → IsIoctlAbi abi
      → Routes sys fd ready (λ cmd. pcm_cdev_ioctl abi t cpu cmd arg)
      → main abi sys c fd0 (type_option (name_of x) ∷ []) s
        ≡ (0, sys.close fd (closed cpu (perform abi t (test_for x) (opened cpu (ready s))).1))
  unfolding main options
  main-name fd0 fd arg x ready s h routes =
      rw
        (
          routes.open_file-device s,
          ins_ioc-text (c.strncpy (c.array_of buffsize "cpuid") (name_of x) buffsize) (name_of x)
              (k.strncpy-text (c.array_of buffsize "cpuid") (name_of x) buffsize (short_name x)),
          command_of-name x,
          routes.ioctl-handler (abi.io magic (number_of (test_for x))) (ready s),
          runs arg x (ready s) h,
        )
        refl
