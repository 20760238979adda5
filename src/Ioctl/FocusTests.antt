-- ===== src/Ioctl/FocusTests.antt =====
-- focus_test/driver/pcm_test_mod.c and pcm_test_ioctl.h: the `switch` of the instruction tests.
use pcm_test.Base.{
  ℕ, zero, suc, ◌<◌, ◌≡◌, arith, List, [], ◌∷◌, ◌==◌, if◌then◌else◌, leb, zero-bit_and,
}
use pcm_test.Base.Kernel.{Sys, M, pure, ◌>>◌}
use pcm_test.Ioctl.Abi.{IoctlAbi, IsIoctlAbi, io_eq}
use pcm_test.Ioctl.{Cpu, Status, success, einval, magic, handle}
use pcm_test.Ioctl.Gate.{entered, opened, closed}

-- The tests of the other files of the driver.
pub record Tests (W : Type 0) : Type 0 where
  pub cpuid_test : M W (Unit {0})
  pub invd_test : M W (Unit {0})
  pub rdseed_test : M W (Unit {0})
  pub rdrand_test : M W (Unit {0})
  pub rdpmc_test : M W (Unit {0})
  pub rdtsc_test : M W (Unit {0})
  pub rdtscp_test : M W (Unit {0})
  pub pio_test : M W (Unit {0})
  pub mmio_test : M W (Unit {0})
  pub icmp_test : M W (Unit {0})

-- `PCM_TEST_IOC_MAXNR`
abbrev pub max_nr : ℕ
max_nr = 10

-- The tests as data, in the order of the command numbers from 1 on.
pub data Test : Type 0 where
  cpuid invd rdseed rdrand rdpmc rdtsc rdtscp pio mmio icmp : Test

-- The test that a command number names.
abbrev pub plan : ℕ → List Test
plan (suc zero) = cpuid ∷ []
plan (suc (suc zero)) = invd ∷ []
plan (suc (suc (suc zero))) = rdseed ∷ []
plan (suc (suc (suc (suc zero)))) = rdrand ∷ []
plan (suc (suc (suc (suc (suc zero))))) = rdpmc ∷ []
plan (suc (suc (suc (suc (suc (suc zero)))))) = rdtsc ∷ []
plan (suc (suc (suc (suc (suc (suc (suc zero))))))) = rdtscp ∷ []
plan (suc (suc (suc (suc (suc (suc (suc (suc zero)))))))) = pio ∷ []
plan (suc (suc (suc (suc (suc (suc (suc (suc (suc zero))))))))) = mmio ∷ []
plan (suc (suc (suc (suc (suc (suc (suc (suc (suc (suc zero)))))))))) = icmp ∷ []
plan _ = []

module _ {W : Type 0} (abi : IoctlAbi) (t : Tests W) where
  -- `switch (cmd)`
  unfoldable pub dispatch : ℕ → M W (Unit {0})
  dispatch cmd =
      if cmd == abi.io magic 1
      then t.cpuid_test
      else if cmd == abi.io magic 5
      then t.rdpmc_test
      else if cmd == abi.io magic 4
      then t.rdrand_test
      else if cmd == abi.io magic 3
      then t.rdseed_test
      else if cmd == abi.io magic 2
      then t.invd_test
      else if cmd == abi.io magic 6
      then t.rdtsc_test
      else if cmd == abi.io magic 7
      then t.rdtscp_test
      else if cmd == abi.io magic 8
      then t.pio_test
      else if cmd == abi.io magic 9
      then t.mmio_test
      else if cmd == abi.io magic 10
      then t.icmp_test
      else pure tt

  unfoldable pub pcm_cdev_ioctl : Cpu W → ℕ → ℕ → M W Status
  pcm_cdev_ioctl cpu = handle abi cpu max_nr dispatch

  abbrev pub perform : Test → M W (Unit {0})
  perform cpuid = t.cpuid_test
  perform invd = t.invd_test
  perform rdseed = t.rdseed_test
  perform rdrand = t.rdrand_test
  perform rdpmc = t.rdpmc_test
  perform rdtsc = t.rdtsc_test
  perform rdtscp = t.rdtscp_test
  perform pio = t.pio_test
  perform mmio = t.mmio_test
  perform icmp = t.icmp_test

  unfoldable pub perform_all : List Test → M W (Unit {0})
  perform_all [] = pure tt
  perform_all (x ∷ xs) = do perform x; perform_all xs

  dispatch-plan :
      (n : ℕ) (s : Sys W)
      → IsIoctlAbi abi
      → n < 256
      → (dispatch (abi.io magic n) s).1 ≡ (perform_all (plan n) s).1
  unfolding dispatch perform_all
  dispatch-plan n s h small = ground (
    arith,
    io_eq abi magic n 1 h (omega arith) small (omega arith),
    io_eq abi magic n 2 h (omega arith) small (omega arith),
    io_eq abi magic n 3 h (omega arith) small (omega arith),
    io_eq abi magic n 4 h (omega arith) small (omega arith),
    io_eq abi magic n 5 h (omega arith) small (omega arith),
    io_eq abi magic n 6 h (omega arith) small (omega arith),
    io_eq abi magic n 7 h (omega arith) small (omega arith),
    io_eq abi magic n 8 h (omega arith) small (omega arith),
    io_eq abi magic n 9 h (omega arith) small (omega arith),
    io_eq abi magic n 10 h (omega arith) small (omega arith),
  )

  module _ (cpu : Cpu W) where
    -- A command that `_IO` makes of the driver's type and a number up to 10 succeeds: with interrupts
    -- off and after hypercall 102 it runs the one test of that number (none for 0), and then
    -- hypercall 103. Numbers from 11 on are refused with -EINVAL, and nothing runs.
    pub focus_command_lem :
        (n arg : ℕ) (s : Sys W)
        → IsIoctlAbi abi
        → n < 256
        → pcm_cdev_ioctl cpu (abi.io magic n) arg s ≡ (
            if leb n 10
            then (success, closed cpu (perform_all (plan n) (opened cpu s)).1)
            else (einval, entered s))
    unfolding pcm_cdev_ioctl handle
    focus_command_lem n arg s h small = ground (
      arith,
      h.type_of-io magic n (omega arith) small,
      h.nr_of-io magic n (omega arith) small,
      h.dir_of-io magic n (omega arith) small,
      dispatch-plan n (opened cpu s) h small,
      zero-bit_and abi.dir_read,
      zero-bit_and abi.dir_write,
    )
