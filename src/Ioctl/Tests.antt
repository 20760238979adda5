-- ===== src/Ioctl/Tests.antt =====
-- The drivers' handlers at concrete commands, with the encoding of asm-generic/ioctl.h.
use pcm_test.Base.{ℕ, ◌+◌, ◌*◌, ◌/◌, ◌%◌, ◌^◌, ◌≡◌, refl, Bool, true, false, List, [], ◌∷◌, arith}
use pcm_test.Base.Kernel.{Sys, M}
use pcm_test.Ioctl.Abi.{IoctlAbi, IsIoctlAbi}
use pcm_test.Ioctl.{Cpu, success, handle}
use pcm_test.Ioctl.Gate.{entered, refused_unchanged, success_enables_irqs}
use pcm_test.Ioctl.UnitTests
use pcm_test.Ioctl.UnitTests.{io_command_lem, directed_command_lem}
use pcm_test.Ioctl.FocusTests
use pcm_test.Ioctl.FocusTests.{focus_command_lem}

abbrev pub generic_abi : IoctlAbi
generic_abi = record {
  io = λ t n. t * 2 ^ 8 + n;
  type_of = λ c. c / 2 ^ 8 % 2 ^ 8;
  nr_of = λ c. c % 2 ^ 8;
  dir_of = λ c. c / 2 ^ 30;
  size_of = λ c. c / 2 ^ 16 % 2 ^ 14;
  dir_read = 2;
  dir_write = 1;
}

pub generic_abi-IsIoctlAbi : IsIoctlAbi generic_abi
generic_abi-IsIoctlAbi = record {
  type_of-io = λ t n h k. omega arith;
  nr_of-io = λ t n h k. omega arith;
  dir_of-io = λ t n h k. omega arith;
}

-- What a processor did, last first.
pub data Event : Type 0 where
  irq_off irq_on : Event
  call : ℕ → Event
  test : ℕ → Event

pub record Machine : Type 0 where
  pub irqs_on : Bool
  pub events : List Event

abbrev irqs_on_in : Machine → Bool
irqs_on_in w = w.irqs_on

abbrev pub machine_cpu : Cpu Machine
machine_cpu = record {
  local_irq_disable = λ w. record { irqs_on = false; events = irq_off ∷ w.events };
  local_irq_enable = λ w. record { irqs_on = true; events = irq_on ∷ w.events };
  vmcall = λ nr w. record w { events = call nr ∷ w.events };
  access_ok = λ write arg size w. false;
}

abbrev mark : ℕ → M Machine (Unit {0})
mark n s = (tt, record s { world = record s.world { events = test n ∷ s.world.events } })

abbrev pub booted : Sys Machine
booted = record { world = record { irqs_on = true; events = [] }; log = [] }

abbrev unit_tests : UnitTests.Tests Machine
unit_tests = record {
  test_tsc = mark 1;
  test_setjmp = mark 2;
  test_msr = mark 3;
  test_kvm_clock = mark 4;
  test_ioapic = mark 5;
  test_tsc_adjust = mark 6;
}

abbrev pub focus_tests : FocusTests.Tests Machine
focus_tests = record {
  cpuid_test = mark 1;
  invd_test = mark 2;
  rdseed_test = mark 3;
  rdrand_test = mark 4;
  rdpmc_test = mark 5;
  rdtsc_test = mark 6;
  rdtscp_test = mark 7;
  pio_test = mark 8;
  mmio_test = mark 9;
  icmp_test = mark 10;
}

-- KVMCLOCK_TEST runs three tests.
abbrev after_kvmclock : Sys Machine
after_kvmclock = record (entered booted) {
  world = record {
    irqs_on = true;
    events = irq_on ∷ call 103 ∷ test 6 ∷ test 5 ∷ test 4 ∷ call 102 ∷ irq_off ∷ [];
  };
}

io_command_lem_example :
    UnitTests.pcm_cdev_ioctl generic_abi unit_tests machine_cpu (generic_abi.io b'k' 4) 0 booted
    ≡ (success, after_kvmclock)
unfolding UnitTests.perform_all
io_command_lem_example =
    io_command_lem generic_abi unit_tests machine_cpu 4 0 booted generic_abi-IsIoctlAbi
      (omega arith)

-- RDRAND is number 4 there.
abbrev after_rdrand : Sys Machine
after_rdrand = record (entered booted) {
  world = record { irqs_on = true; events = irq_on ∷ call 103 ∷ test 4 ∷ call 102 ∷ irq_off ∷ [] };
}

focus_command_lem_example :
    FocusTests.pcm_cdev_ioctl generic_abi focus_tests machine_cpu (generic_abi.io b'k' 4) 0 booted
    ≡ (success, after_rdrand)
unfolding FocusTests.perform_all
focus_command_lem_example =
    focus_command_lem generic_abi focus_tests machine_cpu 4 0 booted generic_abi-IsIoctlAbi
      (omega arith)

-- `_IOR('k', 1, int)` with a pointer that may not be written.
abbrev read_command : ℕ
read_command = 2 * 2 ^ 30 + 4 * 2 ^ 16 + b'k' * 2 ^ 8 + 1

refused_unchanged_example :
    (handle generic_abi machine_cpu 6 (λ cmd. mark cmd) read_command 0 booted).1 ≡ entered booted
unfolding handle
refused_unchanged_example =
    refused_unchanged generic_abi machine_cpu 6 (λ cmd. mark cmd) read_command 0 booted (λ e. cc)

success_enables_irqs_example :
    irqs_on_in
      (handle generic_abi machine_cpu 6 (λ cmd. mark cmd) (generic_abi.io b'k' 1) 0 booted).1.world
    ≡ true
unfolding handle
success_enables_irqs_example =
    success_enables_irqs generic_abi machine_cpu 6 (λ cmd. mark cmd) irqs_on_in
      (generic_abi.io b'k' 1) 0 booted
      (record { irqs_on-disable = λ w. refl; irqs_on-enable = λ w. refl }) refl
