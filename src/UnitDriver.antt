-- ===== src/UnitDriver.antt =====
-- pcm-unit/driver: the driver with all its tests. They share one machine, the variables of
-- kvmclock_test.c and those of ioapic.c. A test whose loop still waits when its patience is over stops
-- the model's run there: nothing after it changes anything.
pub mod InService
pub mod Stops
mod Tests
use pcm_test.Base.{ℕ, Bool, true, false, Option, none, some, if◌then◌else◌}
use pcm_test.Base.Kernel.{Sys, M, pure}
use pcm_test.Ioctl.{Cpu}
use pcm_test.Ioctl.Abi.{IoctlAbi}
use pcm_test.Ioctl.{Status}
use pcm_test.Ioctl.UnitTests
use pcm_test.CycleTest.{TestInfo}
use pcm_test.TimeStamp
use pcm_test.TimeStamp.{Counter}
use pcm_test.SetJmp
use pcm_test.MsrTest
use pcm_test.MsrTest.{MsrPort}
use pcm_test.ClockTest
use pcm_test.ClockTest.{Variables}
use pcm_test.Ioapic.Rig.{Board, Globals, IdtEntry, Isr, Rig}
use pcm_test.Ioapic.Interrupts.{Addresses}
use pcm_test.Ioapic.Suite
use pcm_test.Ioapic.Suite.{Ending, ended, waiting}

-- The machine as each file of the driver uses it, with how often the interrupt tests' processor may
-- take an interrupt, how long their loops wait, and when the second processor starts.
pub record Hardware (C : Type 0) : Type 0 where
  pub cpu : Cpu C
  pub counter : Counter C
  pub msr : MsrPort C
  pub clocks : ClockTest.Machine C
  pub board : Board C
  pub addresses : Addresses
  pub burst : ℕ
  pub patience : ℕ
  pub starts : ℕ → Option ℕ

-- The machine, the variables of the files, and whether the run has stopped.
pub record Driver (C : Type 0) : Type 0 where
  pub outer : C
  pub sec : ℕ
  pub valid_flags : ℕ
  pub ti : ℕ → TestInfo
  pub globals : Globals
  pub stopped : Bool

abbrev pub is_waiting : Ending → Bool
is_waiting ended = false
is_waiting waiting = true

abbrev is_none : Option (Unit {0}) → Bool
is_none none = true
is_none (some u) = false

module _ {C : Type 0} where
  pub unless_stopped : M (Driver C) (Unit {0}) → M (Driver C) (Unit {0})
  unless_stopped m s = (if s.world.stopped then pure tt else m) s

  pub on_machine : M C (Unit {0}) → M (Driver C) (Unit {0})
  on_machine m s =
      let r = (m (record { world = s.world.outer; log = s.log })).1 in
      (tt, record { world = record s.world { outer = r.world }; log = r.log })

  -- `nerr` is a local variable of the test, which sets it first.
  pub on_clocks : M (Variables C) (Unit {0}) → M (Driver C) (Unit {0})
  on_clocks m s =
      let r =
        (m (record {
          world = record {
            outer = s.world.outer;
            sec = s.world.sec;
            valid_flags = s.world.valid_flags;
            ti = s.world.ti;
            nerr = 0;
          };
          log = s.log;
        })).1 in
      (
        tt,
        record {
          world = record s.world {
            outer = r.world.outer;
            sec = r.world.sec;
            valid_flags = r.world.valid_flags;
            ti = r.world.ti;
          };
          log = r.log;
        },
      )

  pub on_rig : (Rig C → Ending × Rig C) → M (Driver C) (Unit {0})
  on_rig m s =
      let r = m (record { world = s.world.outer; log = s.log; globals = s.world.globals }) in
      (
        tt,
        record {
          world = record s.world {
            outer = r.1.world;
            globals = r.1.globals;
            stopped = is_waiting r.0;
          };
          log = r.1.log;
        },
      )

  pub on_jumps : M (Driver C) (Option (Unit {0})) → M (Driver C) (Unit {0})
  on_jumps m s =
      let r = m s in (tt, record r.1 { world = record r.1.world { stopped = is_none r.0 } })

-- Nine jumps are what the loop of setjmp.c makes; `i` is what its variable holds.
module _ {C : Type 0} (h : Hardware C) (i : ℕ) where
  pub tests : UnitTests.Tests (Driver C)
  tests = record {
    test_tsc = unless_stopped (on_machine (TimeStamp.test_tsc h.counter));
    test_setjmp = unless_stopped (on_jumps (SetJmp.test_setjmp 9 i));
    test_msr = unless_stopped (on_machine (MsrTest.test_msr h.msr));
    test_kvm_clock = unless_stopped (on_clocks (ClockTest.test_kvm_clock h.clocks));
    test_ioapic =
        unless_stopped (on_rig (Suite.test_ioapic h.board h.addresses h.burst h.patience h.starts));
    test_tsc_adjust = unless_stopped (on_machine (TimeStamp.test_tsc_adjust h.counter));
  }

  abbrev change : (C → C) → Driver C → Driver C
  change f d = record d { outer = if d.stopped then d.outer else f d.outer }

  pub driver_cpu : Cpu (Driver C)
  driver_cpu = record {
    local_irq_disable = change h.cpu.local_irq_disable;
    local_irq_enable = change h.cpu.local_irq_enable;
    vmcall = λ nr. change (h.cpu.vmcall nr);
    access_ok = λ write arg size d. h.cpu.access_ok write arg size d.outer;
  }

  -- The driver's handler; `success` is no result where the run has stopped.
  pub pcm_cdev_ioctl : IoctlAbi → ℕ → ℕ → M (Driver C) Status
  pcm_cdev_ioctl abi = UnitTests.pcm_cdev_ioctl abi tests driver_cpu
