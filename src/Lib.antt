-- ===== src/Lib.antt =====
-- A verification library for pcm_test: drivers and programs that test a hypervisor.
--
-- Modules and the code they are about:
--
--   Ioctl       the ioctl handler of pcm-unit/driver/pcm_test_mod.c and focus_test/driver/pcm_test_mod.c.
--               `handle` is what the two have in common; Ioctl/UnitTests and Ioctl/FocusTests have the
--               two switches. The tests themselves, the processor and the kernel's encoding of commands
--               are records of operations, with the documented laws beside them (Ioctl/Abi, Ioctl/Gate).
--   Ioapic      pcm-unit/driver/ioapic.c: redirection entries and their words (Ioapic/Entry), register
--               access, set_ioapic_redir, set_mask and the register tests (Ioapic/Registers). The
--               controller is a port with three operations; Ioapic/Registers/Laws states its data sheet.
--               Ioapic/Rig is the machine and the variables of the interrupt tests, Ioapic/Handlers the
--               handlers, their thunks and the table they are for, Ioapic/Interrupts and Ioapic/Suite the tests and test_ioapic,
--               Ioapic/LocalApic the two ways to the local controller.
--   PvClock     pcm-unit/driver/kvmclock_test.c: pvclock_clocksource_read. `move` makes one access to
--               last_value; PvClock/System interleaves any number of processors, and PvClock/SharedClock
--               is what they promise together. PvClock/WallClock is pvclock_read_wallclock, a load at a
--               time against the host's updates.
--   CycleTest   the same file: kvm_clock_test and cycle_test on a clock that is an interface, which
--               CycleTest/OnPvClock fills with kvm_clock_read.
--   TestModule  test_module: loading and unloading the module (TestModule/Init), its tests of single
--               instructions (TestModule/Insns), and the register sequences of test_pt.c and test_mpx.c
--               (TestModule/Pt, TestModule/Mpx). The instructions are a record of operations that may
--               fault, which ends the run; the calls of the heap and of the registers are records too.
--   InsTests    the tests of focus_test/driver, cpuid.c to icmp.c, which fill the interface of
--               Ioctl/FocusTests (InsTests.tests); InsTests/OnDriver has them run by its handler.
--   Chardev     loading and unloading the driver of pcm-unit/driver/pcm_test_mod.c, whose functions
--               focus_test/driver/pcm_test_mod.c has too (Chardev/FocusDriver); Chardev/Held counts what
--               the kernel lends, and Chardev/Life is the module's life, with its open files.
--   ClockTest   kvmclock_test.c again: test_kvm_clock and its tests on every processor, with the clocks and
--               the race of kvm_clock_test as operations, which ClockTest/Host fills with PvClock and
--               CycleTest.
--   TimeStamp   pcm-unit/driver/tsc.c and tsc_adjust.c; the counter's manual is in TimeStamp/Adjust and
--               TimeStamp/Written.
--   UnitDriver  pcm-unit/driver as a whole: the handler with the six tests on one machine, with the
--               variables of their files.
--   UnitApp     pcm-unit/app/pcmtest.c; UnitApp/OnDriver joins it to the driver's handler and to tsc.c.
--   SetJmp      pcm-unit/driver/setjmp64.S, an instruction at a time, and the loop of setjmp.c.
--   GuestApp    focus_test/guestapp/pcmtest.c; GuestApp/OnDriver joins it to the driver's handler.
--   MsrTest     pcm-unit/driver/msr.c: the table of registers, its search, and the tests.
--   CommandLine the options and the array of characters that pcmtest.c and ckevent.c share.
--   HostApp     focus_test/hostapp: packed structures (HostApp/Layout), reading and printing them
--               (HostApp/Print), ckcpu.c (HostApp/CpuStates) and ckevent.c (HostApp/Events).
--   Base        shared names, Boolean tests, lists, bits, signed words, families, and the kernel log.
--
-- Conventions. Machine words are natural numbers, with their wrap-around written out. State is passed
-- explicitly, and concurrent code is a step relation whose steps are the accesses to shared memory.
-- Code that is not in the repository (kernel, processor, devices, host) is a parameter; modules of
-- tests show that the laws of the results below can be met.
-- The retry loop of the clock runs over the attempts that the
-- host answers; the rest of a call runs on a count of moves, and six are enough. The version of the wall
-- clock is a count of changes modulo 2^32. The interrupt tests' processor takes interrupts between calls,
-- up to `burst` at a time; a loop that waits has a `patience`, and both are arbitrary in the theorems.
-- The processor's own table decides what an interrupt runs: boot_idt, which the tests fill, is address 0.
--
-- Not modelled: timing, setjmp32.S, udp.c of focus_test/driver, which is not built, and focus_mpx.c of
-- test_module.
pub mod Base
pub mod Ioctl
pub mod Ioapic
pub mod PvClock
pub mod CycleTest
pub mod TestModule
pub mod CommandLine
pub mod HostApp
pub mod InsTests
pub mod Chardev
pub mod ClockTest
pub mod TimeStamp
pub mod SetJmp
pub mod GuestApp
pub mod UnitApp
pub mod UnitDriver
pub mod MsrTest
