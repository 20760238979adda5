-- ===== src/ClockTest/Tests.antt =====
-- pcm-unit/driver/kvmclock_test.c: `test_kvm_clock` on a machine of three processors.
use pcm_test.Base.{
  ℕ, ◌+◌, ◌*◌, ◌/◌, ◌≡◌, refl, ◌==◌, ◌%◌, if◌then◌else◌, [], update, ltb, true, Bool-cases, inl,
  inr, List, ◌<◌,
}
use pcm_test.Base.Int.{ℤ, pos}
use pcm_test.Base.Kernel.{Sys}
use pcm_test.CycleTest.Finish.Ends.{CanEnd, wait_can_end}
use pcm_test.CycleTest.{TestInfo}
use pcm_test.ClockTest.{Machine, Variables, test_kvm_clock}
use pcm_test.Base.{arith}
use pcm_test.PvClock.{Attempt, retry}
use pcm_test.CycleTest.{System, Clock, Steps, here, launch, Shared}
use pcm_test.CycleTest.OnPvClock.{PvState, kvm_clock_read, pv_clock}
use pcm_test.ClockTest.{loops}
use pcm_test.ClockTest.Host.{silent, IsUnstable, IsRaced}
use pcm_test.ClockTest.Stable.{Passes, test_kvm_clock-Passes}
use pcm_test.ClockTest.Registered.{IsMachine, test_kvm_clock-registered}

abbrev no_info : TestInfo
no_info = record { warps = 0; stalls = 0; worst = pos 0; last = 0; ncpus = 0; check = 0 }

-- A host whose samples alternate between 20 and 15, and declare no counter stable.
abbrev unsteady : ℕ → Attempt
unsteady k = record {
  version = 2;
  cycles = if k % 2 == 0 then 20 else 15;
  flags = 0;
  version_parity = 2;
  version_again = 2;
}

unsteady-IsUnstable : IsUnstable 1 unsteady
unfolding retry
unsteady-IsUnstable = record {
  undeclared = λ k. refl;
  accepted = λ k. refl;
  below_2_63 = λ k. ground arith;
}

abbrev clock : ℕ → Clock PvState
clock flags = pv_clock 1 flags unsteady

abbrev launched : (flags n check : ℕ) → TestInfo → PvState → System (clock flags) loops
launched flags n check info w =
    launch (clock flags) loops n check (record { clock = w; info = info; worst_warps = [] })

-- A race that ends: some interleaving of so many processors until `ncpus` is 0.
abbrev whole_race :
    (n check flags : ℕ) (info : TestInfo) (w : PvState)
    → CanEnd (clock flags) loops n (launched flags n check info w)
whole_race n check flags info w =
    wait_can_end (clock flags) loops n check (record { clock = w; info = info; worst_warps = [] })
      here

abbrev moved : ℕ → ℕ → ℕ → TestInfo → PvState → Shared PvState
moved n check flags info w = (whole_race n check flags info w).0.shared

-- Three processors, with what each has in its clock's register, and the clock.
record Host : Type 0 where
  cpu : ℕ
  clocks : ℕ → ℕ
  clock : PvState

-- A processor that is not online is not reached.
abbrev host : Machine Host
host = record {
  num_online_cpus = λ c. (3, c);
  enter = λ i c. (ltb i 3, if ltb i 3 then record c { cpu = i } else c);
  leave = λ c. (tt, record c { cpu = 0 });
  smp_id = λ c. (c.cpu, c);
  wrmsrl_safe =
      λ r v c. (0, if r == 0x4b56_4d01 then record c { clocks = update c.clocks c.cpu v } else c);
  rdtscll = λ c. (1000, c);
  read_wallclock = λ i flags c.
      let now = kvm_clock_read 1 flags unsteady c.clock in
      ((now.0 / 1_000_000_000, now.0 % 1_000_000_000), record c { clock = now.1 });
  read_clock = λ i flags c.
      let now = kvm_clock_read 1 flags unsteady c.clock in (now.0, record c { clock = now.1 });
  race = λ n check flags info c.
      let s = moved n check flags info c.clock in
      ((s.info, s.worst_warps), record c { clock = s.clock });
  hv_clock = λ i. 0xffff_8800_0000_0000 + 32 * i;
  wall_clock = 0xffff_8800_0000_1000;
  msr_kvm_wall_clock_new = 0x4b56_4d00;
  msr_kvm_system_time_new = 0x4b56_4d01;
  pvclock_tsc_stable_bit = 1;
}

enter-reaches : (i : ℕ) (c : Host) → i < 3 → (host.enter i c).0 ≡ true
enter-reaches i c h = ground arith

enter-running : (i : ℕ) (c : Host) → (host.enter i c).0 ≡ true → (host.enter i c).1.cpu ≡ i
enter-running i c e = rw e refl

enter-clocks : (i : ℕ) (c : Host) → (host.enter i c).1.clocks ≡ c.clocks
enter-clocks i c = elim (Bool-cases (ltb i 3)) [ inl e ↦ rw e refl | inr e ↦ rw e refl ]

enter-clock : (i : ℕ) (c : Host) → (host.enter i c).1.clock ≡ c.clock
enter-clock i c = elim (Bool-cases (ltb i 3)) [ inl e ↦ rw e refl | inr e ↦ rw e refl ]

written-clock : (r v : ℕ) (c : Host) → (host.wrmsrl_safe r v c).1.clock ≡ c.clock
written-clock r v c = elim (Bool-cases (r == 0x4b56_4d01)) [ inl e ↦ rw e refl | inr e ↦ rw e refl ]

abbrev host_laws : IsMachine host
host_laws = record {
  running = λ c. c.cpu;
  registered = λ c. c.clocks;
  registered-keeps = record {
    enter-keeps = enter-clocks;
    leave-keeps = λ c. refl;
    smp_id-keeps = λ c. refl;
    wall_clock-keeps = λ v c. refl;
    num_online_cpus-keeps = λ c. refl;
    rdtscll-keeps = λ c. refl;
    read_wallclock-keeps = λ i flags c. refl;
    read_clock-keeps = λ i flags c. refl;
    race-keeps = λ n check flags info c. refl;
  };
  online = 3;
  num_online_cpus-online = λ c. refl;
  enter-reaches = enter-reaches;
  enter-running = enter-running;
  smp_id-running = λ c. refl;
  written = λ v c. refl;
}

-- The module as it is loaded. Processor 2 has a clock registered before the test, and so has
-- processor 5, which is not online.
abbrev loaded : Sys (Variables Host)
loaded = record {
  world = record {
    outer = record {
      cpu = 0;
      clocks = update (update (λ i. 0) 2 77) 5 99;
      clock = record { last_value = 0; taken = 0 };
    };
    sec = 0;
    valid_flags = 0;
    ti = λ k. no_info;
    nerr = 0;
  };
  log = [];
}

test_kvm_clock-registered_example : (test_kvm_clock host loaded).1.world.outer.clocks 2 ≡ 0
test_kvm_clock-registered_example = test_kvm_clock-registered host host_laws loaded 2

race-reached :
    (n check flags : ℕ) (info : TestInfo) (w : PvState)
    → (s : System (clock flags) loops) × Steps
        (clock flags)
        loops
        n
        (launched flags n check info w)
        s
      × (◌≡◌ {A = TestInfo × List ℤ}
          ((moved n check flags info w).info, (moved n check flags info w).worst_warps)
          (s.shared.info, s.shared.worst_warps))
      × ((moved n check flags info w).clock ≡ s.shared.clock)
race-reached n check flags info w =
    let race = whole_race n check flags info w in (race.0, race.1, refl, refl)

abbrev unsteady_laws : IsRaced host unsteady
unsteady_laws = record {
  pv = λ c. c.clock;
  num_online_cpus-pv = λ c. refl;
  enter-pv = enter-clock;
  leave-pv = λ c. refl;
  smp_id-pv = λ c. refl;
  wrmsrl_safe-pv = written-clock;
  rdtscll-pv = λ c. refl;
  read_wallclock-pv = λ i flags c. refl;
  read_clock-pv = λ i flags c. refl;
  race-reached = λ n check flags info c. race-reached n check flags info c.clock;
}

loaded-Passes : Passes host unsteady unsteady_laws unsteady-IsUnstable loaded
unfolding silent
loaded-Passes = record {
  no_warps = λ k. refl;
  not_ahead = λ k. omega arith;
  below_2_63 = omega arith;
  silence = refl;
}

test_kvm_clock-Passes_example :
    Passes host unsteady unsteady_laws unsteady-IsUnstable (test_kvm_clock host loaded).1
test_kvm_clock-Passes_example =
    test_kvm_clock-Passes host unsteady unsteady_laws unsteady-IsUnstable loaded loaded-Passes
