-- ===== src/ClockTest.antt =====
-- pcm-unit/driver/kvmclock_test.c: `test_kvm_clock` and the tests that it runs on every processor. The
-- two clocks (PvClock) and the race of kvm_clock_test (CycleTest) are operations here.
pub mod Keeps
pub mod Registered
pub mod Host
mod Calm
pub mod Stable
mod Tests
use pcm_test.Base.{
  ℕ, zero, suc, ◌+◌, ◌-◌, ◌%◌, ◌^◌, Bool, ◌||◌, List, [], ◌∷◌, ltb, ◌==◌, not, bit_or,
  if◌then◌else◌, update,
}
use pcm_test.Base.Int.{ℤ, pos, negsuc, signed64, ltb_ℤ}
use pcm_test.Base.Kernel.{M, pure, ◌>>=◌, ◌>>◌, printk, outside}
use pcm_test.CycleTest.{TestInfo, cycle_result}

-- `enter i` and `leave` stand around what smp_call_function_single has processor i do while the caller
-- waits; it may fail to reach it, and `enter` then gives false. `smp_id` is the number of the processor
-- that runs. `read_wallclock` and `read_clock` are
-- pvclock_read_wallclock and pvclock_clocksource_read for the structure of a processor and the flags
-- that the module declares; `race` runs kvm_clock_test on so many processors, with `check`, until
-- `ncpus` is zero, and also gives the worst warps that it logs, in their order. Addresses are numbers.
pub record Machine (C : Type 0) : Type 0 where
  pub num_online_cpus : C → ℕ × C
  pub enter : ℕ → C → Bool × C
  pub leave : C → Unit {0} × C
  pub smp_id : C → ℕ × C
  pub wrmsrl_safe : ℕ → ℕ → C → ℕ × C
  pub rdtscll : C → ℕ × C
  pub read_wallclock : ℕ → ℕ → C → (ℕ × ℕ) × C
  pub read_clock : ℕ → ℕ → C → ℕ × C
  pub race : ℕ → ℕ → ℕ → TestInfo → C → (TestInfo × List ℤ) × C
  pub hv_clock : ℕ → ℕ
  pub wall_clock : ℕ
  pub msr_kvm_wall_clock_new : ℕ
  pub msr_kvm_system_time_new : ℕ
  pub pvclock_tsc_stable_bit : ℕ

-- What is outside, the variables `sec`, `valid_flags` and `ti`, and the local `nerr`.
pub record Variables (C : Type 0) : Type 0 where
  pub outer : C
  pub sec : ℕ
  pub valid_flags : ℕ
  pub ti : ℕ → TestInfo
  pub nerr : ℕ

-- `MAX_CPU`, `DEFAULT_TEST_LOOPS` and `DEFAULT_THRESHOLD`; nothing changes the last two.
abbrev pub max_cpu : ℕ
max_cpu = 64

abbrev pub loops : ℕ
loops = 100_000_000

abbrev pub threshold : ℕ
threshold = 5

abbrev pub raw_bit : ℕ
raw_bit = 2 ^ 7

-- `offset > threshold || offset < -threshold`
abbrev pub too_large : ℤ → Bool
too_large offset = ltb_ℤ (pos threshold) offset || ltb_ℤ offset (negsuc (threshold - 1))

-- `ncpus`, which is positive.
abbrev pub tested : ℕ → ℕ
tested online = if ltb max_cpu online then max_cpu else online

module _ {C : Type 0} (x : Machine C) where
  abbrev pub call : {A : Type 0} → (C → A × C) → M (Variables C) A
  call f = outside (λ d. ((f d.outer).0, record d { outer = (f d.outer).1 }))

  abbrev modify : (Variables C → Variables C) → M (Variables C) (Unit {0})
  modify f = outside (λ d. (tt, f d))

  abbrev fetch : {A : Type 0} → (Variables C → A) → M (Variables C) A
  fetch f = outside (λ d. (f d, d))

  -- `for (i = 0; i < n; ++i)`, and a function run on each of the processors in turn.
  pub for_each : ℕ → (ℕ → M (Variables C) (Unit {0})) → M (Variables C) (Unit {0})
  for_each zero f = pure tt
  for_each (suc n) f = do for_each n f; f n

  abbrev pub on : M (Variables C) (Unit {0}) → ℕ → M (Variables C) (Unit {0})
  on m i = do reached ← call (x.enter i); if reached then (do m; call x.leave) else pure tt

  pub kvm_clock_init : M (Variables C) (Unit {0})
  kvm_clock_init = do
    index ← call x.smp_id
    printk "kvm-clock: cpu %d, msr %p\n" (index ∷ x.hv_clock index ∷ [])
    err ← call (x.wrmsrl_safe x.msr_kvm_system_time_new (bit_or (x.hv_clock index) 1))
    pure tt

  pub kvm_clock_clear : M (Variables C) (Unit {0})
  kvm_clock_clear = do err ← call (x.wrmsrl_safe x.msr_kvm_system_time_new 0); pure tt

  pub kvm_get_wallclock : M (Variables C) (ℕ × ℕ)
  kvm_get_wallclock = do
    index ← call x.smp_id
    err ← call (x.wrmsrl_safe x.msr_kvm_wall_clock_new x.wall_clock)
    flags ← fetch (λ d. d.valid_flags)
    call (x.read_wallclock index flags)

  -- kvm_clock_read of PvClock, on the processor that runs.
  pub kvm_clock_read_here : M (Variables C) ℕ
  kvm_clock_read_here = do
    index ← call x.smp_id
    flags ← fetch (λ d. d.valid_flags)
    call (x.read_clock index flags)

  pub check_offset : ℕ → M (Variables C) (Unit {0})
  check_offset offset =
      if too_large (signed64 offset)
      then (do
        printk "offset too large!\n" []
        modify (λ d. record d { nerr = (d.nerr + 1) % 2 ^ 32 }))
      else pure tt

  pub wallclock_test : M (Variables C) (Unit {0})
  wallclock_test = do
    ts ← kvm_get_wallclock
    sec ← fetch (λ d. d.sec)
    let offset = (ts.0 + 2 ^ 64 - sec) % 2 ^ 64
    now ← kvm_clock_read_here
    cpu ← call x.smp_id
    printk "Raw nanoseconds value from kvmclock: %llu (cpu %d)\n" (now ∷ cpu ∷ [])
    again ← call x.smp_id
    printk "Seconds get from kvmclock: %ld (cpu %d, offset: %ld)\n" (ts.0 ∷ again ∷ offset ∷ [])
    check_offset offset

  -- `cycle_test` on `&ti[k]`. A worst warp is printed as its 64-bit pattern.
  abbrev pattern64 : ℤ → ℕ
  pattern64 (pos n) = n
  pattern64 (negsuc n) = 2 ^ 64 - 1 - n

  pub report : ℕ → TestInfo → ℕ → M (Variables C) (Unit {0})
  report check info cycles =
      if check == 1
      then (do
        printk "Total warps:  %lld\n" (info.warps ∷ [])
        printk "Total stalls: %lld\n" (info.stalls ∷ [])
        printk "Worst warp:   %lld\n" (pattern64 info.worst ∷ []))
      else printk "TSC cycles:  %lld\n" (cycles ∷ [])

  -- The lines that the processors log in the race.
  pub worst_warp_lines : List ℤ → M (Variables C) (Unit {0})
  worst_warp_lines [] = pure tt
  worst_warp_lines (worst ∷ later) = do
    printk "Worst warp %lld\n" (pattern64 worst ∷ [])
    worst_warp_lines later

  pub cycle_test : ℕ → ℕ → ℕ → M (Variables C) ℕ
  cycle_test ncpus check k = do
    begin ← call x.rdtscll
    d ← fetch (λ d. d)
    (info, worst_warps) ← call (x.race ncpus check d.valid_flags (d.ti k))
    modify (λ d. record d { ti = update d.ti k info })
    worst_warp_lines worst_warps
    end ← call x.rdtscll
    printk "Total vcpus: %d\n" (ncpus ∷ [])
    printk "Test  loops: %ld\n" (loops ∷ [])
    report check info ((end + 2 ^ 64 - begin) % 2 ^ 64)
    pure (cycle_result info)

  abbrev set_flags : ℕ → M (Variables C) (Unit {0})
  set_flags flags = modify (λ d. record d { valid_flags = flags })

  pub verdict : ℕ → M (Variables C) (Unit {0})
  verdict raw =
      if not (raw == 0)
      then printk "Raw cycle is not stable\n" []
      else printk "Raw cycle is stable\n" []

  -- What `test_kvm_clock` does between registering the clocks of `ncpus` processors and clearing them.
  pub clock_tests : ℕ → M (Variables C) (Unit {0})
  clock_tests ncpus = do
    printk "Wallclock test, threshold %ld\n" (threshold ∷ [])
    sec ← fetch (λ d. d.sec)
    printk "Seconds get from host:     %ld\n" (sec ∷ [])
    for_each ncpus (on wallclock_test)
    printk "Check the stability of raw cycle ...\n" []
    set_flags (bit_or x.pvclock_tsc_stable_bit raw_bit)
    raw ← cycle_test ncpus 1 0
    verdict raw
    set_flags x.pvclock_tsc_stable_bit
    printk "Monotonic cycle test:\n" []
    monotonic ← cycle_test ncpus 1 1
    modify (λ d. record d { nerr = (d.nerr + monotonic) % 2 ^ 32 })
    printk "Measure the performance of raw cycle ...\n" []
    set_flags (bit_or x.pvclock_tsc_stable_bit raw_bit)
    raw_measured ← cycle_test ncpus 0 2
    printk "Measure the performance of adjusted cycle ...\n" []
    set_flags x.pvclock_tsc_stable_bit
    measured ← cycle_test ncpus 0 3
    pure tt

  pub test_kvm_clock : M (Variables C) (Unit {0})
  test_kvm_clock = do
    modify (λ d. record d { nerr = 0 })
    modify (λ d. record d { sec = 2 })
    online ← call x.num_online_cpus
    for_each (tested online) (on kvm_clock_init)
    clock_tests (tested online)
    for_each (tested online) (on kvm_clock_clear)
