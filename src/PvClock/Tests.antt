-- ===== src/PvClock/Tests.antt =====
-- kvmclock_test.c: the theorems on the clock at concrete inputs.
use pcm_test.Base.{ℕ, ◌+◌, ◌*◌, ◌/◌, ◌%◌, bit_or, ◌≤◌, ◌<◌, ◌≡◌, refl, arith, [], ◌∷◌, some}
use pcm_test.PvClock.{idle, trusts, move, Attempt, retry, pvclock_clocksource_read}
use pcm_test.PvClock.{raw_cycle_bit}
use pcm_test.PvClock.Flags.{pvclock_set_flags, raw_bit_ignored}
use pcm_test.PvClock.WallClock.{
  Shared as WallShared, Steps as WallSteps, here as wall_here, later as wall_later,
  read as wall_read, begin_update, write_sec, end_update, WallClock, start, accepted, load, TimeLib,
  IsTimeLib,
}
use pcm_test.PvClock.WallClock.Snapshot.{accepted_is_published, undisturbed_read}
use native.Mathlib.Nat.{mod-lt}
use pcm_test.Base.{update}
use pcm_test.PvClock.System.{Clocks, call, go, finish, Steps, here, later, IsAdjusted, quiet}
use pcm_test.PvClock.Single.{pvclock_clocksource_read_lem}
use pcm_test.PvClock.SharedClock
use pcm_test.PvClock.SharedClock.{at_rest}
use pcm_test.PvClock.SharedClock.Refines.{shared, Sample, Steps-refine}
use pcm_test.PvClock.Monotone.{returned-le-returned, cmpxchg_fails_behind}

-- A host whose counter is never stable.
abbrev Unstable : ℕ → ℕ → Type 0
Unstable ret flags = flags ≡ 0

Unstable-IsAdjusted : IsAdjusted 1 1 Unstable
unfolding trusts
Unstable-IsAdjusted ret flags e = rw e refl

abbrev torn : Attempt
torn = record { version = 3; cycles = 9; flags = 0; version_parity = 3; version_again = 3 }

abbrev clean : Attempt
clean = record { version = 4; cycles = 12; flags = 0; version_parity = 4; version_again = 4 }

pvclock_clocksource_read_example :
    pvclock_clocksource_read 1 1 6 10 (torn ∷ clean ∷ []) ≡ (12, some 12)
unfolding trusts retry
pvclock_clocksource_read_example =
    pvclock_clocksource_read_lem 1 1 6 10 (torn ∷ []) clean [] (omega arith) (refl, tt) refl

-- A clock state, with the moves that lead to it.
record Run (from : Clocks) : Type 0 where
  last : Clocks
  open last use *
  reach : Steps 1 1 Unstable from last

abbrev still : (c : Clocks) → Run c
still c = record { last = c; reach = here }

abbrev call_at : {c : Clocks} (cpu ret : ℕ) (r : Run c) → r.pc cpu ≡ idle → Run c
call_at cpu ret r e = record { last = _; reach = later r.reach (call cpu ret 0 e refl) }

abbrev go_on : {c : Clocks} → ℕ → Run c → Run c
unfolding move trusts
go_on cpu r = record { last = _; reach = later r.reach (go cpu refl) }

-- Processor 0 samples 20, and returns it while processor 1 is idle.
abbrev first_done : Run (quiet 7)
first_done =
    go_on 0 (go_on 0 (go_on 0 (go_on 0 (go_on 0 (go_on 0 (call_at 0 20 (still (quiet 7)) refl))))))

-- Then processor 0 is done with its call, samples 15 in another, and returns 20.
abbrev between : Clocks
between = record first_done.last { pc = update first_done.last.pc 0 idle }

abbrev again_done : Run between
unfolding move trusts
again_done = go_on 0 (go_on 0 (go_on 0 (call_at 0 15 (still between) refl)))

returned-le-returned_example : ◌≤◌ 20 20
unfolding move trusts
returned-le-returned_example =
    returned-le-returned 1 1 Unstable Unstable-IsAdjusted 7 0 0 {a = 20} {b = 20} first_done.reach
      refl (later here (finish 0 20 refl)) refl again_done.reach refl

-- Seen from outside, processor 0 has drawn 20 from a shared clock.
Steps-refine_example : SharedClock.Steps (Sample 1 1 Unstable) (at_rest 7) (shared first_done.last)
Steps-refine_example = Steps-refine 1 1 Unstable Unstable-IsAdjusted 7 first_done.reach

-- Both processors have read 7; processor 0 stores 20 first, so processor 1 is behind.
abbrev overtaken : Run (quiet 7)
unfolding move trusts
overtaken = go_on 0 (
    go_on 1 (
      go_on 1 (
        go_on 1
          (call_at 1 15 (go_on 0 (go_on 0 (go_on 0 (call_at 0 20 (still (quiet 7)) refl)))) refl))))

cmpxchg_fails_behind_example : 7 < overtaken.last_value
unfolding move trusts
cmpxchg_fails_behind_example =
    cmpxchg_fails_behind 1 1 Unstable Unstable-IsAdjusted 7 1 {ret = 15} {last = 7} overtaken.reach
      refl (omega arith)

raw_bit_ignored_example :
    pvclock_clocksource_read 1 (pvclock_set_flags (bit_or 1 raw_cycle_bit)) 6 10 (clean ∷ [])
    ≡ pvclock_clocksource_read 1 (pvclock_set_flags 1) 6 10 (clean ∷ [])
raw_bit_ignored_example = raw_bit_ignored 1 (omega arith) 6 10 (clean ∷ [])

abbrev noon : WallClock
noon = record { count = 4; sec = 43200; nsec = 7 }

undisturbed_read_example :
    load noon (load noon (load noon (load noon (load noon start)))) ≡ accepted 43200 7
undisturbed_read_example = undisturbed_read noon refl

-- The host updates the clock, and then the reader goes through its loop as far as the last load.
record HostRun : Type 0 where
  state : WallShared
  open state use *
  reach : WallSteps (record { memory = noon; reader = start }) state

abbrev read_on : HostRun → HostRun
read_on r = record { state = _; reach = wall_later r.reach (wall_read refl) }

abbrev updated : HostRun
updated = record {
  state = _;
  reach =
      wall_later (wall_later (wall_later wall_here (begin_update refl)) (write_sec 43201 refl))
        (end_update refl);
}

abbrev almost : HostRun
unfolding load
almost = read_on (read_on (read_on (read_on updated)))

accepted_is_published_example :
    (almost.memory.count % 2 ≡ 0) × (43201 ≡ almost.memory.sec) × (7 ≡ almost.memory.nsec)
unfolding load
accepted_is_published_example =
    accepted_is_published 6 43201 7 refl almost.reach refl (omega arith) refl

div_mod : (n base : ℕ) → n ≡ n / base * base + n % base
div_mod n base = omega arith

abbrev gnu_time : TimeLib
gnu_time = record { nsec_per_sec = 1_000_000_000; do_div = λ n base. (n / base, n % base) }

gnu_time-IsTimeLib : IsTimeLib gnu_time
gnu_time-IsTimeLib = record {
  positive = omega arith;
  divides = λ n base h. (div_mod n base, mod-lt n h);
}
