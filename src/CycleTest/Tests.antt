-- ===== src/CycleTest/Tests.antt =====
-- kvmclock_test.c: the theorems on `kvm_clock_test` at concrete runs.
use pcm_test.Base.{ℕ, ◌+◌, ◌≤◌, ◌<◌, ◌^◌, ◌≡◌, refl, true, [], arith, ◌==◌, if◌then◌else◌}
use pcm_test.Base.Int.{pos}
use pcm_test.PvClock.{Attempt, retry, trusts}
use pcm_test.CycleTest.{
  Clock, TestInfo, Shared, measured, finished, is_running, step, System, run, Steps, here, later,
  launch, cycle_result,
}
use pcm_test.CycleTest.NoWarp.{warp_counted_exactly}
use pcm_test.CycleTest.Finish.{Steps-bounded, wait_ends_finished, number_of_steps}
use pcm_test.CycleTest.Finish.Ends.{CanEnd, wait_can_end}
use pcm_test.CycleTest.OnPvClock.{PvState, pv_clock, adjusted_clock_passes}

-- A clock that ticks once at each read.
abbrev ticking : Clock ℕ
ticking = record { read = λ w. (w, w + 1) }

abbrev no_info : TestInfo
no_info = record { warps = 0; stalls = 0; worst = pos 0; last = 0; ncpus = 0; check = 0 }

abbrev fresh : {W : Type 0} → W → Shared W
fresh w = record { clock = w; info = no_info; worst_warps = [] }

-- A state of the system, with the moves that lead to it.
record Run (loops n : ℕ) {W : Type 0} (c : Clock W) (from : System c loops) : Type 0 where
  last_state : System c loops
  open last_state use *
  reach : Steps c loops n from last_state

abbrev go :
    {loops n : ℕ} {W : Type 0} {c : Clock W} {from : System c loops} (cpu : ℕ)
    → cpu < n
    → (r : Run loops n c from) → is_running (r.pc cpu) ≡ true
    → Run loops n c from
go cpu lt r e = record { last_state = _; reach = later r.reach (run cpu lt refl e) }

-- One processor through its one round: sample, judge, no stall, out.
abbrev one_round : Run 1 1 ticking (launch ticking 1 1 1 (fresh 5))
unfolding step launch
one_round =
    go 0 (omega arith)
      (go 0 (omega arith)
        (go 0 (omega arith) (go 0 (omega arith) (record { last_state = _; reach = here }) refl)
          refl)
        refl)
      refl

Steps-bounded_example : number_of_steps ticking 1 one_round.reach ≤ 5
unfolding step launch
Steps-bounded_example = Steps-bounded ticking 1 1 1 (fresh 5) one_round.reach

wait_ends_finished_example : one_round.pc 0 ≡ finished
unfolding step launch
wait_ends_finished_example =
    wait_ends_finished ticking 1 1 1 (fresh 5) 0 one_round.reach refl (omega arith)

-- The time 3 in a round that found 8 is a warp.
warp_counted_exactly_example :
    let info = (step ticking 1 (fresh 5) (measured 0 3 8)).0.info in
    (info.warps ≡ 1) × (info.last ≡ 0) × (info.stalls ≡ 0)
warp_counted_exactly_example =
    warp_counted_exactly ticking 1 (fresh 5) 0 3 8 (omega arith) (omega arith)

-- A host whose samples go back from 20 to 15 and on.
abbrev unsteady : ℕ → Attempt
unsteady k = record {
  version = 2;
  cycles = if k == 0 then 20 else 15;
  flags = 0;
  version_parity = 2;
  version_again = 2;
}

unsteady-small : (k : ℕ) → (unsteady k).cycles < 2 ^ 63
unsteady-small k = ground arith

abbrev pv_start : Shared PvState
pv_start = fresh (record { last_value = 7; taken = 0 })

abbrev unsteady_clock : Clock PvState
unsteady_clock = pv_clock 1 1 unsteady

-- The first critical section of a round: it reads 20 twice.
abbrev sampled : Run 1 2 unsteady_clock (launch unsteady_clock 1 2 1 pv_start)
unfolding step launch
sampled = go 1 (omega arith) (record { last_state = _; reach = here }) refl

adjusted_clock_passes_example :
    (cycle_result sampled.shared.info ≡ 0) × (sampled.shared.worst_warps ≡ [])
unfolding step launch retry trusts
adjusted_clock_passes_example =
    adjusted_clock_passes 1 1 unsteady (λ k. refl) (λ k. refl) unsteady-small 1 2 1 pv_start
      (omega arith) (omega arith) refl sampled.reach

wait_can_end_example : CanEnd unsteady_clock 1 2 sampled.last_state
unfolding step launch
wait_can_end_example = wait_can_end unsteady_clock 1 2 1 pv_start sampled.reach
