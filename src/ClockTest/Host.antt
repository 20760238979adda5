-- ===== src/ClockTest/Host.antt =====
-- pcm-unit/driver/kvmclock_test.c: the machine that test_kvm_clock runs on when PvClock is its clock and
-- CycleTest its race, and the lines of the log that count.

use pcm_test.Base.{
  ℕ, ◌<◌, ◌^◌, ◌≡◌, refl, ◌∙◌, Bool, true, false, not, ◌&&◌, String, List, [], ◌∷◌, ◌++◌, same_text,
  bit_and, arith,
}
use pcm_test.Base.Kernel.{Line}
use pcm_test.PvClock.{Attempt, retry}
use pcm_test.CycleTest.{TestInfo, System, Steps, launch}
use pcm_test.CycleTest.OnPvClock.{PvState, kvm_clock_read, pv_clock}
use pcm_test.ClockTest.{Machine, loops}

-- The log has no line that calls the raw cycle unstable.
abbrev pub alarm : String
alarm = "Raw cycle is not stable\n"

unfoldable pub silent : List Line → Bool
silent [] = true
silent (l ∷ ls) = not (same_text l.format alarm) && silent ls

silent-append : (xs ys : List Line) → silent (xs ++ ys) ≡ (silent xs && silent ys)
unfolding silent
silent-append [] ys = refl
silent-append (l ∷ xs) ys = rw (silent-append xs ys) (ground arith)

pub silent-line :
    (log : List Line) (format : String) (values : List ℕ)
    → same_text format alarm ≡ false
    → silent (log ++ record { format = format; values = values } ∷ []) ≡ silent log
unfolding silent
silent-line log format values h = silent-append log _ ∙ rw h (ground arith)

-- The host's samples: none declares the counter stable, the retry loop accepts each, and their times
-- are below 2^63.
pub record IsUnstable (stable_bit : ℕ) (samples : ℕ → Attempt) : Type 0 where
  pub undeclared : (k : ℕ) → bit_and (samples k).flags stable_bit ≡ 0
  pub accepted : (k : ℕ) → retry (samples k) ≡ false
  pub below_2_63 : (k : ℕ) → (samples k).cycles < 2 ^ 63

-- A machine whose two clocks read the one of PvClock on these samples, once each, and whose race gives
-- the structure and the lines of a state that some interleaving of CycleTest reaches. Nothing else reads that clock.
pub record IsRaced {C : Type 0} (x : Machine C) (samples : ℕ → Attempt) : Type 0 where
  pub pv : C → PvState
  pub num_online_cpus-pv : (c : C) → pv (x.num_online_cpus c).1 ≡ pv c
  pub enter-pv : (i : ℕ) (c : C) → pv (x.enter i c).1 ≡ pv c
  pub leave-pv : (c : C) → pv (x.leave c).1 ≡ pv c
  pub smp_id-pv : (c : C) → pv (x.smp_id c).1 ≡ pv c
  pub wrmsrl_safe-pv : (i v : ℕ) (c : C) → pv (x.wrmsrl_safe i v c).1 ≡ pv c
  pub rdtscll-pv : (c : C) → pv (x.rdtscll c).1 ≡ pv c
  pub read_wallclock-pv :
      (i flags : ℕ) (c : C)
      → pv (x.read_wallclock i flags c).1
        ≡ (kvm_clock_read x.pvclock_tsc_stable_bit flags samples (pv c)).1
  pub read_clock-pv :
      (i flags : ℕ) (c : C)
      → ((x.read_clock i flags c).0, pv (x.read_clock i flags c).1)
        ≡ kvm_clock_read x.pvclock_tsc_stable_bit flags samples (pv c)
  pub race-reached :
      (n check flags : ℕ) (info : TestInfo) (c : C)
      → let clock = pv_clock x.pvclock_tsc_stable_bit flags samples in
        (s : System clock loops) × Steps clock loops n
          (launch clock loops n check (record { clock = pv c; info = info; worst_warps = [] }))
          s
        × ((x.race n check flags info c).0 ≡ (s.shared.info, s.shared.worst_warps))
        × (pv (x.race n check flags info c).1 ≡ s.shared.clock)
