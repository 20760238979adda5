-- ===== src/PvClock/SharedClock.antt =====
-- What pvclock_clocksource_read of kvmclock_test.c promises, without its loop and its accesses: a clock
-- that all processors share. A call brings a sample of the host's time; at some moment it may raise the
-- clock to its sample, and at some moment, when the clock is not behind the sample, it reads the clock.
pub mod Refines
use Prim.Native.Nat.{max}
use pcm_test.Base.{ℕ, ◌≤◌, ◌≡◌, update}

-- Where a processor stands: between two calls, in a call with its sample, or with a result.
pub data Call : Type 0 where
  idle : Call
  pending : (sample : ℕ) → Call
  answered : (result : ℕ) → Call

pub record SharedClock : Type 0 where
  pub value : ℕ
  pub call : ℕ → Call

-- `Sample ret`: the host may give this sample.
module _ (Sample : ℕ → Type 0) where
  pub data Step (s : SharedClock) : SharedClock → Type 0 where
    start :
        (cpu sample : ℕ)
        → s.call cpu ≡ idle
        → Sample sample
        → Step s (record s { call = update s.call cpu (pending sample) })
    raise :
        (cpu sample : ℕ)
        → s.call cpu ≡ pending sample
        → Step s (record s { value = max s.value sample })
    answer :
        (cpu sample : ℕ)
        → s.call cpu ≡ pending sample
        → sample ≤ s.value
        → Step s (record s { call = update s.call cpu (answered s.value) })
    finish :
        (cpu result : ℕ)
        → s.call cpu ≡ answered result
        → Step s (record s { call = update s.call cpu idle })

  pub data Steps (s : SharedClock) : SharedClock → Type 0 where
    here : Steps s s
    later : {t u : SharedClock} → Steps s t → Step t u → Steps s u

  pub Steps-append : {s t u : SharedClock} → Steps s t → Steps t u → Steps s u
  Steps-append r here = r
  Steps-append r (later q st) = later (Steps-append r q) st

-- The clock at `value`, with no call.
abbrev pub at_rest : ℕ → SharedClock
at_rest value = record { value = value; call = λ _. idle }
