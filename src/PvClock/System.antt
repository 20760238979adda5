-- ===== src/PvClock/System.antt =====
-- kvmclock_test.c: calls of `pvclock_clocksource_read` on any number of processors, interleaved at
-- each access to `last_value`. Between two calls a processor is idle.
use pcm_test.Base.{ℕ, ◌≡◌, false, update}
use pcm_test.PvClock.{Pc, idle, sampled, returned, trusts, move}

pub record Clocks : Type 0 where
  pub last_value : ℕ
  pub pc : ℕ → Pc

-- `Host ret flags`: the first loop may come back with this sample.
module _ (stable_bit valid_flags : ℕ) (Host : ℕ → ℕ → Type 0) where
  pub data Step (s : Clocks) : Clocks → Type 0 where
    call :
        (cpu ret flags : ℕ)
        → s.pc cpu ≡ idle
        → Host ret flags
        → Step s (record s { pc = update s.pc cpu (sampled ret flags) })
    go :
        (cpu : ℕ) {p : Pc}
        → s.pc cpu ≡ p
        → Step s (record {
          last_value = (move stable_bit valid_flags s.last_value p).0;
          pc = update s.pc cpu (move stable_bit valid_flags s.last_value p).1;
        })
    finish :
        (cpu result : ℕ)
        → s.pc cpu ≡ returned result
        → Step s (record s { pc = update s.pc cpu idle })

  pub data Steps (s : Clocks) : Clocks → Type 0 where
    here : Steps s s
    later : {t u : Clocks} → Steps s t → Step t u → Steps s u

  -- The host, or the module, does not declare the counter stable.
  abbrev pub IsAdjusted : Type 0
  IsAdjusted = (ret flags : ℕ) → Host ret flags → trusts stable_bit valid_flags flags ≡ false

  pub Steps-append : {s t u : Clocks} → Steps s t → Steps t u → Steps s u
  Steps-append r here = r
  Steps-append r (later q st) = later (Steps-append r q) st

-- `last_value` is `value`, and no call is running.
abbrev pub quiet : ℕ → Clocks
quiet value = record { last_value = value; pc = λ _. idle }
