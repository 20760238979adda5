-- ===== src/CycleTest.antt =====
-- pcm-unit/driver/kvmclock_test.c: `kvm_clock_test`, run by every processor of `cycle_test` on one
-- `struct test_info`. A processor's moves are its critical sections and its accesses outside them, so
-- that processors can be interleaved. The clock is an interface.
pub mod NoWarp
pub mod Finish
pub mod OnPvClock
mod Tests
use pcm_test.Base.{
  ℕ, ◌+◌, ◌-◌, ◌%◌, ◌^◌, ◌≤◌, ◌<◌, ◌≡◌, Bool, true, false, List, [], ◌∷◌, ◌++◌, ltb, ◌==◌,
  if◌then◌else◌, update,
}
use pcm_test.Base.Int.{ℤ, pos, signed64, is_negative, is_zero, ltb_ℤ}

-- `kvm_clock_read`: a state of the clock, and a read of it.
pub record Clock (W : Type 0) : Type 0 where
  pub read : W → ℕ × W

-- A clock that never goes back: no read is below the floor, and the floor rises to it. While it is
-- `InRange`, its reads are below 2^63, and it stays so.
pub record IsMonotone {W : Type 0} (c : Clock W) : Type 1 where
  pub floor : W → ℕ
  pub InRange : W → Type 0
  pub floor-le-read : (w : W) → floor w ≤ (c.read w).0
  pub read-le-floor : (w : W) → (c.read w).0 ≤ floor (c.read w).1
  pub read-InRange : (w : W) → InRange w → InRange (c.read w).1
  pub read-lt : (w : W) → InRange w → (c.read w).0 < 2 ^ 63

-- `struct test_info`; `lock` is held exactly during a critical section.
pub record TestInfo : Type 0 where
  pub warps : ℕ
  pub stalls : ℕ
  pub worst : ℤ
  pub last : ℕ
  pub ncpus : ℕ
  pub check : ℕ

pub record Shared (W : Type 0) : Type 0 where
  pub clock : W
  pub info : TestInfo
  pub worst_warps : List ℤ  -- the lines "Worst warp" in the log

-- Where a processor stands, in round `i` of the loop.
pub data Pc : Type 0 where
  ready : (i : ℕ) → Pc
  measured : (i t1 t0 : ℕ) → Pc  -- after the first critical section
  judged : (i t1 t0 : ℕ) → Pc  -- after the second one, before the test for a stall
  stalling : (i stalls : ℕ) → Pc  -- `++stalls` takes no lock: it has read the counter
  finished : Pc

abbrev pub is_running : Pc → Bool
is_running finished = false
is_running _ = true

-- `delta = t1 - t0`, as a long long
abbrev pub delta : ℕ → ℕ → ℤ
delta t1 t0 = signed64 ((t1 + 2 ^ 64 - t0) % 2 ^ 64)

pub count_warp : ℤ → TestInfo → TestInfo
count_warp d info = record info {
  warps = (info.warps + 1) % 2 ^ 64;
  worst = if ltb_ℤ d info.worst then d else info.worst;
}

module _ {W : Type 0} (c : Clock W) where
  pub sample : ℕ → Shared W → Shared W × Pc
  sample i s =
      let first = c.read s.clock in
      let second = c.read first.1 in
      (
        record s { clock = second.1; info = record s.info { last = second.0 } },
        measured i first.0 s.info.last,
      )

module _ {W : Type 0} where
  pub judge : ℕ → ℕ → ℕ → Shared W → Shared W × Pc
  unfolding count_warp
  judge i t1 t0 s =
      if is_negative (delta t1 t0)
      then (
        record s {
          info = count_warp (delta t1 t0) s.info;
          worst_warps =
              if ltb_ℤ (delta t1 t0) s.info.worst
              then s.worst_warps ++ delta t1 t0 ∷ []
              else s.worst_warps;
        },
        judged i t1 t0,
      )
      else (s, judged i t1 t0)

module _ {W : Type 0} (c : Clock W) (loops : ℕ) where
  -- One move of a processor in `kvm_clock_test`. `check` is set before the processors start and stays.
  -- `atomic_dec` is never at 0 here (see Finish).
  pub step : Shared W → Pc → Shared W × Pc
  unfolding sample judge
  step s (ready i) =
      if ltb i loops
      then if s.info.check == 0
        then (record s { clock = (c.read s.clock).1 }, ready (i + 1))
        else sample c i s
      else (record s { info = record s.info { ncpus = s.info.ncpus - 1 } }, finished)
  step s (measured i t1 t0) = judge i t1 t0 s
  step s (judged i t1 t0) =
      (s, if is_zero (delta t1 t0) then stalling i s.info.stalls else ready (i + 1))
  step s (stalling i n) =
      (record s { info = record s.info { stalls = (n + 1) % 2 ^ 64 } }, ready (i + 1))
  step s finished = (s, finished)

  pub record System : Type 0 where
    pub shared : Shared W
    pub pc : ℕ → Pc

  -- A processor below `n` that has not finished makes its next move.
  pub data Step (n : ℕ) (s : System) : System → Type 0 where
    run :
        (cpu : ℕ) {p : Pc}
        → cpu < n
        → s.pc cpu ≡ p
        → is_running p ≡ true
        → Step n s
            (record { shared = (step s.shared p).0; pc = update s.pc cpu (step s.shared p).1 })

  pub data Steps (n : ℕ) (s : System) : System → Type 0 where
    here : Steps n s s
    later : {t u : System} → Steps n s t → Step n t u → Steps n s u

  -- `cycle_test` when it has set `ncpus` and `check`, and has started `kvm_clock_test` everywhere.
  unfoldable pub launch : ℕ → ℕ → Shared W → System
  launch n check s = record {
    shared = record s { info = record s.info { ncpus = n; check = check } };
    pc = λ _. ready 0;
  }

-- `ti->warps ? 1 : 0`
pub cycle_result : TestInfo → ℕ
cycle_result info = if info.warps == 0 then 0 else 1
