-- ===== src/CycleTest/OnPvClock.antt =====
-- kvmclock_test.c: `kvm_clock_read` as the clock of `kvm_clock_test`.
use Prim.Native.Nat.{max}
use pcm_test.Base.{ℕ, ◌+◌, ◌^◌, ◌≤◌, ◌<◌, ◌≡◌, false, none, some, [], ◌∷◌, arith}
use pcm_test.PvClock.{Attempt, retry, trusts, pvclock_clocksource_read}
use pcm_test.PvClock.Single.{pvclock_clocksource_read_lem}
use pcm_test.CycleTest.{Clock, IsMonotone, Shared, System, Steps, launch, cycle_result}
use pcm_test.CycleTest.NoWarp.{monotone_clock_passes}

-- The shared `last_value`, and how many samples the host has given.
pub record PvState : Type 0 where
  pub last_value : ℕ
  pub taken : ℕ

module _ (stable_bit valid_flags : ℕ) (samples : ℕ → Attempt) where
  -- `pvclock_clocksource_read` on the next sample; six moves are enough, so `none` does not occur
  -- where the host gives samples that the retry loop accepts.
  pub kvm_clock_read : PvState → ℕ × PvState
  kvm_clock_read w =
      let r =
        pvclock_clocksource_read stable_bit valid_flags 6 w.last_value (samples w.taken ∷ []) in
      (
        elim r.1 [ none ↦ 0 | some result ↦ result ],
        record { last_value = r.0; taken = w.taken + 1 },
      )

  abbrev pub pv_clock : Clock PvState
  pv_clock = record { read = kvm_clock_read }

  module _ (accepted : (k : ℕ) → retry (samples k) ≡ false)
      (untrusted : (k : ℕ) → trusts stable_bit valid_flags (samples k).flags ≡ false)
      (small : (k : ℕ) → (samples k).cycles < 2 ^ 63) where
    pub kvm_clock_read-max :
        (w : PvState)
        → kvm_clock_read w ≡ (
            let t = max w.last_value (samples w.taken).cycles in
            (t, record { last_value = t; taken = w.taken + 1 }))
    unfolding kvm_clock_read
    kvm_clock_read-max w = rw (
      pvclock_clocksource_read_lem stable_bit valid_flags 6 w.last_value [] (samples w.taken) []
          (omega arith) tt (accepted w.taken),
      untrusted w.taken,
    )

    abbrev pub pv_clock-IsMonotone : IsMonotone pv_clock
    pv_clock-IsMonotone = record {
      floor = λ w. w.last_value;
      InRange = λ w. w.last_value < 2 ^ 63;
      floor-le-read = λ w. rw (kvm_clock_read-max w) (omega arith);
      read-le-floor = λ w. rw (kvm_clock_read-max w) (omega arith);
      read-InRange = λ w h. rw (kvm_clock_read-max w) (omega (arith, small w.taken));
      read-lt = λ w h. rw (kvm_clock_read-max w) (omega (arith, small w.taken));
    }

    -- If the counter is not declared stable, the retry loop accepts the samples, all times are below
    -- 2^63, and at the start no warp is counted and `last` is not ahead of `last_value`, then
    -- `kvm_clock_test` on the clock of this file counts no warp and prints none, whatever the samples of
    -- the host and the interleaving of the processors: the monotonic cycle test passes.
    pub adjusted_clock_passes :
        (loops n check : ℕ) (start : Shared PvState) {s : System pv_clock loops}
        → start.info.last ≤ start.clock.last_value
        → start.clock.last_value < 2 ^ 63
        → start.info.warps ≡ 0
        → Steps pv_clock loops n (launch pv_clock loops n check start) s
        → (cycle_result s.shared.info ≡ 0) × (s.shared.worst_warps ≡ start.worst_warps)
    adjusted_clock_passes loops n check start h in_range none_yet r =
        monotone_clock_passes pv_clock pv_clock-IsMonotone loops n check start h in_range none_yet r
