-- ===== src/ClockTest/Stable.antt =====
-- pcm-unit/driver/kvmclock_test.c: the whole test on a host that declares no counter stable, with the
-- clock of PvClock and the races of CycleTest as the machine's operations.
use native.Mathlib.Nat.{le_trans}
use pcm_test.Base.{
  ℕ, ◌≤◌, ◌<◌, ◌^◌, ◌≡◌, refl, sym, ◌∙◌, ap, subst, true, List, [], ◌∷◌, ◌==◌, update, update_self,
  inl, inr, Bool-cases,
}
use pcm_test.Base.Kernel.{Sys, ◌>>◌, printk}
use pcm_test.PvClock.{Attempt}
use pcm_test.Base.Int.{ℤ}
use pcm_test.CycleTest.{TestInfo}
use pcm_test.CycleTest.NoWarp.{cycle_result-no_warps, monotone_clock_kept}
use pcm_test.CycleTest.OnPvClock.{pv_clock, pv_clock-IsMonotone}
use pcm_test.ClockTest.{
  Machine, Variables, on, kvm_clock_init, kvm_clock_clear, wallclock_test, cycle_test, clock_tests,
  tested, test_kvm_clock, loops, threshold,
}
use pcm_test.ClockTest.Host.{silent, silent-line, IsUnstable, IsRaced}
use pcm_test.ClockTest.Calm.{
  Calm, untrusted, still, both, for_each-Calm, verdict-Calm, init-Calm, clear-Calm, wallclock-Calm,
  report-Calm, lines-Calm,
}

module _ {C : Type 0} (x : Machine C) (samples : ℕ → Attempt) (d : IsRaced x samples)
    (h : IsUnstable x.pvclock_tsc_stable_bit samples) where
  open d use {
    pv, num_online_cpus-pv, enter-pv, leave-pv, smp_id-pv, wrmsrl_safe-pv, rdtscll-pv,
    read_wallclock-pv, read_clock-pv, race-reached,
  }

  -- No warp has been counted, no `last` is ahead of the clock, the clock is below 2^63, and the log
  -- does not call the raw cycle unstable.
  pub record Passes (s : Sys (Variables C)) : Type 0 where
    pub no_warps : (k : ℕ) → (s.world.ti k).warps ≡ 0
    pub not_ahead : (k : ℕ) → (s.world.ti k).last ≤ (pv s.world.outer).last_value
    pub below_2_63 : (pv s.world.outer).last_value < 2 ^ 63
    pub silence : silent s.log ≡ true

  Calm-Passes : {s t : Sys (Variables C)} → Calm x samples d h s t → Passes s → Passes t
  Calm-Passes {s} {t} c p = record {
    no_warps = λ k. ap (λ ti. (ti k).warps) c.same_ti ∙ p.no_warps k;
    not_ahead = λ k.
        subst (λ ti. (ti k).last ≤ (pv t.world.outer).last_value) (sym c.same_ti)
          (le_trans (p.not_ahead k) c.advances.0);
    below_2_63 = c.advances.1 p.below_2_63;
    silence = c.same_silence ∙ p.silence;
  }

  -- What a race leaves behind in the variables.
  abbrev raced : ℕ → ℕ → ℕ → Sys (Variables C) → Sys (Variables C)
  raced n check k s =
      let r = x.race n check s.world.valid_flags (s.world.ti k) s.world.outer in
      record s { world = record s.world { outer = r.1; ti = update s.world.ti k r.0.0 } }

  raced-Passes : (n check k : ℕ) (s : Sys (Variables C)) → Passes s → Passes (raced n check k s)
  raced-Passes n check k s p =
      let flags = s.world.valid_flags in
      let (t, reach, ei, ec) = race-reached n check flags (s.world.ti k) s.world.outer in
      let m =
        pv_clock-IsMonotone x.pvclock_tsc_stable_bit flags samples h.accepted
          (untrusted x samples d h flags) h.below_2_63 in
      let kept =
        monotone_clock_kept (pv_clock x.pvclock_tsc_stable_bit flags samples) m loops n check _
          (p.not_ahead k) p.below_2_63 reach in
      record {
        no_warps = λ j. elim (Bool-cases (k == j)) [
          | inl same ↦
              rw same (ap (λ (i : TestInfo × List ℤ). i.0.warps) ei ∙ kept.0 ∙ p.no_warps k)
          | inr other ↦ rw other (p.no_warps j)
        ];
        not_ahead = λ j. elim (Bool-cases (k == j)) [
          | inl same ↦ rw (same, ei, ec) kept.1
          | inr other ↦ rw (other, ec) (le_trans (p.not_ahead j) kept.3)
        ];
        below_2_63 = rw ec kept.2;
        silence = p.silence;
      }

  cycle-Passes :
      (n check k : ℕ) (s : Sys (Variables C))
      → Passes s
      → ((cycle_test x n check k s).0 ≡ 0) × Passes (cycle_test x n check k s).1
  unfolding cycle_test
  cycle-Passes n check k s p =
      let started : Passes
          (record s { world = record s.world { outer = (x.rdtscll s.world.outer).1 } }) =
        Calm-Passes (still x samples d h refl refl (rdtscll-pv s.world.outer)) p in
      let q = raced-Passes n check k _ started in
      (
        cycle_result-no_warps _
            (ap (λ (i : TestInfo). i.warps) (sym (update_self s.world.ti k _)) ∙ q.no_warps k),
        Calm-Passes
            (both x samples d h (lines-Calm x samples d h _ _) (
              both x samples d h
                (still x samples d h refl (silent-line _ _ _ refl ∙ silent-line _ _ _ refl)
                  (rdtscll-pv _))
                (report-Calm x samples d h _ _ _ _)))
            q,
      )

  -- What `clock_tests` logs before it reads the wall clocks.
  abbrev announced : Sys (Variables C) → Sys (Variables C)
  announced s =
      ((do
        printk "Wallclock test, threshold %ld\n" (threshold ∷ [])
        printk "Seconds get from host:     %ld\n" (s.world.sec ∷ []))
        s).1

  tests-Passes : (n : ℕ) (s : Sys (Variables C)) → Passes s → Passes (clock_tests x n s).1
  unfolding clock_tests
  tests-Passes n s p =
      let walls =
        Calm-Passes
          (both x samples d h
            (still x samples d h refl (silent-line _ _ _ refl ∙ silent-line s.log _ _ refl) refl)
            (for_each-Calm x samples d h n (on x (wallclock_test x)) (announced s)
              (wallclock-Calm x samples d h)))
          p in
      let raw =
        cycle-Passes n 1 0 _
          (Calm-Passes (still x samples d h refl (silent-line _ _ _ refl) refl) walls) in
      let monotonic = cycle-Passes n 1 1 _ (
        Calm-Passes (still x samples d h refl (silent-line _ _ _ refl) refl)
          (Calm-Passes (verdict-Calm x samples d h _ _ raw.0) raw.1)) in
      let measured =
        cycle-Passes n 0 2 _
          (Calm-Passes (still x samples d h refl (silent-line _ _ _ refl) refl) monotonic.1) in
      (cycle-Passes n 0 3 _
        (Calm-Passes (still x samples d h refl (silent-line _ _ _ refl) refl) measured.1)).1

  -- On a machine whose clocks read the clock of pvclock_clocksource_read, and whose races are
  -- interleavings of kvm_clock_test on it, if no sample of the host declares the counter stable, the
  -- retry loop accepts the samples, and their times are below 2^63, then test_kvm_clock keeps this: no
  -- warp is counted in any structure, no `last` is ahead of the clock, the clock is below 2^63, and no
  -- line of the log calls the raw cycle unstable.
  pub test_kvm_clock-Passes : (s : Sys (Variables C)) → Passes s → Passes (test_kvm_clock x s).1
  unfolding test_kvm_clock
  test_kvm_clock-Passes s p =
      let n = tested (x.num_online_cpus s.world.outer).0 in
      let started =
        Calm-Passes
          (both x samples d h (still x samples d h refl refl (num_online_cpus-pv s.world.outer))
            (for_each-Calm x samples d h n (on x (kvm_clock_init x)) _ (init-Calm x samples d h)))
          p in
      Calm-Passes
        (for_each-Calm x samples d h n (on x (kvm_clock_clear x)) _ (clear-Calm x samples d h))
        (tests-Passes n _ started)
