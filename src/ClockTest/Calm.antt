-- ===== src/ClockTest/Calm.antt =====
-- kvmclock_test.c: what the calls of test_kvm_clock other than cycle_test do to the clock, the
-- structures of the test and the log.
use native.Mathlib.Nat.{le_trans}
use pcm_test.Base.{
  ℕ, zero, suc, ◌≤◌, ◌<◌, ◌^◌, ◌≡◌, refl, sym, ◌∙◌, ap, subst, Bool, true, false, ◌==◌,
  if◌then◌else◌, arith, List, [], ◌∷◌,
}
use pcm_test.Base.Int.{ℤ, signed64}
use pcm_test.Base.Kernel.{Sys, M}
use pcm_test.PvClock.{Attempt, trusts}
use pcm_test.CycleTest.{TestInfo}
use pcm_test.CycleTest.OnPvClock.{PvState, kvm_clock_read, pv_clock-IsMonotone}
use pcm_test.ClockTest.{
  Machine, Variables, for_each, on, kvm_clock_init, kvm_clock_clear, kvm_get_wallclock,
  kvm_clock_read_here, check_offset, too_large, report, verdict, wallclock_test, worst_warp_lines,
}
use pcm_test.ClockTest.Host.{silent, silent-line, IsUnstable, IsRaced}

module _ {C : Type 0} (x : Machine C) (samples : ℕ → Attempt) (d : IsRaced x samples)
    (h : IsUnstable x.pvclock_tsc_stable_bit samples) where
  open d use {
    pv, num_online_cpus-pv, enter-pv, leave-pv, smp_id-pv, wrmsrl_safe-pv, rdtscll-pv,
    read_wallclock-pv, read_clock-pv, race-reached,
  }

  pub untrusted : (flags k : ℕ) → trusts x.pvclock_tsc_stable_bit flags (samples k).flags ≡ false
  unfolding trusts
  untrusted flags k = rw (h.undeclared k) (ground arith)

  -- The clock has not gone back from `v` to `w`, and is in range if it was.
  abbrev pub Advances : PvState → PvState → Type 0
  Advances v w = (v.last_value ≤ w.last_value) × (v.last_value < 2 ^ 63 → w.last_value < 2 ^ 63)

  read-Advances :
      (flags : ℕ) (v : PvState)
      → Advances v (kvm_clock_read x.pvclock_tsc_stable_bit flags samples v).1
  read-Advances flags v =
      let m =
        pv_clock-IsMonotone x.pvclock_tsc_stable_bit flags samples h.accepted (untrusted flags)
          h.below_2_63 in
      (le_trans (m.floor-le-read v) (m.read-le-floor v), m.read-InRange v)

  Advances-read :
      (flags : ℕ) {u v w : PvState}
      → v ≡ u
      → w ≡ (kvm_clock_read x.pvclock_tsc_stable_bit flags samples v).1
      → Advances u w
  Advances-read flags {u} {v} e f = subst (Advances u) (sym f) (
      subst (λ k. Advances k (kvm_clock_read x.pvclock_tsc_stable_bit flags samples v).1) e
        (read-Advances flags v))

  -- What a call may change: the clock may advance, `ti` is as before, and so is the silence.
  pub record Calm (s t : Sys (Variables C)) : Type 0 where
    pub same_ti : t.world.ti ≡ s.world.ti
    pub same_silence : silent t.log ≡ silent s.log
    pub advances : Advances (pv s.world.outer) (pv t.world.outer)

  pub still :
      {s t : Sys (Variables C)}
      → t.world.ti ≡ s.world.ti
      → silent t.log ≡ silent s.log
      → pv t.world.outer ≡ pv s.world.outer
      → Calm s t
  still {s} e f g = record {
    same_ti = e;
    same_silence = f;
    advances = subst (Advances (pv s.world.outer)) (sym g) (omega arith, λ k. k);
  }

  pub both : {s t u : Sys (Variables C)} → Calm s t → Calm t u → Calm s u
  both p q = record {
    same_ti = q.same_ti ∙ p.same_ti;
    same_silence = q.same_silence ∙ p.same_silence;
    advances = (le_trans p.advances.0 q.advances.0, λ k. q.advances.1 (p.advances.1 k));
  }

  either :
      (b : Bool) (m n : M (Variables C) (Unit {0})) (s : Sys (Variables C))
      → Calm s (m s).1
      → Calm s (n s).1
      → Calm s ((if b then m else n) s).1
  either true m n s p q = p
  either false m n s p q = q

  on-Calm :
      (m : M (Variables C) (Unit {0})) (i : ℕ) (s : Sys (Variables C))
      → ((t : Sys (Variables C)) → Calm t (m t).1)
      → Calm s (on x m i s).1
  on-Calm m i s h = both (still refl refl (enter-pv i s.world.outer)) (
      either (x.enter i s.world.outer).0 _ _ _ (both (h _) (still refl refl (leave-pv _)))
        (still refl refl refl))

  pub init-Calm : (i : ℕ) (s : Sys (Variables C)) → Calm s (on x (kvm_clock_init x) i s).1
  unfolding kvm_clock_init
  init-Calm i s = on-Calm (kvm_clock_init x) i s (λ t.
      still refl (silent-line t.log _ _ refl) (wrmsrl_safe-pv _ _ _ ∙ smp_id-pv t.world.outer))

  pub clear-Calm : (i : ℕ) (s : Sys (Variables C)) → Calm s (on x (kvm_clock_clear x) i s).1
  unfolding kvm_clock_clear
  clear-Calm i s = on-Calm (kvm_clock_clear x) i s (λ t. still refl refl (wrmsrl_safe-pv _ _ _))

  pub for_each-Calm :
      (n : ℕ) (f : ℕ → M (Variables C) (Unit {0})) (s : Sys (Variables C))
      → ((i : ℕ) (t : Sys (Variables C)) → Calm t (f i t).1)
      → Calm s (for_each x n f s).1
  unfolding for_each
  for_each-Calm zero f s k = still refl refl refl
  for_each-Calm (suc n) f s k = both (for_each-Calm n f s k) (k n _)

  check_offset-Calm : (offset : ℕ) (s : Sys (Variables C)) → Calm s (check_offset x offset s).1
  unfolding check_offset
  check_offset-Calm offset s =
      either (too_large (signed64 offset)) _ _ s (still refl (silent-line s.log _ _ refl) refl)
        (still refl refl refl)

  pub verdict-Calm : (raw : ℕ) (s : Sys (Variables C)) → raw ≡ 0 → Calm s (verdict x raw s).1
  unfolding verdict
  verdict-Calm raw s e = rw e (still refl (silent-line s.log _ _ refl) refl)

  get_wallclock-Calm : (s : Sys (Variables C)) → Calm s (kvm_get_wallclock x s).1
  unfolding kvm_get_wallclock
  get_wallclock-Calm s = record {
    same_ti = refl;
    same_silence = refl;
    advances =
        Advances-read _ (wrmsrl_safe-pv _ _ _ ∙ smp_id-pv s.world.outer) (read_wallclock-pv _ _ _);
  }

  clock_read-Calm : (s : Sys (Variables C)) → Calm s (kvm_clock_read_here x s).1
  unfolding kvm_clock_read_here
  clock_read-Calm s = record {
    same_ti = refl;
    same_silence = refl;
    advances = Advances-read _ (smp_id-pv s.world.outer) (ap (λ r. r.1) (read_clock-pv _ _ _));
  }

  pub wallclock-Calm : (i : ℕ) (s : Sys (Variables C)) → Calm s (on x (wallclock_test x) i s).1
  unfolding wallclock_test
  wallclock-Calm i s = on-Calm (wallclock_test x) i s (λ t. both (get_wallclock-Calm t) (
      both (clock_read-Calm _) (
        both
          (still refl (silent-line _ _ _ refl ∙ silent-line _ _ _ refl) (smp_id-pv _ ∙ smp_id-pv _))
          (check_offset-Calm _ _))))

  pub lines-Calm :
      (worst_warps : List ℤ) (s : Sys (Variables C)) → Calm s (worst_warp_lines x worst_warps s).1
  unfolding worst_warp_lines
  lines-Calm [] s = still refl refl refl
  lines-Calm (worst ∷ later) s =
      both (still refl (silent-line s.log _ _ refl) refl) (lines-Calm later _)

  pub report-Calm :
      (check : ℕ) (info : TestInfo) (cycles : ℕ) (s : Sys (Variables C))
      → Calm s (report x check info cycles s).1
  unfolding report
  report-Calm check info cycles s =
      either (check == 1) _ _ s
        (still refl (silent-line _ _ _ refl ∙ silent-line _ _ _ refl ∙ silent-line s.log _ _ refl)
          refl)
        (still refl (silent-line s.log _ _ refl) refl)
