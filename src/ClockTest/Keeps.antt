-- ===== src/ClockTest/Keeps.antt =====
-- pcm-unit/driver/kvmclock_test.c: what the tests of the clocks leave alone, of what the machine's
-- calls other than a write of MSR_KVM_SYSTEM_TIME_NEW leave alone.
use pcm_test.Base.{ℕ, zero, suc, ◌≡◌, refl, ◌∙◌, ◌==◌, not, List, [], ◌∷◌}
use pcm_test.Base.Kernel.{Sys, M, either-view}
use pcm_test.CycleTest.{TestInfo}
use pcm_test.Base.Int.{ℤ, signed64}
use pcm_test.ClockTest.{kvm_clock_init, kvm_clock_clear, test_kvm_clock, tested}
use pcm_test.ClockTest.{
  Machine, Variables, for_each, on, kvm_clock_init, kvm_clock_clear, kvm_get_wallclock,
  kvm_clock_read_here, check_offset, too_large, report, verdict, wallclock_test, worst_warp_lines,
  cycle_test, clock_tests, tested, test_kvm_clock,
}

-- A view of the outside that no call but that write changes.
pub record KeepsView {C A : Type 0} (x : Machine C) (view : C → A) : Type 0 where
  pub enter-keeps : (i : ℕ) (c : C) → view (x.enter i c).1 ≡ view c
  pub leave-keeps : (c : C) → view (x.leave c).1 ≡ view c
  pub smp_id-keeps : (c : C) → view (x.smp_id c).1 ≡ view c
  pub wall_clock-keeps :
      (v : ℕ) (c : C) → view (x.wrmsrl_safe x.msr_kvm_wall_clock_new v c).1 ≡ view c
  pub num_online_cpus-keeps : (c : C) → view (x.num_online_cpus c).1 ≡ view c
  pub rdtscll-keeps : (c : C) → view (x.rdtscll c).1 ≡ view c
  pub read_wallclock-keeps : (i flags : ℕ) (c : C) → view (x.read_wallclock i flags c).1 ≡ view c
  pub read_clock-keeps : (i flags : ℕ) (c : C) → view (x.read_clock i flags c).1 ≡ view c
  pub race-keeps :
      (n check flags : ℕ) (info : TestInfo) (c : C) → view (x.race n check flags info c).1 ≡ view c

module _ {C A : Type 0} (x : Machine C) (view : C → A) (d : KeepsView x view) where
  open d use {
    enter-keeps, leave-keeps, smp_id-keeps, wall_clock-keeps, rdtscll-keeps, read_wallclock-keeps,
    read_clock-keeps, race-keeps,
  }

  abbrev pub seen : Sys (Variables C) → A
  seen s = view s.world.outer

  check_offset-kept :
      (offset : ℕ) (s : Sys (Variables C)) → seen (check_offset x offset s).1 ≡ seen s
  unfolding check_offset
  check_offset-kept offset s = either-view seen (too_large (signed64 offset)) _ _ s refl refl

  report-kept :
      (check : ℕ) (info : TestInfo) (cycles : ℕ) (s : Sys (Variables C))
      → seen (report x check info cycles s).1 ≡ seen s
  unfolding report
  report-kept check info cycles s = either-view seen (check == 1) _ _ s refl refl

  verdict-kept : (raw : ℕ) (s : Sys (Variables C)) → seen (verdict x raw s).1 ≡ seen s
  unfolding verdict
  verdict-kept raw s = either-view seen (not (raw == 0)) _ _ s refl refl

  on-kept :
      (m : M (Variables C) (Unit {0})) (i : ℕ) (s : Sys (Variables C))
      → ((t : Sys (Variables C)) → seen (m t).1 ≡ seen t)
      → seen (on x m i s).1 ≡ seen s
  on-kept m i s h =
      either-view seen (x.enter i s.world.outer).0 _ _ _ (leave-keeps _ ∙ h _) refl
      ∙ enter-keeps i s.world.outer

  pub wallclock-kept :
      (i : ℕ) (s : Sys (Variables C)) → seen (on x (wallclock_test x) i s).1 ≡ seen s
  unfolding wallclock_test kvm_get_wallclock kvm_clock_read_here
  wallclock-kept i s = on-kept (wallclock_test x) i s (λ t.
      check_offset-kept _ _
      ∙ smp_id-keeps _
      ∙ smp_id-keeps _
      ∙ read_clock-keeps _ _ _
      ∙ smp_id-keeps _
      ∙ read_wallclock-keeps _ _ _
      ∙ wall_clock-keeps _ _
      ∙ smp_id-keeps t.world.outer)

  lines-kept :
      (worst_warps : List ℤ) (s : Sys (Variables C))
      → seen (worst_warp_lines x worst_warps s).1 ≡ seen s
  unfolding worst_warp_lines
  lines-kept [] s = refl
  lines-kept (worst ∷ later) s = lines-kept later _

  pub cycle-kept :
      (n check k : ℕ) (s : Sys (Variables C)) → seen (cycle_test x n check k s).1 ≡ seen s
  unfolding cycle_test
  cycle-kept n check k s =
      report-kept _ _ _ _
      ∙ rdtscll-keeps _
      ∙ lines-kept _ _
      ∙ race-keeps _ _ _ _ _
      ∙ rdtscll-keeps s.world.outer

  pub for_each-kept :
      (n : ℕ) (f : ℕ → M (Variables C) (Unit {0})) (s : Sys (Variables C))
      → ((i : ℕ) (t : Sys (Variables C)) → seen (f i t).1 ≡ seen t)
      → seen (for_each x n f s).1 ≡ seen s
  unfolding for_each
  for_each-kept zero f s h = refl
  for_each-kept (suc n) f s h = h n _ ∙ for_each-kept n f s h

  pub tests-kept : (n : ℕ) (s : Sys (Variables C)) → seen (clock_tests x n s).1 ≡ seen s
  unfolding clock_tests
  tests-kept n s =
      cycle-kept n 0 3 _
      ∙ cycle-kept n 0 2 _
      ∙ cycle-kept n 1 1 _
      ∙ verdict-kept _ _
      ∙ cycle-kept n 1 0 _
      ∙ for_each-kept n (on x (wallclock_test x)) _ wallclock-kept

  -- Where a write of MSR_KVM_SYSTEM_TIME_NEW changes nothing either, the whole test does not.
  module _
      (written : (v : ℕ) (c : C)
        → view (x.wrmsrl_safe x.msr_kvm_system_time_new v c).1 ≡ view c) where
    init-kept : (i : ℕ) (s : Sys (Variables C)) → seen (on x (kvm_clock_init x) i s).1 ≡ seen s
    unfolding kvm_clock_init
    init-kept i s = on-kept (kvm_clock_init x) i s (λ t. written _ _ ∙ smp_id-keeps t.world.outer)

    clear-kept : (i : ℕ) (s : Sys (Variables C)) → seen (on x (kvm_clock_clear x) i s).1 ≡ seen s
    unfolding kvm_clock_clear
    clear-kept i s = on-kept (kvm_clock_clear x) i s (λ t. written 0 t.world.outer)

    pub test_kvm_clock-kept : (s : Sys (Variables C)) → seen (test_kvm_clock x s).1 ≡ seen s
    unfolding test_kvm_clock
    test_kvm_clock-kept s =
        let n = tested (x.num_online_cpus s.world.outer).0 in
        for_each-kept n (on x (kvm_clock_clear x)) _ clear-kept
        ∙ tests-kept n _
        ∙ for_each-kept n (on x (kvm_clock_init x)) _ init-kept
        ∙ d.num_online_cpus-keeps s.world.outer
