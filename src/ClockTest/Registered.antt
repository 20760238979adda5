-- ===== src/ClockTest/Registered.antt =====
-- pcm-unit/driver/kvmclock_test.c: which processors still have a clock registered after the test.
use pcm_test.Base.{
  ℕ, zero, suc, ◌≤◌, ◌<◌, Bool-cases, inl, inr, ◌≡◌, ◌≢◌, refl, ◌∙◌, ap, Bool, true, false, ltb,
  if◌then◌else◌, update, arith,
}
use pcm_test.Base.Kernel.{Sys}
use pcm_test.ClockTest.Keeps.{KeepsView, tests-kept}
use pcm_test.ClockTest.{
  Machine, Variables, for_each, on, kvm_clock_init, kvm_clock_clear, tested, test_kvm_clock,
}

-- What the kernel and the processor document: a processor has a register for its clock's address,
-- which only its own writes to that register change. The `online` processors are those with the
-- numbers below their count, and smp_call_function_single reaches each of them.
pub record IsMachine {C : Type 0} (x : Machine C) : Type 0 where
  pub running : C → ℕ
  pub registered : C → ℕ → ℕ
  pub registered-keeps : KeepsView x registered
  pub online : ℕ
  pub num_online_cpus-online : (c : C) → (x.num_online_cpus c).0 ≡ online
  pub enter-reaches : (i : ℕ) (c : C) → i < online → (x.enter i c).0 ≡ true
  pub enter-running : (i : ℕ) (c : C) → (x.enter i c).0 ≡ true → running (x.enter i c).1 ≡ i
  pub smp_id-running : (c : C) → running (x.smp_id c).1 ≡ running c
  pub written :
      (v : ℕ) (c : C)
      → registered (x.wrmsrl_safe x.msr_kvm_system_time_new v c).1
        ≡ update (registered c) (running c) v

module _ {C : Type 0} (x : Machine C) (d : IsMachine x) where
  open d use {
    registered, online, num_online_cpus-online, enter-reaches, enter-running, smp_id-running,
    written,
  }
  open d.registered-keeps use {enter-keeps, leave-keeps, smp_id-keeps, num_online_cpus-keeps}

  abbrev clocks : Sys (Variables C) → ℕ → ℕ
  clocks s = registered s.world.outer

  init-clocks :
      (i : ℕ) (s : Sys (Variables C))
      → (j : ℕ) → j ≢ i
      → clocks (on x (kvm_clock_init x) i s).1 j ≡ clocks s j
  unfolding kvm_clock_init
  init-clocks i s j h = elim (Bool-cases (x.enter i s.world.outer).0) [
    | inl reached ↦
        rw
          (
            reached,
            leave-keeps,
            written,
            smp_id-running,
            enter-running i s.world.outer reached,
            smp_id-keeps,
            enter-keeps,
          )
          (ground arith)
    | inr missed ↦ rw (missed, enter-keeps) refl
  ]

  clear-clocks :
      (i : ℕ) (s : Sys (Variables C))
      → i < online
      → clocks (on x (kvm_clock_clear x) i s).1 ≡ update (clocks s) i 0
  unfolding kvm_clock_clear
  clear-clocks i s h =
      let reached = enter-reaches i s.world.outer h in
      rw (reached, leave-keeps, written, enter-running i s.world.outer reached, enter-keeps) refl

  -- Registering leaves the processors from `n` on alone; clearing makes the others' registers 0.
  inits-clocks :
      (n j : ℕ) (s : Sys (Variables C))
      → n ≤ j
      → clocks (for_each x n (on x (kvm_clock_init x)) s).1 j ≡ clocks s j
  unfolding for_each
  inits-clocks zero j s h = refl
  inits-clocks (suc n) j s h = init-clocks n _ j (omega arith) ∙ inits-clocks n j s (omega arith)

  clears-clocks :
      (n j : ℕ) (s : Sys (Variables C))
      → n ≤ online
      → clocks (for_each x n (on x (kvm_clock_clear x)) s).1 j ≡ (if ltb j n then 0 else clocks s j)
  unfolding for_each
  clears-clocks zero j s h = ground arith
  clears-clocks (suc n) j s h =
      let before = clears-clocks n j s (omega arith) in
      ap (λ registers. registers j)
        (clear-clocks n (for_each x n (on x (kvm_clock_clear x)) s).1 (omega arith))
      ∙ ground (arith, before)

  same_rest :
      (n j : ℕ) (b : Bool) {v w : ℕ}
      → ltb j n ≡ b
      → (n ≤ j → v ≡ w)
      → (if b then 0 else v) ≡ (if b then 0 else w)
  same_rest n j true e h = refl
  same_rest n j false e h = h (ground arith)

  tested-le-online : (c : C) → tested (x.num_online_cpus c).0 ≤ online
  tested-le-online c = let e = num_online_cpus-online c in ground (arith, e)

  -- Where the online processors are those with the numbers below their count and each is reached,
  -- after the test no processor that it has tested, which are the online ones up to the first 64, has
  -- a clock registered, and the others have what they had.
  pub test_kvm_clock-registered :
      (s : Sys (Variables C)) (j : ℕ)
      → registered (test_kvm_clock x s).1.world.outer j ≡ (
          if ltb j (tested (x.num_online_cpus s.world.outer).0)
          then 0
          else registered s.world.outer j)
  unfolding test_kvm_clock
  test_kvm_clock-registered s j =
      let n = tested (x.num_online_cpus s.world.outer).0 in
      clears-clocks n j _ (tested-le-online s.world.outer)
      ∙ same_rest n j _ refl (λ h.
        ap (λ registers. registers j) (tests-kept x registered d.registered-keeps n _)
        ∙ inits-clocks n j _ h
        ∙ ap (λ registers. registers j) (num_online_cpus-keeps s.world.outer))
