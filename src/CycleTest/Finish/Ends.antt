-- ===== src/CycleTest/Finish/Ends.antt =====
-- kvmclock_test.c: the wait of `cycle_test` can end from every state, so that with the bound of the
-- parent module it does end when processors that run go on.
use pcm_test.Base.{
  ℕ, zero, suc, ◌≤◌, ◌<◌, ◌≡◌, refl, ◌∙◌, true, inl, inr, arith, sum_over, sum_over_zero,
  sum_over-update, sum_over_find, update, dec_lt,
}
use pcm_test.CycleTest.{
  Clock, Shared, Pc, is_running, step, System, Step, run, Steps, here, later, launch,
}
use pcm_test.CycleTest.Finish.{
  running_weight, moves_left, Inv, Step-Inv, Steps-Inv, Step-Counts, launch-Inv,
}

runs : (p : Pc) → 0 < running_weight p → is_running p ≡ true
runs p h = ground arith

module _ {W : Type 0} (c : Clock W) (loops : ℕ) where
  Steps-first :
      {n : ℕ} {s t u : System c loops}
      → Step c loops n s t
      → Steps c loops n t u
      → Steps c loops n s u
  Steps-first st here = later here st
  Steps-first st (later r last) = later (Steps-first st r) last

  -- From `s` the processors can go on until the counter of processors is 0.
  abbrev pub CanEnd : ℕ → System c loops → Type 0
  CanEnd n s = (t : System c loops) × Steps c loops n s t × (t.shared.info.ncpus ≡ 0)

  abbrev left : ℕ → System c loops → ℕ
  left n s = sum_over (moves_left c loops) n s.pc

  -- A processor that runs has a move left, and a move leaves less to do.
  left_positive :
      {n : ℕ} {s : System c loops} (cpu : ℕ)
      → Inv c loops n s
      → cpu < n
      → is_running (s.pc cpu) ≡ true
      → 0 < left n s
  left_positive {n} {s} cpu inv lt going = elim (dec_lt 0 (left n s)) [
    | yes some ↦ some
    | no none_left ↦ absurd (
        omega (
          arith,
          (Step-Counts c loops cpu inv lt refl going).fewer,
          sum_over_zero (moves_left c loops) n s.pc cpu lt (omega arith),
        ))
  ]

  left_after :
      {n : ℕ} {s : System c loops} (cpu : ℕ)
      → Inv c loops n s
      → cpu < n
      → is_running (s.pc cpu) ≡ true
      → sum_over (moves_left c loops) n (update s.pc cpu (step c loops s.shared (s.pc cpu)).1)
        < left n s
  left_after {n} {s} cpu inv lt going = omega (
    arith,
    (Step-Counts c loops cpu inv lt refl going).fewer,
    sum_over-update (moves_left c loops) s.pc (step c loops s.shared (s.pc cpu)).1 cpu n lt,
  )

  ends_from :
      (fuel : ℕ) {n : ℕ} {s : System c loops} → Inv c loops n s → left n s ≤ fuel → CanEnd n s
  ends_from zero {n} {s} inv h = elim (sum_over_find running_weight n s.pc) [
    | inl over ↦ (s, here, inv.ncpus_running ∙ over)
    | inr (cpu, lt, weight) ↦
        absurd (omega (arith, left_positive cpu inv lt (runs (s.pc cpu) weight)))
  ]
  ends_from (suc fuel) {n} {s} inv h = elim (sum_over_find running_weight n s.pc) [
    | inl over ↦ (s, here, inv.ncpus_running ∙ over)
    | inr (cpu, lt, weight) ↦
        let going = runs (s.pc cpu) weight in
        let st = run cpu lt refl going in
        let (t, r, e) =
          ends_from fuel (Step-Inv c loops inv st) (omega (arith, left_after cpu inv lt going)) in
        (t, Steps-first st r, e)
  ]

  -- From every state that an interleaving reaches, the processors can go on until the counter that
  -- `cycle_test` waits for is 0.
  pub wait_can_end :
      (n check : ℕ) (start : Shared W) {s : System c loops}
      → Steps c loops n (launch c loops n check start) s
      → CanEnd n s
  wait_can_end n check start {s} r =
      ends_from (left n s) (Steps-Inv c loops (launch-Inv c loops n check start) r) (omega arith)
