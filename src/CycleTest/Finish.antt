-- ===== src/CycleTest/Finish.antt =====
-- kvmclock_test.c: every processor leaves `kvm_clock_test` after a bounded number of moves, whatever
-- the interleaving, and `cycle_test` goes on only when all have left it.
pub mod Ends
use pcm_test.Base.{
  ℕ, ◌+◌, ◌-◌, ◌*◌, ◌≤◌, ◌<◌, ◌≡◌, refl, ap, true, inl, inr, Bool-cases, subst, arith, ltb, ◌==◌,
  dec_lt, sum_over, sum_over-update, sum_over_zero, sum_over_const,
}
use pcm_test.Base.Int.{is_zero, is_negative}
use pcm_test.CycleTest.{
  Clock, Shared, Pc, ready, measured, judged, stalling, finished, delta, is_running, sample, judge,
  step, System, Step, run, Steps, here, later, launch,
}

-- 1 for a processor that is still in `kvm_clock_test`.
abbrev running_weight : Pc → ℕ
running_weight finished = 0
running_weight _ = 1

weightless : (p : Pc) → running_weight p ≡ 0 → p ≡ finished
weightless p h = ground arith

module _ {W : Type 0} (c : Clock W) (loops : ℕ) where
  -- A bound on the moves that a processor has left, and the round it is in.
  abbrev moves_left : Pc → ℕ
  moves_left (ready i) = 4 * (loops - i) + 1
  moves_left (measured i t1 t0) = 4 * (loops - i)
  moves_left (judged i t1 t0) = 4 * (loops - i) - 1
  moves_left (stalling i n) = 4 * (loops - i) - 2
  moves_left finished = 0

  abbrev InRound : Pc → Type 0
  InRound (ready i) = i ≤ loops
  InRound (measured i t1 t0) = i < loops
  InRound (judged i t1 t0) = i < loops
  InRound (stalling i n) = i < loops
  InRound finished = Unit

  -- What a move does to the counter of processors and to the bound.
  record Counts (s : Shared W) (p : Pc) (after : Shared W × Pc) : Type 0 where
    counted : after.0.info.ncpus + running_weight p ≡ s.info.ncpus + running_weight after.1
    fewer : moves_left after.1 < moves_left p
    in_round : InRound after.1

  step-Counts :
      (s : Shared W) (p : Pc)
      → is_running p ≡ true
      → 0 < s.info.ncpus
      → InRound p
      → Counts s p (step c loops s p)
  unfolding step
  step-Counts s (ready i) going some r = elim (Bool-cases (ltb i loops)) [
    | inl more ↦ elim (Bool-cases (s.info.check == 0)) [
      | inl plain ↦
          rw (more, plain)
            (record { counted = refl; fewer = ground arith; in_round = ground arith })
      | inr checked ↦
          rw (more, checked, sample)
            (record { counted = refl; fewer = omega arith; in_round = ground arith })
    ]
    | inr end ↦ rw end (record { counted = omega arith; fewer = omega arith; in_round = tt })
  ]
  step-Counts s (measured i t1 t0) going some r = elim (Bool-cases (is_negative (delta t1 t0))) [
    | inl back ↦ rw (back, judge) (record { counted = refl; fewer = omega arith; in_round = r })
    | inr forward ↦
        rw (forward, judge) (record { counted = refl; fewer = omega arith; in_round = r })
  ]
  step-Counts s (judged i t1 t0) going some r = elim (Bool-cases (is_zero (delta t1 t0))) [
    | inl still ↦ rw still (record { counted = refl; fewer = omega arith; in_round = r })
    | inr moved ↦ rw moved (record { counted = refl; fewer = omega arith; in_round = omega arith })
  ]
  step-Counts s (stalling i n) going some r = record {
    counted = refl;
    fewer = omega arith;
    in_round = omega arith;
  }
  step-Counts s finished going some r = cc

  -- The counter of processors is the number of those still in the loop.
  record Inv (n : ℕ) (s : System c loops) : Type 0 where
    ncpus_running : s.shared.info.ncpus ≡ sum_over running_weight n s.pc
    rounds : (cpu : ℕ) → InRound (s.pc cpu)

  weight_of_running : (p : Pc) → is_running p ≡ true → running_weight p ≡ 1
  weight_of_running p h = ground arith

  ncpus_positive :
      {n : ℕ} {s : System c loops} (cpu : ℕ) {p : Pc}
      → Inv n s
      → cpu < n
      → s.pc cpu ≡ p
      → is_running p ≡ true
      → 0 < s.shared.info.ncpus
  ncpus_positive {n} {s} cpu {p} inv lt e going = elim (dec_lt 0 s.shared.info.ncpus) [
    | yes some ↦ some
    | no none_left ↦ absurd (
        omega (
          arith,
          inv.ncpus_running,
          sum_over_zero running_weight n s.pc cpu lt (omega (arith, inv.ncpus_running)),
          weight_of_running p going,
          ap running_weight e,
        ))
  ]

  Step-Counts :
      {n : ℕ} {s : System c loops} (cpu : ℕ) {p : Pc}
      → Inv n s
      → cpu < n
      → s.pc cpu ≡ p
      → is_running p ≡ true
      → Counts s.shared p (step c loops s.shared p)
  Step-Counts {s} cpu {p} inv lt e going =
      step-Counts s.shared p going (ncpus_positive cpu inv lt e going)
        (subst InRound e (inv.rounds cpu))

  Step-Inv : {n : ℕ} {s t : System c loops} → Inv n s → Step c loops n s t → Inv n t
  Step-Inv {n} {s} inv (run cpu {p} lt e going) =
      let q = Step-Counts cpu inv lt e going in
      record {
        ncpus_running = omega (
          arith,
          q.counted,
          inv.ncpus_running,
          sum_over-update running_weight s.pc (step c loops s.shared p).1 cpu n lt,
          ap running_weight e,
        );
        rounds = λ j. elim (Bool-cases (cpu == j)) [
          | inl same ↦ rw same q.in_round
          | inr other ↦ rw other (inv.rounds j)
        ];
      }

  Steps-Inv : {n : ℕ} {s t : System c loops} → Inv n s → Steps c loops n s t → Inv n t
  Steps-Inv inv here = inv
  Steps-Inv inv (later r st) = Step-Inv (Steps-Inv inv r) st

  launch-Inv : (n check : ℕ) (start : Shared W) → Inv n (launch c loops n check start)
  unfolding launch
  launch-Inv n check start = record {
    ncpus_running = omega (arith, sum_over_const running_weight n (ready 0));
    rounds = λ _. omega arith;
  }

  pub number_of_steps : {n : ℕ} {s t : System c loops} → Steps c loops n s t → ℕ
  number_of_steps here = 0
  number_of_steps (later r st) = number_of_steps r + 1

  Steps-spend :
      {n : ℕ} {s t : System c loops}
      → Inv n s
      → (r : Steps c loops n s t)
      → number_of_steps r + sum_over moves_left n t.pc ≤ sum_over moves_left n s.pc
  unfolding number_of_steps
  Steps-spend inv here = omega arith
  Steps-spend {n} inv (later {t} r (run cpu {p} lt e going)) = omega (
    arith,
    Steps-spend inv r,
    (Step-Counts cpu (Steps-Inv inv r) lt e going).fewer,
    sum_over-update moves_left t.pc (step c loops t.shared p).1 cpu n lt,
    ap moves_left e,
  )

  -- Every interleaving ends: `n` processors make at most `4 * loops + 1` moves each.
  pub Steps-bounded :
      (n check : ℕ) (start : Shared W) {s : System c loops}
      → (r : Steps c loops n (launch c loops n check start) s)
      → number_of_steps r ≤ n * (4 * loops + 1)
  unfolding launch
  Steps-bounded n check start r =
      let whole : loops - 0 ≡ loops = omega arith in
      omega (
        arith,
        Steps-spend (launch-Inv n check start) r,
        sum_over_const moves_left n (ready 0),
        ap (λ k. n * (4 * k + 1)) whole,
      )

  -- When `cycle_test` finds `ncpus` at zero, every processor that it started has left the loop.
  pub wait_ends_finished :
      (n check : ℕ) (start : Shared W) {s : System c loops} (cpu : ℕ)
      → Steps c loops n (launch c loops n check start) s
      → s.shared.info.ncpus ≡ 0
      → cpu < n
      → s.pc cpu ≡ finished
  wait_ends_finished n check start {s} cpu r e lt =
      let inv = Steps-Inv (launch-Inv n check start) r in
      weightless (s.pc cpu)
        (sum_over_zero running_weight n s.pc cpu lt (omega (arith, inv.ncpus_running)))
