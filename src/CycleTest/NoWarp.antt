-- ===== src/CycleTest/NoWarp.antt =====
-- kvmclock_test.c: `kvm_clock_test` counts a warp exactly when the clock went back.
use pcm_test.Base.{
  ℕ, ◌+◌, ◌%◌, ◌≤◌, ◌<◌, ◌≡◌, ◌^◌, refl, ◌∙◌, false, inl, inr, Bool-cases, subst, arith, ltb, ◌==◌,
  if◌then◌else◌,
}
use native.Mathlib.Nat.{le_trans}
use pcm_test.Base.Int.{is_negative, is_zero}
use pcm_test.CycleTest.{
  Clock, IsMonotone, TestInfo, Shared, Pc, ready, measured, judged, stalling, finished, delta,
  sample, judge, step, System, Step, run, Steps, here, later, launch, cycle_result,
}

-- Below 2^63 the sign of the difference tells which time is the earlier one.
pub delta_sign : (t1 t0 : ℕ) → t1 < 2 ^ 63 → t0 < 2 ^ 63 → is_negative (delta t1 t0) ≡ ltb t1 t0
delta_sign t1 t0 h k = ground arith

le→ltb : (a b : ℕ) → b ≤ a → ltb a b ≡ false
le→ltb a b h = ground arith

pub cycle_result-no_warps : (info : TestInfo) → info.warps ≡ 0 → cycle_result info ≡ 0
unfolding cycle_result
cycle_result-no_warps info h = rw h refl

module _ {W : Type 0} (c : Clock W) (loops : ℕ) where
  -- For times below 2^63, the second critical section counts a warp exactly when the round's time is
  -- before the one that it found in `last`, and changes neither `last` nor the stall counter.
  pub warp_counted_exactly :
      (s : Shared W) (i t1 t0 : ℕ)
      → t1 < 2 ^ 63
      → t0 < 2 ^ 63
      → let info = (step c loops s (measured i t1 t0)).0.info in
        (info.warps ≡ (if ltb t1 t0 then (s.info.warps + 1) % 2 ^ 64 else s.info.warps))
        × (info.last ≡ s.info.last)
        × (info.stalls ≡ s.info.stalls)
  unfolding step
  warp_counted_exactly s i t1 t0 h k = rw (delta_sign t1 t0 h k, judge) (ground arith)

-- The two times of a round that a monotone clock gives.
abbrev InOrder : Pc → Type 0
InOrder (measured i t1 t0) = (t0 ≤ t1) × (t1 < 2 ^ 63)
InOrder _ = Unit

module _ {W : Type 0} (c : Clock W) (m : IsMonotone c) (loops : ℕ) where
  open m use {floor, InRange, floor-le-read, read-le-floor, read-InRange, read-lt}

  abbrev IsBehind : Shared W → Type 0
  IsBehind s = (s.info.last ≤ floor s.clock) × InRange s.clock

  -- What a move leaves as it was.
  record Quiet (s : Shared W) (after : Shared W × Pc) : Type 0 where
    same_warps : after.0.info.warps ≡ s.info.warps
    same_lines : after.0.worst_warps ≡ s.worst_warps
    behind : IsBehind after.0
    in_order : InOrder after.1
    rises : floor s.clock ≤ floor after.0.clock

  read_rises : (w : W) → floor w ≤ floor (c.read w).1
  read_rises w = le_trans (floor-le-read w) (read-le-floor w)

  sample-Quiet : (i : ℕ) (s : Shared W) → IsBehind s → Quiet s (sample c i s)
  unfolding sample
  sample-Quiet i s h = record {
    same_warps = refl;
    same_lines = refl;
    behind = (read-le-floor (c.read s.clock).1, read-InRange _ (read-InRange s.clock h.1));
    in_order = (le_trans h.0 (floor-le-read s.clock), read-lt s.clock h.1);
    rises = le_trans (read_rises s.clock) (read_rises (c.read s.clock).1);
  }

  unmoved : (s : Shared W) (p : Pc) → IsBehind s → InOrder p → Quiet s (s, p)
  unmoved s p h o = record {
    same_warps = refl;
    same_lines = refl;
    behind = h;
    in_order = o;
    rises = omega arith;
  }

  step-Quiet : (s : Shared W) (p : Pc) → IsBehind s → InOrder p → Quiet s (step c loops s p)
  unfolding step
  step-Quiet s (ready i) h o = elim (Bool-cases (ltb i loops)) [
    | inl more ↦ elim (Bool-cases (s.info.check == 0)) [
      | inl plain ↦
          rw (more, plain)
            (record {
              same_warps = refl;
              same_lines = refl;
              behind = (le_trans h.0 (read_rises s.clock), read-InRange s.clock h.1);
              in_order = tt;
              rises = read_rises s.clock;
            })
      | inr checked ↦ rw (more, checked) (sample-Quiet i s h)
    ]
    | inr end ↦ rw end (record {
      same_warps = refl;
      same_lines = refl;
      behind = h;
      in_order = tt;
      rises = omega arith;
    })
  ]
  step-Quiet s (measured i t1 t0) h o =
      let forward : is_negative (delta t1 t0) ≡ false =
        delta_sign t1 t0 o.1 (omega arith) ∙ le→ltb t1 t0 o.0 in
      rw (forward, judge) (unmoved s _ h tt)
  step-Quiet s (judged i t1 t0) h o = elim (Bool-cases (is_zero (delta t1 t0))) [
    | inl zero_delta ↦ rw zero_delta (unmoved s _ h tt)
    | inr moved ↦ rw moved (unmoved s _ h tt)
  ]
  step-Quiet s (stalling i n) h o = record {
    same_warps = refl;
    same_lines = refl;
    behind = h;
    in_order = tt;
    rises = omega arith;
  }
  step-Quiet s finished h o = unmoved s _ h tt

  record Inv (start : Shared W) (s : System c loops) : Type 0 where
    warps_kept : s.shared.info.warps ≡ start.info.warps
    lines_kept : s.shared.worst_warps ≡ start.worst_warps
    stays_behind : IsBehind s.shared
    stays_in_order : (cpu : ℕ) → InOrder (s.pc cpu)
    has_risen : floor start.clock ≤ floor s.shared.clock

  Step-Inv :
      {n : ℕ} (start : Shared W) {s t : System c loops}
      → Inv start s
      → Step c loops n s t
      → Inv start t
  Step-Inv start {s} inv (run cpu {p} lt e going) =
      let q = step-Quiet s.shared p inv.stays_behind (subst InOrder e (inv.stays_in_order cpu)) in
      record {
        warps_kept = q.same_warps ∙ inv.warps_kept;
        lines_kept = q.same_lines ∙ inv.lines_kept;
        stays_behind = q.behind;
        stays_in_order = λ j. elim (Bool-cases (cpu == j)) [
          | inl same ↦ rw same q.in_order
          | inr other ↦ rw other (inv.stays_in_order j)
        ];
        has_risen = le_trans inv.has_risen q.rises;
      }

  Steps-Inv :
      {n : ℕ} (start : Shared W) {s t : System c loops}
      → Inv start s
      → Steps c loops n s t
      → Inv start t
  Steps-Inv start inv here = inv
  Steps-Inv start inv (later r st) = Step-Inv start (Steps-Inv start inv r) st

  launch-Inv :
      (n check : ℕ) (start : Shared W) → IsBehind start → Inv start (launch c loops n check start)
  unfolding launch
  launch-Inv n check start h = record {
    warps_kept = refl;
    lines_kept = refl;
    stays_behind = h;
    stays_in_order = λ _. tt;
    has_risen = omega arith;
  }

  -- On a clock that never goes back and is in range, with `last` not ahead of it, no interleaving
  -- of the processors counts a warp or prints one: `cycle_test` returns 0 if no warp had been counted.
  pub monotone_clock_passes :
      (n check : ℕ) (start : Shared W) {s : System c loops}
      → start.info.last ≤ floor start.clock
      → InRange start.clock
      → start.info.warps ≡ 0
      → Steps c loops n (launch c loops n check start) s
      → (cycle_result s.shared.info ≡ 0) × (s.shared.worst_warps ≡ start.worst_warps)
  monotone_clock_passes n check start {s} h in_range none_yet r =
      let inv = Steps-Inv start (launch-Inv n check start (h, in_range)) r in
      (cycle_result-no_warps s.shared.info (inv.warps_kept ∙ none_yet), inv.lines_kept)

  -- Such a clock and its `last` stay so, the clock has not gone back, and the warps are as before.
  pub monotone_clock_kept :
      (n check : ℕ) (start : Shared W) {s : System c loops}
      → start.info.last ≤ floor start.clock
      → InRange start.clock
      → Steps c loops n (launch c loops n check start) s
      → (s.shared.info.warps ≡ start.info.warps)
        × (s.shared.info.last ≤ floor s.shared.clock)
        × InRange s.shared.clock
        × (floor start.clock ≤ floor s.shared.clock)
  monotone_clock_kept n check start h in_range r =
      let inv = Steps-Inv start (launch-Inv n check start (h, in_range)) r in
      (inv.warps_kept, inv.stays_behind.0, inv.stays_behind.1, inv.has_risen)
