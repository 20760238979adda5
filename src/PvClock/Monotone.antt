-- ===== src/PvClock/Monotone.antt =====
-- kvmclock_test.c: the clock never goes back, in every interleaving of its calls.
use pcm_test.Base.{ℕ, ◌≤◌, ◌<◌, ◌≡◌, ◌≢◌, Bool, subst, inl, inr, ==_iff, Bool-cases, arith, ◌==◌}
use pcm_test.PvClock.{idle, swapping, returned, trusts, cmpxchg}
use pcm_test.PvClock.System.{Clocks, Step, call, go, finish, Steps, here, later, IsAdjusted, quiet}
use pcm_test.PvClock.Ordered.{
  IsOrdered, HasSeen, move-le, move-IsOrdered, move-HasSeen, IsOrdered-mono,
}

module _ (stable_bit valid_flags : ℕ) (Host : ℕ → ℕ → Type 0) where
  abbrev pub trust_host : ℕ → Bool
  trust_host = trusts stable_bit valid_flags

  abbrev pub Inv : Clocks → Type 0
  Inv s = (cpu : ℕ) → IsOrdered trust_host s.last_value (s.pc cpu)

  Step-le :
      {s t : Clocks} → Inv s → Step stable_bit valid_flags Host s t → s.last_value ≤ t.last_value
  Step-le inv (call cpu ret flags e h) = omega arith
  Step-le {s} inv (go cpu {p} e) =
      move-le stable_bit valid_flags s.last_value p
        (subst (IsOrdered trust_host s.last_value) e (inv cpu))
  Step-le inv (finish cpu result e) = omega arith

  Step-Inv :
      IsAdjusted stable_bit valid_flags Host
      → {s t : Clocks} → Inv s
      → Step stable_bit valid_flags Host s t
      → Inv t
  Step-Inv adjusted inv (call cpu ret flags e h) j = elim (Bool-cases (cpu == j)) [
    | inl same ↦ rw same (adjusted ret flags h)
    | inr other ↦ rw other (inv j)
  ]
  Step-Inv adjusted {s} inv (go cpu {p} e) j = elim (Bool-cases (cpu == j)) [
    | inl same ↦ rw same (
        move-IsOrdered stable_bit valid_flags s.last_value p
          (subst (IsOrdered trust_host s.last_value) e (inv cpu)))
    | inr other ↦
        rw other
          (IsOrdered-mono trust_host s.last_value _ (s.pc j) (Step-le inv (go cpu e)) (inv j))
  ]
  Step-Inv adjusted inv (finish cpu result e) j = elim (Bool-cases (cpu == j)) [
    | inl same ↦ rw same tt
    | inr other ↦ rw other (inv j)
  ]

  pub Steps-Inv :
      IsAdjusted stable_bit valid_flags Host
      → {s t : Clocks} → Inv s
      → Steps stable_bit valid_flags Host s t
      → Inv t
  Steps-Inv adjusted inv here = inv
  Steps-Inv adjusted inv (later r st) = Step-Inv adjusted (Steps-Inv adjusted inv r) st

  Steps-le :
      IsAdjusted stable_bit valid_flags Host
      → {s t : Clocks} → Inv s
      → Steps stable_bit valid_flags Host s t
      → s.last_value ≤ t.last_value
  Steps-le adjusted inv here = omega arith
  Steps-le adjusted inv (later r st) =
      omega (arith, Steps-le adjusted inv r, Step-le (Steps-Inv adjusted inv r) st)

  Step-HasSeen :
      {s t : Clocks} (bound cpu : ℕ)
      → Inv s
      → bound ≤ s.last_value
      → Step stable_bit valid_flags Host s t
      → HasSeen bound (s.pc cpu)
      → HasSeen bound (t.pc cpu)
  Step-HasSeen bound j inv le (call cpu ret flags e h) seen = elim (Bool-cases (cpu == j)) [
    | inl same ↦ rw same tt
    | inr other ↦ rw other seen
  ]
  Step-HasSeen {s} bound j inv le (go cpu {p} e) seen = elim (Bool-cases (cpu == j)) [
    | inl same ↦
        let q : s.pc j ≡ p = subst (λ k. s.pc k ≡ p) ((==_iff cpu j).0 same) e in
        rw same (
          move-HasSeen stable_bit valid_flags bound s.last_value p le
            (subst (IsOrdered trust_host s.last_value) q (inv j)) (subst (HasSeen bound) q seen))
    | inr other ↦ rw other seen
  ]
  Step-HasSeen bound j inv le (finish cpu result e) seen = elim (Bool-cases (cpu == j)) [
    | inl same ↦ rw same tt
    | inr other ↦ rw other seen
  ]

  Steps-HasSeen :
      IsAdjusted stable_bit valid_flags Host
      → {s t : Clocks} (cpu : ℕ) → Inv s
      → s.pc cpu ≡ idle
      → Steps stable_bit valid_flags Host s t
      → HasSeen s.last_value (t.pc cpu)
  Steps-HasSeen adjusted cpu inv e here = rw e tt
  Steps-HasSeen adjusted {s} cpu inv e (later r st) =
      Step-HasSeen s.last_value cpu (Steps-Inv adjusted inv r) (Steps-le adjusted inv r) st
        (Steps-HasSeen adjusted cpu inv e r)

  -- If the counter is not declared stable, a call that starts after another has returned never
  -- returns less, whether they run on two processors or on one, and whatever else runs before, in
  -- between and after.
  pub returned-le-returned :
      IsAdjusted stable_bit valid_flags Host
      → (value : ℕ) {s t u : Clocks} (first second : ℕ) {a b : ℕ}
      → Steps stable_bit valid_flags Host (quiet value) s
      → s.pc first ≡ returned a
      → Steps stable_bit valid_flags Host s t
      → t.pc second ≡ idle
      → Steps stable_bit valid_flags Host t u
      → u.pc second ≡ returned b
      → a ≤ b
  returned-le-returned adjusted value {s} {t} first second {a} {b} before ea between et after eb =
      let inv = Steps-Inv adjusted (λ _. tt) before in
      omega (
        arith,
        subst (IsOrdered trust_host s.last_value) ea (inv first),
        Steps-le adjusted inv between,
        subst (HasSeen t.last_value) eb
            (Steps-HasSeen adjusted second (Steps-Inv adjusted inv between) et after),
      )

  -- If the counter is not declared stable, the compare-and-exchange of a call leaves `last_value`
  -- at another value than the call's only when someone has raised `last_value` since the call read it.
  pub cmpxchg_fails_behind :
      IsAdjusted stable_bit valid_flags Host
      → (value : ℕ) {s : Clocks} (cpu : ℕ) {ret last : ℕ}
      → Steps stable_bit valid_flags Host (quiet value) s
      → s.pc cpu ≡ swapping ret last
      → cmpxchg s.last_value last ret ≢ ret
      → last < s.last_value
  cmpxchg_fails_behind adjusted value {s} cpu {ret} {last} r e failed =
      let o = subst (IsOrdered trust_host s.last_value) e (Steps-Inv adjusted (λ _. tt) r cpu) in
      ground (arith, o)
