-- ===== src/PvClock/SharedClock/Refines.antt =====
-- kvmclock_test.c: the calls of pvclock_clocksource_read on any number of processors do what a shared
-- clock may do.
use Prim.Native.Nat.{max}
use mathlib.Core.Path.{fun_ext}
use pcm_test.Base.{
  ℕ, ◌≤◌, ◌≡◌, refl, sym, ap, ◌∙◌, subst, Bool-cases, ==_iff, ◌⊎◌, inl, inr, update, ltb, ◌==◌,
  if◌then◌else◌, arith,
}
use pcm_test.PvClock.{Pc, sampled, loading, comparing, swapping, returned, trusts, move}
use pcm_test.PvClock
use pcm_test.PvClock.Ordered.{IsOrdered}
use pcm_test.PvClock.System.{Clocks, IsAdjusted, quiet, call, go, finish}
use pcm_test.PvClock.System
use pcm_test.PvClock.Monotone.{Inv, trust_host, Steps-Inv}
use pcm_test.PvClock.SharedClock
use pcm_test.PvClock.SharedClock.{
  Call, pending, answered, SharedClock, at_rest, here, later, start, raise, answer,
}

-- A call that has read a later time than its own has its answer.
abbrev pub view : Pc → Call
view PvClock.idle = SharedClock.idle
view (sampled ret flags) = pending ret
view (loading ret) = pending ret
view (comparing ret last) = if ltb ret last then answered last else pending ret
view (swapping ret last) = pending ret
view (returned result) = answered result

abbrev pub shared : Clocks → SharedClock
shared s = record { value = s.last_value; call = λ cpu. view (s.pc cpu) }

-- What a move may do to the clock, and to what is seen of its call.
abbrev Outcome : ℕ → Call → ℕ → Call → Type 0
Outcome v c w d =
    ((w ≡ v) × (d ≡ c))
    ⊎ ((ret : ℕ) × (c ≡ pending ret) × (ret ≤ v) × (w ≡ v) × (d ≡ answered v))
    ⊎ ((ret : ℕ) × (c ≡ pending ret) × (w ≡ max v ret) × (d ≡ c))

module _ (stable_bit valid_flags : ℕ) where
  abbrev moved : ℕ → Pc → ℕ × Pc
  moved = move stable_bit valid_flags

  move-Outcome :
      (v : ℕ) (p : Pc)
      → IsOrdered (trusts stable_bit valid_flags) v p
      → Outcome v (view p) (moved v p).0 (view (moved v p).1)
  unfolding move
  move-Outcome v PvClock.idle o = inl (refl, refl)
  move-Outcome v (sampled ret flags) o = inl (refl, rw o refl)
  move-Outcome v (loading ret) o = elim (Bool-cases (ltb ret v)) [
    | inl late ↦ inr (inl (ret, refl, ground arith, refl, rw late refl))
    | inr ahead ↦ inl (refl, rw ahead refl)
  ]
  move-Outcome v (comparing ret last) o = elim (Bool-cases (ltb ret last)) [
    | inl late ↦ inl (refl, rw late refl)
    | inr ahead ↦ inl (refl, rw ahead refl)
  ]
  move-Outcome v (swapping ret last) o = elim (Bool-cases (v == ret)) [
    | inl own ↦ inr (inl (ret, refl, ground arith, ground arith, rw own (ground arith)))
    | inr other ↦ elim (Bool-cases (v == last)) [
      | inl same ↦ inr (inr (ret, refl, ground arith, rw other (ground arith)))
      | inr changed ↦ elim (Bool-cases (ltb ret v)) [
        | inl late ↦ inr (inl (ret, refl, ground arith, rw changed refl, rw (other, late) refl))
        | inr ahead ↦ inl (rw changed refl, rw (other, ahead) refl)
      ]
    ]
  ]
  move-Outcome v (returned result) o = inl (refl, refl)

-- A function is what it was after an update by its own value, and what is seen of updated calls is the
-- update of what is seen.
update-current : (f : ℕ → Call) (cpu : ℕ) {c : Call} → f cpu ≡ c → update f cpu c ≡ f
update-current f cpu {c} e = fun_ext λ j. elim (Bool-cases (cpu == j)) [
  | inl same ↦ rw same (sym e ∙ ap f ((==_iff cpu j).0 same))
  | inr other ↦ rw other refl
]

shared-update :
    (v : ℕ) (pc : ℕ → Pc) (cpu : ℕ) (p : Pc)
    → ◌≡◌ {A = SharedClock}
        (record { value = v; call = update (λ j. view (pc j)) cpu (view p) })
        (shared (record { last_value = v; pc = update pc cpu p }))
shared-update v pc cpu p =
    ap (λ calls. record { value = v; call = calls })
      (fun_ext
        λ j. elim (Bool-cases (cpu == j)) [ inl same ↦ rw same refl | inr other ↦ rw other refl ])

module _ (stable_bit valid_flags : ℕ) (Host : ℕ → ℕ → Type 0) where
  -- The samples that the host may give.
  abbrev pub Sample : ℕ → Type 0
  Sample ret = (flags : ℕ) × Host ret flags

  -- Where two states agree, one is reached when the other is.
  to_state :
      {s : SharedClock} {v w : ℕ} {calls others : ℕ → Call}
      → v ≡ w
      → calls ≡ others
      → SharedClock.Steps Sample s (record { value = v; call = calls })
      → SharedClock.Steps Sample s (record { value = w; call = others })
  to_state {s} ev ec r =
      subst (SharedClock.Steps Sample s) (λ i. record { value = ev i; call = ec i }) r

  Outcome-Steps :
      (s : SharedClock) (cpu v w : ℕ) {c d : Call}
      → s.value ≡ v
      → s.call cpu ≡ c
      → Outcome v c w d
      → SharedClock.Steps Sample s (record { value = w; call = update s.call cpu d })
  Outcome-Steps s cpu v w ev ec (inl (ew, ed)) =
      to_state (ev ∙ sym ew) (sym (update-current s.call cpu (ec ∙ sym ed))) here
  Outcome-Steps s cpu v w ev ec (inr (inl (ret, ep, le, ew, ed))) =
      to_state (ev ∙ sym ew) (ap (update s.call cpu) (ap answered ev ∙ sym ed))
        (later here (answer cpu ret (ec ∙ ep) (ground (arith, ev, le))))
  Outcome-Steps s cpu v w ev ec (inr (inr (ret, ep, ew, ed))) =
      to_state (ap (λ k. max k ret) ev ∙ sym ew) (sym (update-current s.call cpu (ec ∙ sym ed)))
        (later here (raise cpu ret (ec ∙ ep)))

  Step-Steps :
      {s t : Clocks}
      → Inv stable_bit valid_flags Host s
      → System.Step stable_bit valid_flags Host s t
      → SharedClock.Steps Sample (shared s) (shared t)
  Step-Steps {s} inv (call cpu ret flags e h) =
      subst (SharedClock.Steps Sample (shared s))
        (shared-update s.last_value s.pc cpu (sampled ret flags))
        (later here (start cpu ret (ap view e) (flags, h)))
  Step-Steps {s} inv (go cpu {p} e) =
      subst (SharedClock.Steps Sample (shared s)) (shared-update _ s.pc cpu _) (
        Outcome-Steps (shared s) cpu s.last_value _ refl (ap view e) (
          move-Outcome stable_bit valid_flags s.last_value p
            (subst (IsOrdered (trust_host stable_bit valid_flags Host) s.last_value) e (inv cpu))))
  Step-Steps {s} inv (finish cpu result e) =
      subst (SharedClock.Steps Sample (shared s)) (shared-update s.last_value s.pc cpu PvClock.idle)
        (later here (SharedClock.finish cpu result (ap view e)))

  -- If the counter is not declared stable, then whatever an interleaving of calls of
  -- pvclock_clocksource_read does, a clock that all processors share may do: it raises its value only
  -- to samples of calls that are running, and a call's result is its value at a moment of that call
  -- at which it was not less than the call's sample.
  pub Steps-refine :
      IsAdjusted stable_bit valid_flags Host
      → (value : ℕ) {s : Clocks} → System.Steps stable_bit valid_flags Host (quiet value) s
      → SharedClock.Steps Sample (at_rest value) (shared s)
  Steps-refine adjusted value System.here = here
  Steps-refine adjusted value (System.later r st) =
      SharedClock.Steps-append Sample (Steps-refine adjusted value r)
        (Step-Steps (Steps-Inv stable_bit valid_flags Host adjusted (λ _. tt) r) st)
