-- ===== src/PvClock/Flags.antt =====
-- kvmclock_test.c: `pvclock_set_flags`, and what the flags mean to a read of the clock.

use pcm_test.Base.{
  ℕ, zero, suc, ◌%◌, ◌^◌, ◌<◌, ◌≡◌, refl, true, List, bit_and, bit_or, ◌==◌, ==_iff, passes_below,
  passes_below_lem, Option-cases, inl, inr,
}
use pcm_test.PvClock.{
  raw_cycle_bit, Pc, idle, sampled, loading, comparing, swapping, returned, trusts, move, moves,
  Attempt, read_cycles, pvclock_clocksource_read,
}

-- `valid_flags` is a u8; a call leaves the flags as it got them.
pub pvclock_set_flags : ℕ → ℕ
pvclock_set_flags flags = flags % 2 ^ 8

raw_table :
    passes_below (λ v. bit_and (bit_or v raw_cycle_bit % 2 ^ 8) 1 == bit_and (v % 2 ^ 8) 1) 256
    ≡ true
unfolding passes_below
raw_table = refl

stable-raw :
    (v : ℕ) → v < 2 ^ 8 → bit_and (bit_or v raw_cycle_bit % 2 ^ 8) 1 ≡ bit_and (v % 2 ^ 8) 1
stable-raw v h = (==_iff _ _).0 (passes_below_lem _ 256 raw_table v h)

module _ (v : ℕ) (small : v < 2 ^ 8) where
  abbrev raw : ℕ
  raw = pvclock_set_flags (bit_or v raw_cycle_bit)

  abbrev adjusted : ℕ
  adjusted = pvclock_set_flags v

  trusts-raw : (flags : ℕ) → trusts 1 raw flags ≡ trusts 1 adjusted flags
  unfolding trusts pvclock_set_flags
  trusts-raw flags = rw (stable-raw v small)

  move-raw : (value : ℕ) (p : Pc) → move 1 raw value p ≡ move 1 adjusted value p
  unfolding move
  move-raw value (sampled ret flags) = rw (trusts-raw flags)
  move-raw value idle = refl
  move-raw value (loading ret) = refl
  move-raw value (comparing ret last) = refl
  move-raw value (swapping ret last) = refl
  move-raw value (returned result) = refl

  moves-raw : (n value : ℕ) (p : Pc) → moves 1 raw n value p ≡ moves 1 adjusted n value p
  unfolding moves
  moves-raw zero value p = refl
  moves-raw (suc n) value p = rw (move-raw value p) (moves-raw n _ _)

  -- Where `PVCLOCK_TSC_STABLE_BIT` is bit 0, setting `PVCLOCK_RAW_CYCLE_BIT` as well changes no read
  -- of the clock: the result and the new `last_value` are those without it, for every host.
  pub raw_bit_ignored :
      (fuel value : ℕ) (attempts : List Attempt)
      → pvclock_clocksource_read 1 (pvclock_set_flags (bit_or v raw_cycle_bit)) fuel value attempts
        ≡ pvclock_clocksource_read 1 (pvclock_set_flags v) fuel value attempts
  unfolding pvclock_clocksource_read
  raw_bit_ignored fuel value attempts = elim (Option-cases (read_cycles attempts)) [
    | inl e ↦ rw (e, pvclock_clocksource_read)
    | inr ((a, rest), e) ↦
        rw (e, pvclock_clocksource_read) (rw (moves-raw fuel value (sampled a.cycles a.flags)))
  ]
