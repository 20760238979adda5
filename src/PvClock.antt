-- ===== src/PvClock.antt =====
-- pcm-unit/driver/kvmclock_test.c: the paravirtual clock. A call of `pvclock_clocksource_read` is a
-- state machine whose moves are its accesses to `last_value`, so that calls on several processors can
-- be interleaved. Times are u64 values and only compared here; `last_value` is always such a value.
pub mod Single
pub mod System
mod Ordered
pub mod Monotone
pub mod Flags
pub mod WallClock
pub mod SharedClock
mod Tests
use pcm_test.Base.{
  ℕ, zero, suc, ◌^◌, Bool, true, false, not, ◌&&◌, ◌||◌, Option, none, some, List, [], ◌∷◌, bit_and,
  ltb, ◌==◌, if◌then◌else◌,
}

-- `PVCLOCK_RAW_CYCLE_BIT`
abbrev pub raw_cycle_bit : ℕ
raw_cycle_bit = 2 ^ 7

-- What one round of the retry loop sees: what `__pvclock_read_cycles` returns and stores, and the two
-- reads of `src->version` in the loop's test.
pub record Attempt : Type 0 where
  pub version : ℕ
  pub cycles : ℕ
  pub flags : ℕ
  pub version_parity : ℕ
  pub version_again : ℕ

-- `(src->version & 1) || version != src->version`
unfoldable pub retry : Attempt → Bool
retry a = not (bit_and a.version_parity 1 == 0) || not (a.version == a.version_again)

-- The first loop of `pvclock_clocksource_read`; `none`: the attempts given are used up.
pub read_cycles : List Attempt → Option (Attempt × List Attempt)
unfolding retry
read_cycles [] = none
read_cycles (a ∷ rest) = elim (retry a) [ true ↦ read_cycles rest | false ↦ some (a, rest) ]

-- Where a call stands, with the local variables that are live there.
pub data Pc : Type 0 where
  idle : Pc  -- no call
  sampled : (ret flags : ℕ) → Pc  -- after the first loop
  loading : (ret : ℕ) → Pc  -- before `atomic64_read`
  comparing : (ret last : ℕ) → Pc  -- head of the second loop
  swapping : (ret last : ℕ) → Pc  -- before `atomic64_cmpxchg`
  returned : (result : ℕ) → Pc

-- `atomic64_cmpxchg(&last_value, expected, new)`: the new contents; it returns the old ones.
abbrev pub cmpxchg : ℕ → ℕ → ℕ → ℕ
cmpxchg value expected new = if value == expected then new else value

-- `stable_bit` is `PVCLOCK_TSC_STABLE_BIT` of the kernel's pvclock-abi.h.
module _ (stable_bit valid_flags : ℕ) where
  unfoldable pub trusts : ℕ → Bool
  trusts flags = not (bit_and valid_flags stable_bit == 0) && not (bit_and flags stable_bit == 0)

  -- One move of a call, over the shared `last_value`.
  pub move : ℕ → Pc → ℕ × Pc
  move value idle = (value, idle)
  move value (sampled ret flags) = (value, if trusts flags then returned ret else loading ret)
  move value (loading ret) = (value, comparing ret value)
  move value (comparing ret last) =
      (value, if ltb ret last then returned last else swapping ret last)
  move value (swapping ret last) =
      (cmpxchg value last ret, if value == ret then returned ret else comparing ret value)
  move value (returned result) = (value, returned result)

  pub moves : ℕ → ℕ → Pc → ℕ × Pc
  moves zero value pc = (value, pc)
  moves (suc n) value pc = moves n (move value pc).0 (move value pc).1

  abbrev pub result_of : Pc → Option ℕ
  result_of (returned result) = some result
  result_of _ = none

  -- A whole call with no other processor in between: the new `last_value`, and the result, if
  -- `fuel` moves were enough and the attempts contained one that is accepted.
  pub pvclock_clocksource_read : ℕ → ℕ → List Attempt → ℕ × Option ℕ
  unfolding read_cycles
  pvclock_clocksource_read fuel value attempts = elim (read_cycles attempts) [
    | none ↦ (value, none)
    | some (a, rest) ↦
        let last = moves fuel value (sampled a.cycles a.flags) in (last.0, result_of last.1)
  ]
