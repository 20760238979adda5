-- ===== src/PvClock/Ordered.antt =====
-- kvmclock_test.c: what the locals of a call of `pvclock_clocksource_read` say of `last_value`, and
-- that each of its moves keeps it.
use pcm_test.Base.{ℕ, ◌≤◌, ◌≡◌, Bool, false, arith}
use pcm_test.PvClock.{Pc, idle, sampled, loading, comparing, swapping, returned, trusts, move}

-- What a call's locals say of `last_value`; the flags of a sample are not trusted.
abbrev pub IsOrdered : (ℕ → Bool) → ℕ → Pc → Type 0
IsOrdered trust value idle = Unit
IsOrdered trust value (sampled ret flags) = trust flags ≡ false
IsOrdered trust value (loading ret) = Unit
IsOrdered trust value (comparing ret last) = last ≤ value
IsOrdered trust value (swapping ret last) = (last ≤ value) × (last ≤ ret)
IsOrdered trust value (returned result) = result ≤ value

-- A call that has read `last_value` has seen at least `bound`.
abbrev pub HasSeen : ℕ → Pc → Type 0
HasSeen bound (comparing ret last) = bound ≤ last
HasSeen bound (swapping ret last) = bound ≤ last
HasSeen bound (returned result) = bound ≤ result
HasSeen bound _ = Unit

module _ (stable_bit valid_flags : ℕ) where
  abbrev pub trust : ℕ → Bool
  trust = trusts stable_bit valid_flags

  abbrev pub after : ℕ → Pc → ℕ
  after value p = (move stable_bit valid_flags value p).0

  pub move-le : (value : ℕ) (p : Pc) → IsOrdered trust value p → value ≤ after value p
  unfolding move
  move-le value (swapping ret last) h = ground arith
  move-le value idle h = omega arith
  move-le value (sampled _ _) h = omega arith
  move-le value (loading _) h = omega arith
  move-le value (comparing _ _) h = omega arith
  move-le value (returned _) h = omega arith

  pub move-IsOrdered :
      (value : ℕ) (p : Pc)
      → IsOrdered trust value p
      → IsOrdered trust (after value p) (move stable_bit valid_flags value p).1
  unfolding move
  move-IsOrdered value idle h = tt
  move-IsOrdered value (sampled _ _) h = rw h tt
  move-IsOrdered value (loading _) h = omega arith
  move-IsOrdered value (comparing ret last) h = ground arith
  move-IsOrdered value (swapping ret last) h = ground arith
  move-IsOrdered value (returned _) h = h

  pub move-HasSeen :
      (bound value : ℕ) (p : Pc)
      → bound ≤ value
      → IsOrdered trust value p
      → HasSeen bound p
      → HasSeen bound (move stable_bit valid_flags value p).1
  unfolding move
  move-HasSeen bound value idle le o h = tt
  move-HasSeen bound value (sampled _ _) le o h = rw o tt
  move-HasSeen bound value (loading _) le o h = le
  move-HasSeen bound value (comparing ret last) le o h = ground arith
  move-HasSeen bound value (swapping ret last) le o h = ground arith
  move-HasSeen bound value (returned _) le o h = h

pub IsOrdered-mono :
    (trust : ℕ → Bool) (v w : ℕ) (p : Pc) → v ≤ w → IsOrdered trust v p → IsOrdered trust w p
IsOrdered-mono trust v w idle le h = tt
IsOrdered-mono trust v w (sampled _ _) le h = h
IsOrdered-mono trust v w (loading _) le h = tt
IsOrdered-mono trust v w (comparing ret last) le h = omega arith
IsOrdered-mono trust v w (swapping ret last) le h = omega arith
IsOrdered-mono trust v w (returned _) le h = omega arith
