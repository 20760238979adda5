-- ===== src/PvClock/Single.antt =====
-- kvmclock_test.c: a call of `pvclock_clocksource_read` that nothing interrupts.
use Prim.Native.Nat.{max}
use pcm_test.Base.{
  ℕ, zero, suc, ◌-◌, ◌≤◌, ◌≡◌, refl, true, false, some, List, [], ◌∷◌, ◌++◌, if◌then◌else◌, arith,
  All,
}
use pcm_test.PvClock.{
  Attempt, retry, read_cycles, loading, returned, trusts, move, moves, pvclock_clocksource_read,
}

-- The first loop takes the first attempt that its test accepts, and fails only if it rejects all.
pub read_cycles_first :
    (rejected : List Attempt) (a : Attempt) (rest : List Attempt)
    → All (λ b. retry b ≡ true) rejected
    → retry a ≡ false
    → read_cycles (rejected ++ a ∷ rest) ≡ some (a, rest)
unfolding read_cycles
read_cycles_first [] a rest h ok = rw (ok, read_cycles)
read_cycles_first (b ∷ bs) a rest h ok = rw (h.0, read_cycles) (read_cycles_first bs a rest h.1 ok)

module _ (stable_bit valid_flags : ℕ) where
  moves-returned :
      (n value result : ℕ)
      → moves stable_bit valid_flags n value (returned result) ≡ (value, returned result)
  unfolding moves move
  moves-returned zero value result = refl
  moves-returned (suc n) value result = moves-returned n value result

  -- Two rounds of the second loop are enough: the exchange that succeeds, and the one that sees it.
  settles :
      (n value ret : ℕ)
      → moves stable_bit valid_flags (suc (suc (suc (suc (suc n))))) value (loading ret)
        ≡ (max value ret, returned (max value ret))
  unfolding moves move
  settles n value ret = ground (
    arith,
    moves-returned n ret ret,
    moves-returned n value ret,
    moves-returned (suc n) value ret,
    moves-returned (suc (suc n)) value ret,
    moves-returned (suc (suc (suc n))) value value,
  )

  uninterrupted :
      (n value : ℕ) (attempts : List Attempt) {a : Attempt} {rest : List Attempt}
      → read_cycles attempts ≡ some (a, rest)
      → pvclock_clocksource_read stable_bit valid_flags
          (suc (suc (suc (suc (suc (suc n))))))
          value
          attempts
        ≡ (if trusts stable_bit valid_flags a.flags
            then (value, some a.cycles)
            else (max value a.cycles, some (max value a.cycles)))
  unfolding pvclock_clocksource_read moves move
  uninterrupted n value attempts {a} {rest} h =
      rw (h, pvclock_clocksource_read)
        (ground (
          arith,
          settles n value a.cycles,
          moves-returned (suc (suc (suc (suc (suc n))))) value a.cycles,
        ))

  -- A call that nothing interrupts returns after at most six moves, on the first attempt that the
  -- retry loop accepts. If both the module and the host declare the counter stable, it returns the
  -- cycles of that attempt and leaves `last_value` alone. Otherwise the result and the new
  -- `last_value` are the larger of the old `last_value` and those cycles.
  pub pvclock_clocksource_read_lem :
      (n value : ℕ) (rejected : List Attempt) (a : Attempt) (rest : List Attempt)
      → 6 ≤ n
      → All (λ b. retry b ≡ true) rejected
      → retry a ≡ false
      → pvclock_clocksource_read stable_bit valid_flags n value (rejected ++ a ∷ rest) ≡ (
          if trusts stable_bit valid_flags a.flags
          then (value, some a.cycles)
          else (max value a.cycles, some (max value a.cycles)))
  pvclock_clocksource_read_lem n value rejected a rest enough h ok =
      let e : n ≡ suc (suc (suc (suc (suc (suc (n - 6)))))) = omega arith in
      rw e (uninterrupted (n - 6) value _ (read_cycles_first rejected a rest h ok))
