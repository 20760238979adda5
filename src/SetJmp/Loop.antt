-- ===== src/SetJmp/Loop.antt =====
-- pcm-unit/driver/setjmp.c: what the test prints.
use pcm_test.Base.{
  ℕ, zero, suc, ◌+◌, ◌%◌, ◌^◌, ◌≤◌, ◌≡◌, ◌∙◌, ap, List, [], ◌∷◌, ◌++◌, append_assoc, Option, some,
  true, ltb, arith,
}
use pcm_test.Base.Kernel.{Sys, Line}
use pcm_test.SetJmp.{after_setjmp, test_setjmp}

-- The lines of so many numbers from one on, and the last line.
abbrev pub count : ℕ → ℕ → List Line
count i zero = record { format = "done\n"; values = [] } ∷ []
count i (suc n) = record { format = "%d\n"; values = i ∷ [] } ∷ count (i + 1) n

module _ {W : Type 0} where
  abbrev logged : Sys W → List Line → Sys W
  logged s lines = record s { log = s.log ++ lines }

  joined :
      (s : Sys W) (one : Line) (lines : List Line)
      → ◌≡◌ {A = Option (Unit {0}) × Sys W}
          (some tt, logged (logged s (one ∷ [])) lines)
          (some tt, logged s (one ∷ lines))
  joined s one lines =
      ap (λ l. (some tt, record s { log = l })) (append_assoc s.log (one ∷ []) lines)

  from_lem :
      (n i jumps : ℕ) (s : Sys W)
      → i + suc n ≡ 10
      → n ≤ jumps
      → after_setjmp jumps 1 i s ≡ (some tt, record s { log = s.log ++ count i (suc n) })
  unfolding after_setjmp
  from_lem zero i zero s e h =
      let over : (i + 1) % 2 ^ 32 ≡ 10 = omega arith in rw over (joined s _ _)
  from_lem zero i (suc jumps) s e h =
      let over : (i + 1) % 2 ^ 32 ≡ 10 = omega arith in rw over (joined s _ _)
  from_lem (suc n) i zero s e h = ground arith
  from_lem (suc n) i (suc jumps) s e h =
      let next : (i + 1) % 2 ^ 32 ≡ i + 1 = omega arith in
      let more : ltb (i + 1) 10 ≡ true = ground arith in
      rw (next, more)
        (from_lem n (i + 1) jumps (logged s _) (omega arith) (omega arith) ∙ joined s _ _)

  -- With nine jumps or more to make, the test ends, after it has printed the numbers from 0 to 9 and
  -- "done".
  pub test_setjmp_lem :
      (jumps i : ℕ) (s : Sys W)
      → 9 ≤ jumps
      → test_setjmp jumps i s ≡ (some tt, record s { log = s.log ++ count 0 10 })
  unfolding test_setjmp after_setjmp
  test_setjmp_lem zero i s h = ground arith
  test_setjmp_lem (suc jumps) i s h =
      from_lem 8 1 jumps (logged s _) (omega arith) (omega arith) ∙ joined s _ _
