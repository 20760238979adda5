-- ===== src/InsTests/Random.antt =====
-- focus_test/driver/rdrand.c: what rdrand_long returns.
use pcm_test.Base.{
  ℕ, zero, suc, ◌<◌, ◌≡◌, refl, ap, ◌∙◌, ◌⊎◌, inl, inr, Bool, true, false, Bool-cases, arith,
}
use pcm_test.Base.Kernel.{Sys}
use pcm_test.InsTests.{Machine, Driver, rdrand_retry_loops, rdrand_rounds, rdrand_long}

module _ {C : Type 0} (x : Machine C) where
  -- What is outside after as many executions of rdrand, and the result of the next one.
  unfoldable pub after_draws : ℕ → C → C
  after_draws zero c = c
  after_draws (suc k) c = after_draws k (x.rdrand c).1

  abbrev pub draw : ℕ → C → Bool × ℕ
  draw k c = (x.rdrand (after_draws k c)).0

  -- What the variable holds after as many executions.
  abbrev pub held : ℕ → ℕ → C → ℕ
  held zero v c = v
  held (suc k) v c = (draw k c).1

  abbrev pub advanced : ℕ → Sys (Driver C) → Sys (Driver C)
  advanced k s = record s { world = record s.world { outer = after_draws k s.world.outer } }

  -- The first `k` executions fail.
  abbrev pub AllFail : ℕ → C → Type 0
  AllFail n c = (k : ℕ) → k < n → (draw k c).0 ≡ false

  -- How a loop of `n` rounds ends: with the first execution that succeeds, or after `n` failures.
  abbrev pub EndsAsDrawn : ℕ → ℕ → Sys (Driver C) → (Bool × ℕ) × Sys (Driver C) → Type 0
  EndsAsDrawn n v s r =
      ((k : ℕ) × (k < n)
        × AllFail k s.world.outer
        × ((draw k s.world.outer).0 ≡ true)
        × (r ≡ ((true, (draw k s.world.outer).1), advanced (suc k) s)))
      ⊎ (AllFail n s.world.outer × (r ≡ ((false, held n v s.world.outer), advanced n s)))

  held-later : (n v : ℕ) (c : C) → held n (draw 0 c).1 (x.rdrand c).1 ≡ held (suc n) v c
  unfolding after_draws
  held-later zero v c = refl
  held-later (suc n) v c = refl

  AllFail-later :
      (n : ℕ) (c : C) → (draw 0 c).0 ≡ false → AllFail n (x.rdrand c).1 → AllFail (suc n) c
  unfolding after_draws
  AllFail-later n c first later zero h = first
  AllFail-later n c first later (suc k) h = later k (omega arith)

  -- A loop that goes on after a failure ends as the rest of it does.
  ends-later :
      (n v : ℕ) (s : Sys (Driver C)) (r : (Bool × ℕ) × Sys (Driver C))
      → (draw 0 s.world.outer).0 ≡ false
      → EndsAsDrawn n (draw 0 s.world.outer).1 (advanced 1 s) r
      → EndsAsDrawn (suc n) v s r
  unfolding after_draws
  ends-later n v s r first (inl (k, h, fails, ok, e)) =
      inl (suc k, omega arith, AllFail-later k s.world.outer first fails, ok, e)
  ends-later n v s r first (inr (fails, e)) = inr (
    AllFail-later n s.world.outer first fails,
    e ∙ ap (λ last. ((false, last), advanced (suc n) s)) (held-later n v s.world.outer),
  )

  rounds_lem : (n v : ℕ) (s : Sys (Driver C)) → EndsAsDrawn n v s (rdrand_rounds x n v s)
  unfolding rdrand_rounds after_draws
  rounds_lem zero v s = inr (λ k h. ground arith, refl)
  rounds_lem (suc n) v s = elim (Bool-cases (draw 0 s.world.outer).0) [
    | inl ok ↦ inl (0, omega arith, λ k h. ground arith, ok, rw ok refl)
    | inr fails ↦
        ends-later n v s _ fails (rw fails (rounds_lem n (draw 0 s.world.outer).1 (advanced 1 s)))
  ]

  -- rdrand_long executes rdrand until it succeeds, ten times at most, and returns true with the value
  -- of the first success; after ten failures it returns false, with the value of the last one.
  pub rdrand_long_lem :
      (v : ℕ) (s : Sys (Driver C)) → EndsAsDrawn rdrand_retry_loops v s (rdrand_long x v s)
  unfolding rdrand_long
  rdrand_long_lem v s = rounds_lem 10 v s
