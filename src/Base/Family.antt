-- ===== src/Base/Family.antt =====
-- Families indexed by numbers: processors, registers, addresses.
use Prim.Native.Nat.{ℕ, zero, suc, ◌+◌, ◌*◌, ◌≤◌, ◌<◌}
use mathlib.Core.Path.{◌≡◌, ap, refl}
use mathlib.Core.Logic.{◌≢◌, ◌⊎◌, inl, inr}
use native.Mathlib.Omega.{arith}
use native.Mathlib.Decide.{dec_lt}
use pcm_test.Base.Tests.{◌==◌, if◌then◌else◌, Bool-cases, ==_iff}

module _ {ℓ} {A : Type ℓ} where
  abbrev pub update : (ℕ → A) → ℕ → A → ℕ → A
  update f i a j = if i == j then a else f j

  pub update_self : (f : ℕ → A) (i : ℕ) (a : A) → update f i a i ≡ a
  update_self f i a = ground arith

  pub update_ne : (f : ℕ → A) (i : ℕ) (a : A) (j : ℕ) → i ≢ j → update f i a j ≡ f j
  update_ne f i a j h = ground arith

-- A weight summed over the first `n` members.
module _ {ℓ} {A : Type ℓ} (weight : A → ℕ) where
  pub sum_over : ℕ → (ℕ → A) → ℕ
  sum_over zero f = 0
  sum_over (suc n) f = weight (f n) + sum_over n f

  sum_over-update_above :
      (f : ℕ → A) (a : A) (i n : ℕ) → n ≤ i → sum_over n (update f i a) ≡ sum_over n f
  unfolding sum_over
  sum_over-update_above f a i zero h = omega arith
  sum_over-update_above f a i (suc n) h = ground (arith, sum_over-update_above f a i n)

  pub sum_over-update :
      (f : ℕ → A) (a : A) (i n : ℕ)
      → i < n
      → weight a + sum_over n f ≡ weight (f i) + sum_over n (update f i a)
  unfolding sum_over
  sum_over-update f a i zero h = elim h [ ]
  sum_over-update f a i (suc n) h = elim (Bool-cases (i == n)) [
    | inl last ↦
        ground (arith, sum_over-update_above f a i n, ap (λ k. weight (f k)) ((==_iff i n).0 last))
    | inr below ↦ ground (arith, sum_over-update f a i n)
  ]

  pub sum_over_zero : (n : ℕ) (f : ℕ → A) (i : ℕ) → i < n → sum_over n f ≡ 0 → weight (f i) ≡ 0
  unfolding sum_over
  sum_over_zero zero f i h e = elim h [ ]
  sum_over_zero (suc n) f i h e = elim (Bool-cases (i == n)) [
    | inl last ↦ ground (arith, ap (λ k. weight (f k)) ((==_iff i n).0 last))
    | inr below ↦ ground (arith, sum_over_zero n f i)
  ]

  pub sum_over_const : (n : ℕ) (a : A) → sum_over n (λ _. a) ≡ n * weight a
  unfolding sum_over
  sum_over_const zero a = omega arith
  sum_over_const (suc n) a = omega (arith, sum_over_const n a)

  -- Either nothing has a weight, or some member has.
  pub sum_over_find :
      (n : ℕ) (f : ℕ → A) → (sum_over n f ≡ 0) ⊎ ((i : ℕ) × (i < n) × (0 < weight (f i)))
  unfolding sum_over
  sum_over_find zero f = inl refl
  sum_over_find (suc n) f = elim (dec_lt 0 (weight (f n))) [
    | yes some ↦ inr (n, omega arith, some)
    | no none_here ↦ elim (sum_over_find n f) [
      | inl none_below ↦ inl (omega arith)
      | inr (i, lt, some) ↦ inr (i, omega arith, some)
    ]
  ]
