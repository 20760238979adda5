-- ===== src/Base/Bits.antt =====
-- Bit operations: a check of every value of a small word, and the laws of a mask of one bit at every
-- width, from the binary digits that `bit_and` is defined by.
use Prim.Native.Nat.{
  ℕ, zero, suc, ◌+◌, ◌*◌, ◌/◌, ◌%◌, ◌^◌, ◌≤◌, ◌<◌, min, bit_and, digits, bit_and-bitwise,
}
use native.Mathlib.Nat.{pow-succ', div-div-eq-div-mul}
use mathlib.Core.Path.{◌≡◌, refl, ap, sym, ◌∙◌}
use mathlib.Core.Bool.{Bool, true, false}
use native.Mathlib.Omega.{arith}
use native.Mathlib.Decide.{ℕ_discrete}
use pcm_test.Base.Tests.{if◌then◌else◌}

-- A test that every number below a bound passes.
unfoldable pub passes_below : (ℕ → Bool) → ℕ → Bool
passes_below test zero = true
passes_below test (suc bound) =
    let others = passes_below test bound in if test bound then others else false

pub passes_below_lem :
    (test : ℕ → Bool) (bound : ℕ)
    → passes_below test bound ≡ true
    → (v : ℕ) → v < bound
    → test v ≡ true
unfolding passes_below
passes_below_lem test zero all v below = elim below [ ]
passes_below_lem test (suc bound) all v below =
    let here : test bound ≡ true = ground arith in
    let others : passes_below test bound ≡ true = ground arith in
    elim (ℕ_discrete v bound) [
      | yes last ↦ ap test last ∙ here
      | no earlier ↦ passes_below_lem test bound others v (omega arith)
    ]

-- The digits of a conjunction, computed with room for `room` digits.
abbrev conjoin : ℕ → ℕ → ℕ → ℕ
conjoin room a b = digits (λ _. zero) min room a b

conjoin-zero : (room b : ℕ) → conjoin room zero b ≡ zero
conjoin-zero zero b = refl
conjoin-zero (suc room) b = refl

-- More room than the first number has digits makes no difference.
conjoin_roomy : (less more a b : ℕ) → a ≤ less → less ≤ more → conjoin more a b ≡ conjoin less a b
conjoin_roomy less more zero b fits le = conjoin-zero more b ∙ sym (conjoin-zero less b)
conjoin_roomy zero more (suc a) b fits le = elim fits [ ]
conjoin_roomy (suc less) zero (suc a) b fits le = elim le [ ]
conjoin_roomy (suc less) (suc more) (suc a) b fits le =
    ap (λ high. high * 2 + min (suc a % 2) (b % 2))
      (conjoin_roomy less more (suc a / 2) (b / 2) (omega arith) (omega arith))

pub zero-bit_and : (b : ℕ) → bit_and 0 b ≡ 0
zero-bit_and b = bit_and-bitwise 0 b

-- A conjunction is that of the numbers without their lowest digits, and the lowest digits'.
pub bit_and_low_digit : (b a : ℕ) → bit_and a b ≡ min (a % 2) (b % 2) + 2 * bit_and (a / 2) (b / 2)
bit_and_low_digit b zero = rw (zero-bit_and b, zero-bit_and (b / 2)) (omega arith)
bit_and_low_digit b (suc a) =
    let halves : conjoin (suc a) (suc a) b
        ≡ conjoin (suc a / 2) (suc a / 2) (b / 2) * 2 + min (suc a % 2) (b % 2) =
      ap (λ high. high * 2 + min (suc a % 2) (b % 2))
        (conjoin_roomy (suc a / 2) a (suc a / 2) (b / 2) (omega arith) (omega arith)) in
    rw (bit_and-bitwise (suc a) b, bit_and-bitwise (suc a / 2) (b / 2)) (omega (arith, halves))

bit_and_nothing : (room a : ℕ) → a ≤ room → bit_and a 0 ≡ 0
bit_and_nothing room zero h = refl
bit_and_nothing zero (suc a) h = elim h [ ]
bit_and_nothing (suc room) (suc a) h =
    rw (bit_and_low_digit 0 (suc a), bit_and_nothing room (suc a / 2) (omega arith)) (omega arith)

-- `a & (1 << k)` is bit `k` of `a`, in its place.
pub bit_and-pow : (k a : ℕ) → bit_and a (2 ^ k) ≡ a / 2 ^ k % 2 * 2 ^ k
bit_and-pow zero a =
    omega (arith, bit_and_low_digit 1 a, bit_and_nothing (a / 2) (a / 2) (omega arith))
bit_and-pow (suc k) a =
    let halved : 2 * 2 ^ k / 2 ≡ 2 ^ k = omega arith in
    let low : bit_and a (2 * 2 ^ k) ≡ 2 * bit_and (a / 2) (2 ^ k) =
      rw (bit_and_low_digit (2 * 2 ^ k) a, halved) (omega arith) in
    rw (pow-succ' 2 k, low, bit_and-pow k (a / 2), ← div-div-eq-div-mul a 2 (2 ^ k)) (omega arith)

pub bit_and-one : (a : ℕ) → bit_and a 1 ≡ a % 2
bit_and-one a = omega (arith, bit_and-pow 0 a)
