-- ===== src/Ioapic/Handlers/Thunk/Reach.antt =====
-- ioapic.c: what a processor does that takes an interrupt through an installed entry and thunk.
use pcm_test.Base.{
  ℕ, ◌+◌, ◌-◌, ◌*◌, ◌/◌, ◌%◌, ◌^◌, ◌<◌, ◌≡◌, ap, ◌↔◌, Bool, true, ◌||◌, ◌&&◌, List, [], ◌∷◌, Option,
  none, some, ltb, leb, ◌==◌, if◌then◌else◌, arith,
}
use pcm_test.Ioapic.Handlers.Thunk.{thunk_bytes, displacement}

-- A 32-bit number read from memory, and as a signed one in 64 bits.
abbrev le32 : ℕ → ℕ → ℕ → ℕ → ℕ
le32 b0 b1 b2 b3 = b0 + 2 ^ 8 * b1 + 2 ^ 16 * b2 + 2 ^ 24 * b3

abbrev sign_extended : ℕ → ℕ
sign_extended v = if ltb v (2 ^ 31) then v else v + (2 ^ 64 - 2 ^ 32)

-- The instructions of the thunk as the processor's manual has them: what stands on top of the stack,
-- and where the processor goes on. Other bytes are none of its instructions.
abbrev pub execute : ℕ → List ℕ → Option (ℕ × ℕ)
execute at
      (s0 ∷ s1 ∷ s2 ∷ s3 ∷ a0 ∷ a1 ∷ a2 ∷ l0 ∷ l1 ∷ l2 ∷ l3 ∷ c0 ∷ c1 ∷ c2 ∷ c3 ∷ h0 ∷ h1 ∷ h2 ∷ h3
        ∷ j ∷ r0 ∷ r1 ∷ r2 ∷ r3 ∷ []) =
    if s0 == 0x48
      && s1 == 0x83
      && s2 == 0xec
      && s3 == 8
      && a0 == 0xc7
      && a1 == 0x04
      && a2 == 0x24
      && c0 == 0xc7
      && c1 == 0x44
      && c2 == 0x24
      && c3 == 4
      && j == 0xe9
    then some (
      le32 l0 l1 l2 l3 + 2 ^ 32 * le32 h0 h1 h2 h3,
      (at + 24 + sign_extended (le32 r0 r1 r2 r3)) % 2 ^ 64,
    )
    else none
execute at _ = none

-- A distance that a jump of 32 bits can make, forwards or backwards.
abbrev pub fits_jump : ℕ → Bool
fits_jump d = ltb d (2 ^ 31) || leb (2 ^ 64 - 2 ^ 31) d

abbrev pub landing : ℕ → ℕ → ℕ
landing entry thunk = (thunk + 24 + sign_extended (displacement entry thunk % 2 ^ 32)) % 2 ^ 64

le32-bytes :
    (v : ℕ)
    → v < 2 ^ 32
    → le32 (v % 2 ^ 8) (v / 2 ^ 8 % 2 ^ 8) (v / 2 ^ 16 % 2 ^ 8) (v / 2 ^ 24 % 2 ^ 8) ≡ v
le32-bytes v h = omega arith

-- The distance in full leads to the target.
full_distance :
    (entry thunk : ℕ)
    → entry < 2 ^ 64
    → ((thunk + 24 + displacement entry thunk) % 2 ^ 64 ≡ entry)
      × (displacement entry thunk < 2 ^ 64)
unfolding displacement
full_distance entry thunk h = omega arith

landing_iff :
    (base d entry : ℕ)
    → (base + d) % 2 ^ 64 ≡ entry
    → d < 2 ^ 64
    → ((base + sign_extended (d % 2 ^ 32)) % 2 ^ 64 ≡ entry) ↔ (fits_jump d ≡ true)
landing_iff base d entry full small = (λ e. ground arith, λ e. ground arith)

-- The thunk puts the address of `func` on the stack and jumps, and the jump is to `isr_entry_point`
-- exactly if its distance fits 32 bits with a sign.
pub execute-thunk_bytes :
    (func entry thunk : ℕ)
    → func < 2 ^ 64
    → entry < 2 ^ 64
    → (target : ℕ) × (execute thunk (thunk_bytes func entry thunk) ≡ some (func, target))
      × ((target ≡ entry) ↔ (fits_jump (displacement entry thunk) ≡ true))
unfolding thunk_bytes
execute-thunk_bytes func entry thunk hf he =
    let full = full_distance entry thunk he in
    (
      landing entry thunk,
      rw
          (
            le32-bytes (func % 2 ^ 32) (omega arith),
            le32-bytes (func / 2 ^ 32 % 2 ^ 32) (omega arith),
            le32-bytes (displacement entry thunk % 2 ^ 32) (omega arith),
          )
          (ap (λ pushed. some (pushed, landing entry thunk)) (omega arith)),
      landing_iff (thunk + 24) (displacement entry thunk) entry full.0 full.1,
    )
