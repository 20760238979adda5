-- ===== src/TimeStamp/Adjust.antt =====
-- pcm-unit/driver/tsc_adjust.c: what the test's estimate measures.
use pcm_test.Base.{
  ℕ, refl, ◌+◌, ◌*◌, ◌%◌, ◌^◌, ◌≡◌, ◌∙◌, false, ◌==◌, bit_and, [], ◌∷◌, ◌++◌, arith,
}
use pcm_test.Base.Kernel.{Sys}
use pcm_test.TimeStamp.{
  Counter, ia32_tsc_adjust, minus, adjust_by_register, adjust_by_counter, test_tsc_adjust,
}

-- The counter as the processor's manual has it: `base` counts time, and the counter is `adjust` ahead
-- of it. Writing the register sets `adjust`; writing the counter changes `adjust` so that the counter
-- has the new value at that moment.
pub record IsCounter {C : Type 0} (x : Counter C) : Type 0 where
  pub base : C → ℕ
  pub adjust : C → ℕ
  pub rdtscll-value : (c : C) → (x.rdtscll c).0 ≡ (base c + adjust c) % 2 ^ 64
  pub rdtscll-adjust : (c : C) → adjust (x.rdtscll c).1 ≡ adjust c
  pub register_write-adjust :
      (v : ℕ) (c : C) → adjust (x.wrmsrl_safe ia32_tsc_adjust v c).1 ≡ v % 2 ^ 64
  pub counter_write-adjust :
      (v : ℕ) (c : C) → adjust (x.wrmsrl_safe x.msr_ia32_tsc v c).1 ≡ minus v (base c)
  pub register_read-value : (c : C) → (x.rdmsrl_safe ia32_tsc_adjust c).0.1 ≡ adjust c
  pub register_read-adjust : (c : C) → adjust (x.rdmsrl_safe ia32_tsc_adjust c).1 ≡ adjust c

-- b0, b1 and b2 are the times of the first reading, of the write and of the second reading.
est_elapsed : (v b0 b1 : ℕ) → minus (minus v (minus v b1)) ((b0 + 0) % 2 ^ 64) ≡ minus b1 b0
est_elapsed v b0 b1 = omega arith

std_elapsed :
    (v b1 b2 : ℕ) → 2 * minus ((b2 + minus v b1) % 2 ^ 64) v % 2 ^ 64 ≡ 2 * minus b2 b1 % 2 ^ 64
std_elapsed v b1 b2 = omega arith

module _ {C : Type 0} (x : Counter C) (d : IsCounter x) where
  open d use {
    base, adjust, rdtscll-value, rdtscll-adjust, register_write-adjust, counter_write-adjust,
    register_read-value, register_read-adjust,
  }

  register_half-adjust : (s : Sys C) → adjust (adjust_by_register x s).1.world ≡ 0
  unfolding adjust_by_register
  register_half-adjust s = register_read-adjust _ ∙ register_write-adjust 0 _

  -- The two numbers of the last line, by the state in which the second half starts.
  abbrev pub at_write : C → C
  at_write c = (x.rdtscll c).1

  abbrev pub at_second_read : C → C
  at_second_read c = (x.wrmsrl_safe x.msr_ia32_tsc 100_000_000_000 (at_write c)).1

  counter_half :
      (s : Sys C)
      → adjust s.world ≡ 0
      → (adjust_by_counter x s).1.log
        ≡ s.log
          ++ record {
            format =
                "IA32_TSC_ADJUST msr adjustment on tsc write, est_delta_time=%lld, stdvalue=%lld\n";
            values =
                minus (base (at_write s.world)) (base s.world)
                ∷ 2 * minus (base (at_second_read s.world)) (base (at_write s.world)) % 2 ^ 64
                ∷ [];
          }
            ∷ []
  unfolding adjust_by_counter
  counter_half s h =
      rw
        (
          register_read-value,
          rdtscll-adjust (at_second_read s.world),
          rdtscll-value,
          counter_write-adjust,
          h,
          est_elapsed,
          rdtscll-value (at_second_read s.world),
          counter_write-adjust,
          std_elapsed,
        )
        refl

  -- Where the processor has the feature, the last line of the test is the time from the first reading
  -- of the counter to the write, and twice the time from the write to the second reading, modulo
  -- 2^64.
  pub test_tsc_adjust-elapsed :
      (s : Sys C)
      → (bit_and (x.cpuid 7 s.world).0.ebx 2 == 0) ≡ false
      → let half = (adjust_by_register x (record s { world = (x.cpuid 7 s.world).1 })).1 in
        (test_tsc_adjust x s).1.log
        ≡ half.log
          ++ record {
            format =
                "IA32_TSC_ADJUST msr adjustment on tsc write, est_delta_time=%lld, stdvalue=%lld\n";
            values =
                minus (base (at_write half.world)) (base half.world)
                ∷ 2 * minus (base (at_second_read half.world)) (base (at_write half.world)) % 2 ^ 64
                ∷ [];
          }
            ∷ []
  unfolding test_tsc_adjust
  test_tsc_adjust-elapsed s feature = rw feature (
      counter_half (adjust_by_register x (record s { world = (x.cpuid 7 s.world).1 })).1
        (register_half-adjust (record s { world = (x.cpuid 7 s.world).1 })))
