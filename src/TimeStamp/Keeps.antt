-- ===== src/TimeStamp/Keeps.antt =====
-- pcm-unit/driver/tsc.c and tsc_adjust.c: what the tests leave alone, of what the instructions do.
use pcm_test.Base.{ℕ, ◌≡◌, refl, ◌∙◌, ◌==◌, not, bit_and}
use pcm_test.Base.Kernel.{Sys, either-view}
use pcm_test.TimeStamp.{
  Counter, test_wrtsc, test_rdtscp, test_tsc, adjust_by_register, adjust_by_counter,
  test_tsc_adjust,
}

pub record KeepsView {C A : Type 0} (x : Counter C) (view : C → A) : Type 0 where
  pub rdtscll-keeps : (c : C) → view (x.rdtscll c).1 ≡ view c
  pub native_write-keeps :
      (r low high : ℕ) (c : C) → view (x.native_write_msr_safe r low high c).1 ≡ view c
  pub wrmsrl_safe-keeps : (r v : ℕ) (c : C) → view (x.wrmsrl_safe r v c).1 ≡ view c
  pub rdmsrl_safe-keeps : (r : ℕ) (c : C) → view (x.rdmsrl_safe r c).1 ≡ view c
  pub native_read_tscp-keeps : (c : C) → view (x.native_read_tscp c).1 ≡ view c
  pub cpuid-keeps : (leaf : ℕ) (c : C) → view (x.cpuid leaf c).1 ≡ view c

module _ {C A : Type 0} (x : Counter C) (view : C → A) (d : KeepsView x view) where
  open d use {
    rdtscll-keeps, native_write-keeps, wrmsrl_safe-keeps, rdmsrl_safe-keeps, native_read_tscp-keeps,
    cpuid-keeps,
  }

  wrtsc-kept : (v : ℕ) (s : Sys C) → view (test_wrtsc x v s).1.world ≡ view s.world
  unfolding test_wrtsc
  wrtsc-kept v s = rdtscll-keeps _ ∙ native_write-keeps _ _ _ _

  rdtscp-kept : (v : ℕ) (s : Sys C) → view (test_rdtscp x v s).1.world ≡ view s.world
  unfolding test_rdtscp
  rdtscp-kept v s = native_read_tscp-keeps _ ∙ wrmsrl_safe-keeps _ _ _

  pub test_tsc-kept : (s : Sys C) → view (test_tsc x s).1.world ≡ view s.world
  unfolding test_tsc
  test_tsc-kept s =
      rdtscp-kept 0x100 _
      ∙ rdtscp-kept 10 _
      ∙ rdtscp-kept 0 _
      ∙ wrtsc-kept 100_000_000_000 _
      ∙ wrtsc-kept 0 _
      ∙ rdtscll-keeps _
      ∙ rdtscll-keeps s.world

  by_register-kept : (s : Sys C) → view (adjust_by_register x s).1.world ≡ view s.world
  unfolding adjust_by_register
  by_register-kept s =
      rdmsrl_safe-keeps _ _
      ∙ wrmsrl_safe-keeps _ _ _
      ∙ rdmsrl_safe-keeps _ _
      ∙ rdtscll-keeps _
      ∙ wrmsrl_safe-keeps _ _ _
      ∙ rdtscll-keeps _
      ∙ rdmsrl_safe-keeps _ s.world

  by_counter-kept : (s : Sys C) → view (adjust_by_counter x s).1.world ≡ view s.world
  unfolding adjust_by_counter
  by_counter-kept s =
      rdmsrl_safe-keeps _ _ ∙ rdtscll-keeps _ ∙ wrmsrl_safe-keeps _ _ _ ∙ rdtscll-keeps s.world

  pub test_tsc_adjust-kept : (s : Sys C) → view (test_tsc_adjust x s).1.world ≡ view s.world
  unfolding test_tsc_adjust
  test_tsc_adjust-kept s =
      let t : Sys C = record s { world = (x.cpuid 7 s.world).1 } in
      either-view (λ u. view u.world) (not (bit_and (x.cpuid 7 s.world).0.ebx 2 == 0)) _ _ t
        (by_counter-kept (adjust_by_register x t).1 ∙ by_register-kept t) refl
      ∙ cpuid-keeps 7 s.world
