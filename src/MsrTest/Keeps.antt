-- ===== src/MsrTest/Keeps.antt =====
-- pcm-unit/driver/msr.c: what the test leaves alone, of what the instructions do.
use pcm_test.Base.{ℕ, ◌≡◌, refl, ◌∙◌, Option, none, some, List, [], ◌∷◌, String, ◌==◌, not}
use pcm_test.Base.Kernel.{Sys, either-view}
use pcm_test.MsrTest.{
  MsrPort, MsrRwInfo, msr_info, find_msr_info, known, rw_named, name_at, test_msr_rw,
  test_syscall_lazy_load, test_all, test_msr,
}

pub record KeepsView {C A : Type 0} (p : MsrPort C) (view : C → A) : Type 0 where
  pub wrmsrl_safe-keeps : (r v : ℕ) (c : C) → view (p.wrmsrl_safe r v c).1 ≡ view c
  pub rdmsrl_safe-keeps : (r : ℕ) (c : C) → view (p.rdmsrl_safe r c).1 ≡ view c
  pub read_cs-keeps : (c : C) → view (p.read_cs c).1 ≡ view c
  pub read_ss-keeps : (c : C) → view (p.read_ss c).1 ≡ view c
  pub write_ss-keeps : (v : ℕ) (c : C) → view (p.write_ss v c).1 ≡ view c
  pub syscall-keeps : (c : C) → view (p.syscall c).1 ≡ view c

module _ {C A : Type 0} (p : MsrPort C) (view : C → A) (d : KeepsView p view) where
  open d use {wrmsrl_safe-keeps, rdmsrl_safe-keeps, read_cs-keeps, read_ss-keeps, write_ss-keeps}

  rw_named-kept :
      (sptr : String) (i v e : ℕ) (s : Sys C)
      → view (rw_named p sptr i v e s).1.world ≡ view s.world
  unfolding rw_named
  rw_named-kept sptr i v e s =
      let r = p.rdmsrl_safe i (p.wrmsrl_safe i v s.world).1 in
      either-view (λ t. view t.world) (not (e == r.0.0)) _ _ (record { world = r.1; log = s.log })
        refl refl
      ∙ rdmsrl_safe-keeps _ _
      ∙ wrmsrl_safe-keeps _ _ s.world

  known-kept :
      (place : Option ℕ) (i v e : ℕ) (s : Sys C)
      → view (known p place i v e s).1.world ≡ view s.world
  unfolding known
  known-kept none i v e s = refl
  known-kept (some index) i v e s = rw_named-kept (name_at msr_info index) i v e s

  rw-kept : (i v e : ℕ) (s : Sys C) → view (test_msr_rw p i v e s).1.world ≡ view s.world
  unfolding test_msr_rw
  rw-kept i v e s = known-kept (find_msr_info i) i v e s

  all-kept : (es : List MsrRwInfo) (s : Sys C) → view (test_all p es s).1.world ≡ view s.world
  unfolding test_all
  all-kept [] s = refl
  all-kept (e ∷ es) s = all-kept es _ ∙ rw-kept e.index e.value e.expected s

  syscall-kept : (s : Sys C) → view (test_syscall_lazy_load p s).1.world ≡ view s.world
  unfolding test_syscall_lazy_load
  syscall-kept s =
      write_ss-keeps _ _
      ∙ d.syscall-keeps _
      ∙ wrmsrl_safe-keeps _ _ _
      ∙ wrmsrl_safe-keeps _ _ _
      ∙ wrmsrl_safe-keeps _ _ _
      ∙ rdmsrl_safe-keeps _ _
      ∙ read_ss-keeps _
      ∙ read_cs-keeps s.world

  pub test_msr-kept : (s : Sys C) → view (test_msr p s).1.world ≡ view s.world
  unfolding test_msr
  test_msr-kept s = syscall-kept (test_all p msr_info s).1 ∙ all-kept msr_info s
