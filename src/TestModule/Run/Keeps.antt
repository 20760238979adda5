-- ===== src/TestModule/Run/Keeps.antt =====
-- Runs of test_module/test_mod.c that use neither the heap nor the variable vmxon_region.
use pcm_test.Base.{◌≡◌, refl, ◌∙◌, Bool, true, false, Option, none, some, if◌then◌else◌}
use pcm_test.Base.Kernel.{M}
use pcm_test.TestModule.Run.{Module, Run, pure, resume, ◌>>=◌, ◌>>◌, kernel, insn}

module _ {C H : Type 0} where
  -- A run that leaves the heap and the variable vmxon_region as they were.
  pub record Keeps {A : Type 0} (m : Run C H A) : Type 0 where
    pub same_heap : (s : Module C H) → (m s).1.heap ≡ s.heap
    pub same_region : (s : Module C H) → (m s).1.vmxon_region ≡ s.vmxon_region

  pub resume-heap :
      {A B : Type 0} (o : Option A) (f : A → Run C H B) (s : Module C H)
      → ((a : A) → Keeps (f a))
      → (resume o f s).1.heap ≡ s.heap
  resume-heap none f s h = refl
  resume-heap (some a) f s h = (h a).same_heap s

  pub resume-region :
      {A B : Type 0} (o : Option A) (f : A → Run C H B) (s : Module C H)
      → ((a : A) → Keeps (f a))
      → (resume o f s).1.vmxon_region ≡ s.vmxon_region
  resume-region none f s h = refl
  resume-region (some a) f s h = (h a).same_region s

  pub then-Keeps :
      {A B : Type 0} (m : Run C H A) (f : A → Run C H B)
      → Keeps m
      → ((a : A) → Keeps (f a))
      → Keeps (m >>= f)
  unfolding ◌>>=◌
  then-Keeps m f h hf = record {
    same_heap = λ s. resume-heap (m s).0 f (m s).1 hf ∙ h.same_heap s;
    same_region = λ s. resume-region (m s).0 f (m s).1 hf ∙ h.same_region s;
  }

  pub before-Keeps :
      {B : Type 0} (m : Run C H (Unit {0})) (k : Run C H B) → Keeps m → Keeps k → Keeps (m >> k)
  unfolding ◌>>◌
  before-Keeps m k h hk = record {
    same_heap = λ s. resume-heap (m s).0 (λ _. k) (m s).1 (λ _. hk) ∙ h.same_heap s;
    same_region = λ s. resume-region (m s).0 (λ _. k) (m s).1 (λ _. hk) ∙ h.same_region s;
  }

  pub kernel-Keeps : {A : Type 0} (m : M C A) → Keeps (kernel m)
  unfolding kernel
  kernel-Keeps m = record { same_heap = λ s. refl; same_region = λ s. refl }

  pub insn-Keeps : {A : Type 0} (f : C → Option A × C) → Keeps (insn f)
  unfolding insn
  insn-Keeps f = record { same_heap = λ s. refl; same_region = λ s. refl }

  pub pure-Keeps : {A : Type 0} (a : A) → Keeps (pure a)
  pure-Keeps a = record { same_heap = λ s. refl; same_region = λ s. refl }

  pub either-Keeps :
      {A : Type 0} (b : Bool) (m k : Run C H A) → Keeps m → Keeps k → Keeps (if b then m else k)
  either-Keeps true m k h hk = h
  either-Keeps false m k h hk = hk

  pub ruleset keeping =
      (before-Keeps, then-Keeps, kernel-Keeps, insn-Keeps, pure-Keeps, either-Keeps)
