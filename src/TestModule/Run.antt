-- ===== src/TestModule/Run.antt =====
-- What a run of test_module/test_mod.c works on: the processor with the kernel log, the kernel's
-- heap, and the two global variables of the file. An instruction that faults ends the run, so a run
-- gives its result only if none did.
pub mod Keeps
use pcm_test.Base.{ℕ, Option, none, some, String, List}
use pcm_test.Base.Kernel.{Sys, M}

pub record Module (C H : Type 0) : Type 0 where
  pub sys : Sys C
  pub heap : H
  pub vmxon_region : ℕ
  pub vmxon_phy_region : ℕ

abbrev pub Run : Type 0 → Type 0 → Type 0 → Type 0
Run C H A = Module C H → Option A × Module C H

module _ {C H : Type 0} where
  infixl 5 ◌>>=◌ ◌>>◌
  abbrev pub pure : {A : Type 0} → A → Run C H A
  pure a s = (some a, s)

  -- The rest of a run, unless a fault has ended it.
  abbrev pub resume : {A B : Type 0} → Option A → (A → Run C H B) → Run C H B
  resume none f s = (none, s)
  resume (some a) f s = f a s

  unfoldable pub ◌>>=◌ : {A B : Type 0} → Run C H A → (A → Run C H B) → Run C H B
  ◌>>=◌ m f s = resume (m s).0 f (m s).1

  unfoldable pub ◌>>◌ : {B : Type 0} → Run C H (Unit {0}) → Run C H B → Run C H B
  ◌>>◌ m k s = resume (m s).0 (λ _. k) (m s).1

  -- A function that uses no heap and none of the global variables, and cannot fault.
  unfoldable pub kernel : {A : Type 0} → M C A → Run C H A
  kernel m s = (some (m s.sys).0, record s { sys = (m s.sys).1 })

  -- An instruction, which gives nothing if it faults.
  unfoldable pub insn : {A : Type 0} → (C → Option A × C) → Run C H A
  insn f s = ((f s.sys.world).0, record s { sys = record s.sys { world = (f s.sys.world).1 } })
