-- ===== src/Ioapic/Rig/Keeps.antt =====
-- Programs of the interrupt tests that leave a number of the machine as it was, or lower it by one.
use pcm_test.Base.{ℕ, suc, ◌≡◌, refl, ◌∙◌, Bool, true, false, String, List, if◌then◌else◌}
use pcm_test.Ioapic.Rig.{Globals, Rig, M, pure, ◌>>=◌, ◌>>◌, printk, ask, act, read, modify}

module _ {W : Type 0} (level : W → ℕ) where
  pub record Keeps {A : Type 0} (m : M W A) : Type 0 where
    pub kept : (s : Rig W) → level (m s).1.world ≡ level s.world

  pub record Lowers {A : Type 0} (m : M W A) : Type 0 where
    pub lowered : (s : Rig W) (n : ℕ) → level s.world ≡ suc n → level (m s).1.world ≡ n

  pub then-Keeps :
      {A B : Type 0} (m : M W A) (f : A → M W B)
      → Keeps m
      → ((a : A) → Keeps (f a))
      → Keeps (m >>= f)
  unfolding ◌>>=◌
  then-Keeps m f h hf = record { kept = λ s. (hf (m s).0).kept (m s).1 ∙ h.kept s }

  pub before-Keeps :
      {B : Type 0} (m : M W (Unit {0})) (k : M W B) → Keeps m → Keeps k → Keeps (m >> k)
  unfolding ◌>>◌
  before-Keeps m k h hk = record { kept = λ s. hk.kept (m s).1 ∙ h.kept s }

  pub pure-Keeps : {A : Type 0} (a : A) → Keeps (pure a)
  unfolding pure
  pure-Keeps a = record { kept = λ s. refl }

  pub printk-Keeps : (format : String) (values : List ℕ) → Keeps (printk format values)
  unfolding printk
  printk-Keeps format values = record { kept = λ s. refl }

  pub read-Keeps : {A : Type 0} (f : Globals → A) → Keeps (read f)
  unfolding read
  read-Keeps f = record { kept = λ s. refl }

  pub modify-Keeps : (f : Globals → Globals) → Keeps (modify f)
  unfolding modify
  modify-Keeps f = record { kept = λ s. refl }

  pub act-Keeps : (f : W → W) → ((w : W) → level (f w) ≡ level w) → Keeps (act f)
  unfolding act
  act-Keeps f h = record { kept = λ s. h s.world }

  pub ask-Keeps : {A : Type 0} (f : W → A × W) → ((w : W) → level (f w).1 ≡ level w) → Keeps (ask f)
  unfolding ask
  ask-Keeps f h = record { kept = λ s. h s.world }

  pub either-Keeps :
      {A : Type 0} (b : Bool) (m k : M W A) → Keeps m → Keeps k → Keeps (if b then m else k)
  either-Keeps true m k h hk = h
  either-Keeps false m k h hk = hk

  pub then-Lowers :
      {A B : Type 0} (m : M W A) (f : A → M W B)
      → Keeps m
      → ((a : A) → Lowers (f a))
      → Lowers (m >>= f)
  unfolding ◌>>=◌
  then-Lowers m f h hf = record { lowered = λ s n e. (hf (m s).0).lowered (m s).1 n (h.kept s ∙ e) }

  pub before-Lowers :
      {B : Type 0} (m : M W (Unit {0})) (k : M W B) → Keeps m → Lowers k → Lowers (m >> k)
  unfolding ◌>>◌
  before-Lowers m k h hk = record { lowered = λ s n e. hk.lowered (m s).1 n (h.kept s ∙ e) }

  pub finish-Lowers :
      {B : Type 0} (m : M W (Unit {0})) (k : M W B) → Lowers m → Keeps k → Lowers (m >> k)
  unfolding ◌>>◌
  finish-Lowers m k h hk = record { lowered = λ s n e. hk.kept (m s).1 ∙ h.lowered s n e }

  pub act-Lowers :
      (f : W → W) → ((w : W) (n : ℕ) → level w ≡ suc n → level (f w) ≡ n) → Lowers (act f)
  unfolding act
  act-Lowers f h = record { lowered = λ s n e. h s.world n e }

pub ruleset keeping = (
  before-Keeps, then-Keeps, pure-Keeps, printk-Keeps, read-Keeps, modify-Keeps, act-Keeps,
  ask-Keeps, either-Keeps,
)

pub ruleset lowering = (then-Lowers, before-Lowers)
