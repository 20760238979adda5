-- ===== src/Base/Kernel.antt =====
-- What every kernel-side test shares: the outside world, in a type that the model leaves open, and
-- the kernel log, to which `printk` adds one line. A function of the source is a state transformer.

use mathlib.Core.List.{List, [], ◌∷◌, ◌++◌}
use mathlib.Core.Path.{◌≡◌}
use pcm_test.Base.Tests.{if◌then◌else◌}
use mathlib.Core.Bool.{Bool, true, false}
use Prim.Native.Nat.{ℕ}
use Prim.Native.String.{String}

-- A call of `printk`: its format string, and the numbers that it prints.
pub record Line : Type 0 where
  pub format : String
  pub values : List ℕ

pub record Sys (W : Type 0) : Type 0 where
  pub world : W
  pub log : List Line

abbrev pub M : Type 0 → Type 0 → Type 0
M W A = Sys W → A × Sys W

module _ {W : Type 0} where
  infixl 5 ◌>>=◌ ◌>>◌
  abbrev pub pure : {A : Type 0} → A → M W A
  pure a s = (a, s)

  abbrev pub ◌>>=◌ : {A B : Type 0} → M W A → (A → M W B) → M W B
  ◌>>=◌ m f s = f (m s).0 (m s).1

  abbrev pub ◌>>◌ : {B : Type 0} → M W (Unit {0}) → M W B → M W B
  ◌>>◌ m k s = k (m s).1

  abbrev pub printk : String → List ℕ → M W (Unit {0})
  printk format values s =
      (tt, record s { log = s.log ++ record { format = format; values = values } ∷ [] })

  -- A call into the outside world.
  abbrev pub outside : {A : Type 0} → (W → A × W) → M W A
  outside f s = ((f s.world).0, record s { world = (f s.world).1 })

  -- What both branches leave alone, the choice leaves alone.
  pub either-view :
      {A : Type 0} (view : Sys W → A) (b : Bool) (m n : M W (Unit {0})) (s : Sys W)
      → view (m s).1 ≡ view s
      → view (n s).1 ≡ view s
      → view ((if b then m else n) s).1 ≡ view s
  either-view view true m n s h k = h
  either-view view false m n s h k = k
