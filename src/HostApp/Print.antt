-- ===== src/HostApp/Print.antt =====
-- The printing of focus_test/hostapp/: a file is read into a structure, whose members are printed.
pub mod Placed
use pcm_test.Base.{ℕ, String, List, [], ◌∷◌, Bool, true, false, Option, map, if◌then◌else◌}
use pcm_test.Base.Kernel.{Line}
use pcm_test.HostApp.Layout.{Member, value}

-- What the programs use of the C library: the content of the file of that name, which opens or gives
-- NULL, and the buffer after `fread` of one item of that size. `widened` is what `printf` shows for a
-- member of 32 bits where the format asks for a long long, of which nothing determines the upper half.
pub record Stdio (W : Type 0) : Type 0 where
  pub fopen : String → W → Option (List ℕ)
  pub fread : ℕ → List ℕ → List ℕ → List ℕ
  pub widened : String → ℕ → ℕ

-- A call of `printf` with the members that it prints.
pub record Print : Type 0 where
  pub format : String
  pub members : List String
  pub widens : Bool  -- the members have 32 bits, and the format asks for 64

-- A call that prints one member, and one that prints none.
abbrev pub shows : String → String → Print
shows f n = record { format = f; members = n ∷ []; widens = false }

abbrev pub shows_wide : String → String → Print
shows_wide f n = record { format = f; members = n ∷ []; widens = true }

abbrev pub heading : String → Print
heading f = record { format = f; members = []; widens = false }

module _ {W : Type 0} (io : Stdio W) where
  abbrev pub printed : String → Bool → ℕ → ℕ
  printed format widens v = if widens then io.widened format v else v

  abbrev pub printf : List Member → List ℕ → Print → Line
  printf ms bs p = record {
    format = p.format;
    values = map (λ n. printed p.format p.widens (value ms n bs)) p.members;
  }
