-- ===== src/CommandLine/Laws.antt =====
-- The documented behaviour of strncpy and strcmp on strings that fit with their final zero.
use pcm_test.Base.{ℕ, ◌<◌, ◌≡◌, String, Option, some, ◌==◌, same_text}
use Prim.Native.String.{len}
use pcm_test.CommandLine.{Opt, type_option, help_option, unknown_option, CString, buffsize}

-- `text b` is the string in the array, if it has its final zero.
pub record IsCString (c : CString) : Type 0 where
  pub text : c.Buffer → Option String
  pub array_of-text : (n : ℕ) (s : String) → len s < n → text (c.array_of n s) ≡ some s
  pub strncpy-text :
      (b : c.Buffer) (s : String) (n : ℕ) → len s < n → text (c.strncpy b s n) ≡ some s
  pub strcmp-text :
      (b : c.Buffer) (s t : String) → text b ≡ some s → (c.strcmp b t == 0) ≡ same_text s t

-- The arguments of -t that fit the array.
abbrev pub Short : Opt → Type 0
Short (type_option t) = len t < buffsize
Short help_option = Unit
Short unknown_option = Unit
