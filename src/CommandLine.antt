-- ===== src/CommandLine.antt =====
-- What focus_test/guestapp/pcmtest.c and focus_test/hostapp/ckevent.c share: the options "ht:" and
-- the array `type` of BUFFSIZE characters.
pub mod Laws
pub mod Tests
use pcm_test.Base.{ℕ, String, List, [], ◌∷◌, Option, none, some}

-- What one call of `getopt` gives: -t with its argument, -h, or another character ('?').
pub data Opt : Type 0 where
  type_option : String → Opt
  help_option unknown_option : Opt

-- The functions of the C library on arrays of characters: an array with an initialiser, and strncpy
-- and strcmp.
pub record CString : Type 1 where
  pub Buffer : Type 0
  pub array_of : ℕ → String → Buffer
  pub strncpy : Buffer → String → ℕ → Buffer
  pub strcmp : Buffer → String → ℕ

-- `BUFFSIZE`
abbrev pub buffsize : ℕ
buffsize = 10

-- The type that the options choose, from `s` before them: the last -t decides, and -h ends it.
abbrev pub chosen : String → List Opt → Option String
chosen s [] = some s
chosen s (type_option t ∷ os) = chosen t os
chosen s (help_option ∷ os) = none
chosen s (unknown_option ∷ os) = chosen s os
