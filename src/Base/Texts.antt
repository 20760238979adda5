-- ===== src/Base/Texts.antt =====
-- The comparison of texts, under a name apart from the one of numbers.
use Prim.Native.String.{String}
use mathlib.Core.Path.{◌≡◌}
use mathlib.Core.Bool.{Bool, true}
use text.Mathlib.Text.{◌==◌ as same}
use text.Mathlib.TextEquality.{eq_iff}

abbrev pub same_text : String → String → Bool
same_text s t = same s t

pub same_text_eq : (s t : String) → same_text s t ≡ true → s ≡ t
same_text_eq s t h = (eq_iff s t).0 h
