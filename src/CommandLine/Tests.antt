-- ===== src/CommandLine/Tests.antt =====
-- Arrays of characters as texts, on which the laws of the command line hold.
use pcm_test.Base.{
  ◌≡◌, refl, ap, ◌∙◌, some, String, same_text, if◌then◌else◌, ◌==◌, Bool, true, false,
}
use pcm_test.CommandLine.{CString}
use pcm_test.CommandLine.Laws.{IsCString}

abbrev pub texts : CString
texts = record {
  Buffer = String;
  array_of = λ n s. s;
  strncpy = λ b s n. s;
  strcmp = λ b t. if same_text b t then 0 else 1;
}

strcmp-if : (b : Bool) → ((if b then 0 else 1) == 0) ≡ b
strcmp-if true = refl
strcmp-if false = refl

compare_texts :
    (b s t : String) → some b ≡ some s → ((if same_text b t then 0 else 1) == 0) ≡ same_text s t
compare_texts b s t e =
    let same : b ≡ s = cc in strcmp-if (same_text b t) ∙ ap (λ x. same_text x t) same

pub texts-IsCString : IsCString texts
texts-IsCString = record {
  text = λ b. some b;
  array_of-text = λ n s h. refl;
  strncpy-text = λ b s n h. refl;
  strcmp-text = compare_texts;
}
