-- ===== src/HostApp/Tests.antt =====
-- A machine with one file.
use pcm_test.Base.{ℕ, zero, suc, ◌≡◌, refl, List, [], ◌∷◌, ◌++◌, map, some, take, arith, ◌%◌, ◌+◌}
use pcm_test.CommandLine.{type_option, unknown_option}
use pcm_test.CommandLine.Tests.{texts, texts-IsCString}
use pcm_test.HostApp.Print.{Stdio}
use pcm_test.HostApp.Print.Placed.{IsStdio, line}
use pcm_test.HostApp.CpuStates
use pcm_test.HostApp.CpuStates.Laws.{registers, main-registers}
use pcm_test.HostApp.Events
use pcm_test.HostApp.Events.Laws.{main-event_types}

abbrev one_file : Stdio (List ℕ)
one_file = record {
  fopen = λ name file. some file;
  fread = λ n file buffer. take n file;
  widened = λ f v. v;
}

one_file-IsStdio : IsStdio one_file
one_file-IsStdio = record { fread-whole = λ n file buffer h. refl }

-- The bytes of the file are 0, 1, 2 and so on.
abbrev counted : ℕ → ℕ → List ℕ
counted zero n = []
counted (suc k) n = n % 256 ∷ counted k (n + 1)

main-registers_example :
    CpuStates.main one_file [] (counted 624 0 ++ 1 ∷ [])
    ≡ some (map (line one_file (counted 624 0)) registers)
main-registers_example =
    main-registers one_file (counted 624 0) (1 ∷ []) [] (counted 624 0 ++ 1 ∷ []) one_file-IsStdio
      refl refl

main-event_types_example :
    Events.main one_file texts (unknown_option ∷ type_option "rdtscp" ∷ []) (counted 52 0 ++ [])
    ≡ some (
      0,
      record { format = "rdtscp tsc=%llx\n"; values = 0x2b2a_2928_2726_2524 ∷ [] }
          ∷ record { format = "rdtscp tsc_aux=%llx\n"; values = 0x3332_3130_2f2e_2d2c ∷ [] }
          ∷ [],
    )
main-event_types_example =
    main-event_types one_file texts texts-IsCString (unknown_option ∷ type_option "rdtscp" ∷ [])
      "rdtscp" 52 _ (counted 52 0) [] (counted 52 0 ++ []) one_file-IsStdio (tt, (omega arith, tt))
      refl refl refl refl
