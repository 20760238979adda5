-- ===== src/HostApp/Events/Laws.antt =====
-- focus_test/hostapp/ckevent.c prints the event of the type that the options choose.
use pcm_test.Base.{
  ℕ, ◌+◌, length, drop, ◌≡◌, refl, sym, ◌∙◌, ap, String, List, [], ◌∷◌, ◌++◌, Option, none, some,
  All, map, if◌then◌else◌, same_text, Bool-cases, inl, inr, arith,
}
use pcm_test.Base.Kernel.{Line}
use pcm_test.CommandLine.{Opt, type_option, help_option, unknown_option, CString, buffsize, chosen}
use pcm_test.CommandLine.Laws.{IsCString, Short}
use pcm_test.HostApp.Layout.{Member, sizeof}
use pcm_test.HostApp.Print.{Stdio, Print, printf}
use pcm_test.HostApp.Print.Placed.{
  IsStdio, Field, field, wide_field, line, field_of, fread_exact, printf-places,
}
use pcm_test.HostApp.Events.{
  event_log, event_log_cpuid_read, event_log_rdtsc, event_log_rdtscp, event_log_rdpmc,
  event_log_rdseed, event_log_mmio_ins, cpuid_prints, rdpmc_prints, rdseed_prints, rdtsc_prints,
  rdtscp_prints, mmio_prints, print_event, ck_event, check, finish, options, main,
}

-- What a type makes the program print: a structure behind the header, or nothing.
pub data Event : Type 0 where
  event : List Member → List Print → Event
  nothing : Event

abbrev pub events : List (String × Event)
events =
    ("cpuid", event event_log_cpuid_read cpuid_prints)
    ∷ ("rdpmc", event event_log_rdpmc rdpmc_prints)
    ∷ ("rdrand", event event_log_rdseed rdseed_prints)
    ∷ ("rdseed", event event_log_rdseed rdseed_prints)
    ∷ ("rdtsc", event event_log_rdtsc rdtsc_prints)
    ∷ ("rdtscp", event event_log_rdtscp rdtscp_prints)
    ∷ ("pio", nothing)
    ∷ ("mmio", event event_log_mmio_ins mmio_prints)
    ∷ []

-- The types, with the size of what the program reads for each, and the lines that it prints: their
-- first byte in the file and their count of bytes. The header has 36 bytes.
abbrev pub event_types : List (String × (ℕ × List Field))
event_types =
    (
      "cpuid",
      (
        60,
        wide_field "in_eax=%llx\n" 36 4
            ∷ wide_field "in_ecx=%llx\n" 40 4
            ∷ wide_field "out_eax=%llx\n" 44 4
            ∷ wide_field "out_ebx=%llx\n" 48 4
            ∷ wide_field "out_ecx=%llx\n" 52 4
            ∷ wide_field "out_edx=%llx\n" 56 4
            ∷ [],
      ),
    )
    ∷ ("rdpmc", (44, field "rdpmc value=%llx\n" 36 8 ∷ []))
    ∷ ("rdrand", (44, field "rdseed value=%llx\n" 36 8 ∷ []))
    ∷ ("rdseed", (44, field "rdseed value=%llx\n" 36 8 ∷ []))
    ∷ ("rdtsc", (44, field "rdtsc tsc=%llx\n" 36 8 ∷ []))
    ∷ ("rdtscp", (52, field "rdtscp tsc=%llx\n" 36 8 ∷ field "rdtscp tsc_aux=%llx\n" 44 8 ∷ []))
    ∷ ("pio", (0, []))
    ∷ ("mmio", (40, field "mmio_ins rep=%d\n" 36 4 ∷ []))
    ∷ []

abbrev pub find_type : List (String × (ℕ × List Field)) → String → Option (ℕ × List Field)
find_type [] u = none
find_type (x ∷ xs) u = if same_text u x.0 then some x.1 else find_type xs u

abbrev described : Event → ℕ × List Field
described (event body prints) =
    (sizeof event_log + sizeof body, map (field_of (sizeof event_log) body) prints)
described nothing = (0, [])

abbrev describe : String × Event → String × (ℕ × List Field)
describe e = (e.0, described e.1)

events-event_types : map describe events ≡ event_types
events-event_types = refl

module _ {W : Type 0} (io : Stdio W) where
  abbrev show : Event → W → Option (List Line)
  show (event body prints) w = ck_event io body prints w
  show nothing w = some []

  abbrev run : List (String × Event) → String → W → Option (List Line)
  run [] u w = some []
  run (e ∷ es) u w = if same_text u e.0 then show e.1 w else run es u w

  module _ (d : IsStdio io) (bytes rest : List ℕ) (w : W)
      (opened : io.fopen "/tmp/event.bin" w ≡ some (bytes ++ rest)) where
    show-described :
        (e : Event)
        → length bytes ≡ (described e).0
        → show e w ≡ some (map (line io bytes) (described e).1)
    unfolding ck_event
    show-described (event body prints) whole =
        ap (print_event io body prints) opened
        ∙ ap (λ bs. some (map (printf io body (drop (sizeof event_log) bs)) prints))
            (fread_exact io _ bytes rest _ d whole)
        ∙ ap some (printf-places io (sizeof event_log) body bytes prints)
    show-described nothing whole = refl

    run-described :
        (es : List (String × Event)) (u : String) (x : ℕ × List Field)
        → find_type (map describe es) u ≡ some x
        → length bytes ≡ x.0
        → run es u w ≡ some (map (line io bytes) x.1)
    run-described [] u x found whole = cc
    run-described (e ∷ es) u x found whole = elim (Bool-cases (same_text u e.0)) [
      | inl same ↦
          let first : some (described e.1) ≡ some x =
            ap (λ b. if b then some (described e.1) else find_type (map describe es) u) (sym same)
            ∙ found in
          let found_here : described e.1 ≡ x = cc in
          rw same (
            show-described e.1 (whole ∙ ap (λ y. y.0) (sym found_here))
            ∙ ap (λ y. some (map (line io bytes) y.1)) found_here)
      | inr other ↦ rw other (
          run-described es u x
            (ap (λ b. if b then some (described e.1) else find_type (map describe es) u) (sym other)
              ∙ found)
            whole)
    ]

  module _ (c : CString) (k : IsCString c) where
    check-run :
        (b : c.Buffer) (u : String) (w : W) → k.text b ≡ some u → check io c b w ≡ run events u w
    unfolding check
    check-run b u w holds =
        rw
          (
            k.strcmp-text b u "cpuid" holds,
            k.strcmp-text b u "rdpmc" holds,
            k.strcmp-text b u "rdrand" holds,
            k.strcmp-text b u "rdseed" holds,
            k.strcmp-text b u "rdtsc" holds,
            k.strcmp-text b u "rdtscp" holds,
            k.strcmp-text b u "pio" holds,
            k.strcmp-text b u "mmio" holds,
          )
          refl

    -- The status and the lines for the type that is chosen, or for -h.
    abbrev outcome : Option String → W → Option (ℕ × List Line)
    outcome none w = some (1, [])
    outcome (some u) w = finish io c 0 (run events u w)

    options-chosen :
        (b : c.Buffer) (s : String) (os : List Opt) (w : W)
        → k.text b ≡ some s
        → All Short os
        → options io c b os w ≡ outcome (chosen s os) w
    unfolding options
    options-chosen b s [] w holds short = ap (finish io c 0) (check-run b s w holds)
    options-chosen b s (type_option t ∷ os) w holds short =
        options-chosen (c.strncpy b t buffsize) t os w (k.strncpy-text b t buffsize short.0) short.1
    options-chosen b s (help_option ∷ os) w holds short = refl
    options-chosen b s (unknown_option ∷ os) w holds short = options-chosen b s os w holds short.1

    -- If the arguments of -t fit the array, the options choose a type of the table `event_types`
    -- without -h, and /tmp/event.bin starts with as many bytes as the table has for it, then `main`
    -- returns 0 after it has printed the lines of the table, each with the little-endian number at its
    -- place in the file. What `%llx` shows of a number of 32 bits is left to `widened`.
    pub main-event_types :
        (os : List Opt) (u : String) (size : ℕ) (fields : List Field) (bytes rest : List ℕ) (w : W)
        → IsStdio io
        → All Short os
        → chosen "cpuid" os ≡ some u
        → find_type event_types u ≡ some (size, fields)
        → length bytes ≡ size
        → io.fopen "/tmp/event.bin" w ≡ some (bytes ++ rest)
        → main io c os w ≡ some (0, map (line io bytes) fields)
    unfolding main
    main-event_types os u size fields bytes rest w d short picks found whole opened =
        options-chosen (c.array_of buffsize "cpuid") "cpuid" os w
          (k.array_of-text buffsize "cpuid" (omega arith)) short
        ∙ ap (λ o. outcome o w) picks
        ∙ ap (finish io c 0) (
            run-described d bytes rest w opened events u (size, fields)
              (ap (λ table. find_type table u) events-event_types ∙ found) whole)
