-- ===== src/HostApp/Events.antt =====
-- focus_test/hostapp/ckevent.c: the events of one type, printed from /tmp/event.bin.
pub mod Laws
use pcm_test.Base.{
  ℕ, zero, suc, ◌+◌, String, List, [], ◌∷◌, ◌++◌, Option, none, some, map, ◌==◌, if◌then◌else◌,
  drop,
}
use pcm_test.Base.Kernel.{Line}
use pcm_test.CommandLine.{Opt, type_option, help_option, unknown_option, CString, buffsize}
use pcm_test.HostApp.Layout.{Member, u32, u64, sizeof}
use pcm_test.HostApp.Print.{Stdio, Print, shows, shows_wide, printf}

-- `event_log_t`, with the members of its `exec_pos`
abbrev pub event_log : List Member
event_log =
    u64 "next_addr"
    ∷ u32 "log_type"
    ∷ u32 "etype"
    ∷ u32 "pos.num_branches"
    ∷ u64 "pos.eip"
    ∷ u64 "pos.ecx"
    ∷ []

abbrev pub event_log_cpuid_read : List Member
event_log_cpuid_read =
    u32 "in_eax" ∷ u32 "in_ecx" ∷ u32 "out_eax" ∷ u32 "out_ebx" ∷ u32 "out_ecx" ∷ u32 "out_edx" ∷ []

abbrev pub event_log_rdtsc : List Member
event_log_rdtsc = u64 "tsc" ∷ []

abbrev pub event_log_rdtscp : List Member
event_log_rdtscp = u64 "tsc" ∷ u64 "tsc_aux" ∷ []

abbrev pub event_log_rdpmc : List Member
event_log_rdpmc = u64 "pmc" ∷ []

abbrev pub event_log_rdseed : List Member
event_log_rdseed = u64 "value" ∷ []

abbrev pub event_log_mmio_ins : List Member
event_log_mmio_ins = u32 "rep_num" ∷ []

abbrev pub cpuid_prints : List Print
cpuid_prints =
    shows_wide "in_eax=%llx\n" "in_eax"
    ∷ shows_wide "in_ecx=%llx\n" "in_ecx"
    ∷ shows_wide "out_eax=%llx\n" "out_eax"
    ∷ shows_wide "out_ebx=%llx\n" "out_ebx"
    ∷ shows_wide "out_ecx=%llx\n" "out_ecx"
    ∷ shows_wide "out_edx=%llx\n" "out_edx"
    ∷ []

abbrev pub rdpmc_prints : List Print
rdpmc_prints = shows "rdpmc value=%llx\n" "pmc" ∷ []

abbrev pub rdseed_prints : List Print
rdseed_prints = shows "rdseed value=%llx\n" "value" ∷ []

abbrev pub rdtsc_prints : List Print
rdtsc_prints = shows "rdtsc tsc=%llx\n" "tsc" ∷ []

abbrev pub rdtscp_prints : List Print
rdtscp_prints = shows "rdtscp tsc=%llx\n" "tsc" ∷ shows "rdtscp tsc_aux=%llx\n" "tsc_aux" ∷ []

abbrev pub mmio_prints : List Print
mmio_prints = shows "mmio_ins rep=%d\n" "rep_num" ∷ []

-- The bytes of `memset` to 0.
abbrev zeros : ℕ → List ℕ
zeros zero = []
zeros (suc n) = 0 ∷ zeros n

module _ {W : Type 0} (io : Stdio W) where
  -- What the functions ck_* share: the header and the structure `body` are read over a buffer of
  -- zeros, and the structure behind the header is printed. A NULL from fopen makes `fread` undefined,
  -- so that there is no result.
  abbrev pub print_event : List Member → List Print → Option (List ℕ) → Option (List Line)
  print_event body prints none = none
  print_event body prints (some file) =
      let size = sizeof event_log + sizeof body in
      let event_t = io.fread size file (zeros size) in
      some (map (printf io body (drop (sizeof event_log) event_t)) prints)

  unfoldable pub ck_event : List Member → List Print → W → Option (List Line)
  ck_event body prints w = print_event body prints (io.fopen "/tmp/event.bin" w)

  abbrev pub ck_cpuid : W → Option (List Line)
  ck_cpuid = ck_event event_log_cpuid_read cpuid_prints

  abbrev pub ck_rdpmc : W → Option (List Line)
  ck_rdpmc = ck_event event_log_rdpmc rdpmc_prints

  abbrev pub ck_rdseed : W → Option (List Line)
  ck_rdseed = ck_event event_log_rdseed rdseed_prints

  abbrev pub ck_rdtsc : W → Option (List Line)
  ck_rdtsc = ck_event event_log_rdtsc rdtsc_prints

  abbrev pub ck_rdtscp : W → Option (List Line)
  ck_rdtscp = ck_event event_log_rdtscp rdtscp_prints

  abbrev pub ck_mmio : W → Option (List Line)
  ck_mmio = ck_event event_log_mmio_ins mmio_prints

  abbrev pub ck_pio : W → Option (List Line)
  ck_pio w = some []

  module _ (c : CString) where
    -- The choice of a function by the array `type`.
    pub check : c.Buffer → W → Option (List Line)
    check type w =
        if c.strcmp type "cpuid" == 0
        then ck_cpuid w
        else if c.strcmp type "rdpmc" == 0
        then ck_rdpmc w
        else if c.strcmp type "rdrand" == 0
        then ck_rdseed w
        else if c.strcmp type "rdseed" == 0
        then ck_rdseed w
        else if c.strcmp type "rdtsc" == 0
        then ck_rdtsc w
        else if c.strcmp type "rdtscp" == 0
        then ck_rdtscp w
        else if c.strcmp type "pio" == 0
        then ck_pio w
        else if c.strcmp type "mmio" == 0
        then ck_mmio w
        else some []

    -- The status with which `main` returns, and what it has printed.
    abbrev finish : ℕ → Option (List Line) → Option (ℕ × List Line)
    finish status none = none
    finish status (some lines) = some (status, lines)

    -- The loop over the options, and what follows it.
    pub options : c.Buffer → List Opt → W → Option (ℕ × List Line)
    unfolding check
    options type [] w = finish 0 (check type w)
    options type (type_option optarg ∷ os) w = options (c.strncpy type optarg buffsize) os w
    options type (help_option ∷ os) w = some (1, [])
    options type (unknown_option ∷ os) w = options type os w

    pub main : List Opt → W → Option (ℕ × List Line)
    unfolding options
    main = options (c.array_of buffsize "cpuid")
