-- ===== src/TimeStamp/Written.antt =====
-- pcm-unit/driver/tsc.c: what the test of the counter and of the auxiliary register logs.
use pcm_test.Base.{ℕ, refl, ◌+◌, ◌*◌, ◌/◌, ◌%◌, ◌^◌, ◌<◌, ◌≡◌, String, List, [], ◌∷◌, ◌++◌, arith}
use pcm_test.Base.Kernel.{Line, Sys}
use pcm_test.TimeStamp.{Counter, minus, test_wrtsc, test_rdtscp, test_tsc}
use pcm_test.TimeStamp.Adjust.{IsCounter}

-- The rest of the manual that the test relies on: native_write_msr_safe takes a value in two halves,
-- and rdtscp reads the register TSC_AUX, of 32 bits.
pub record HasAux {C : Type 0} (x : Counter C) (d : IsCounter x) : Type 0 where
  pub native_write-adjust :
      (low high : ℕ) (c : C)
      → low < 2 ^ 32
      → d.adjust (x.native_write_msr_safe x.msr_ia32_tsc low high c).1
        ≡ minus (low + high * 2 ^ 32) (d.base c)
  pub aux : C → ℕ
  pub aux_write : (v : ℕ) (c : C) → aux (x.wrmsrl_safe x.msr_tsc_aux v c).1 ≡ v % 2 ^ 32
  pub tscp_read : (c : C) → (x.native_read_tscp c).0.1 ≡ aux c

since_first : (b0 b1 a : ℕ) → minus ((b1 + a) % 2 ^ 64) ((b0 + a) % 2 ^ 64) ≡ minus b1 b0
since_first b0 b1 a = omega arith

since_write :
    (v b0 b1 : ℕ)
    → (b1 + minus (v % 2 ^ 32 + v / 2 ^ 32 % 2 ^ 32 * 2 ^ 32) b0) % 2 ^ 64
      ≡ (v + minus b1 b0) % 2 ^ 64
since_write v b0 b1 = omega arith

abbrev pub line : String → List ℕ → List Line
line format values = record { format = format; values = values } ∷ []

module _ {C : Type 0} (x : Counter C) (d : IsCounter x) (e : HasAux x d) where
  -- The processor after a reading, after a write of the counter, and after rdtscp's test.
  abbrev pub read_once : C → C
  read_once c = (x.rdtscll c).1

  abbrev pub write_once : ℕ → C → C
  write_once v c = (x.native_write_msr_safe x.msr_ia32_tsc (v % 2 ^ 32) (v / 2 ^ 32 % 2 ^ 32) c).1

  abbrev aux_once : ℕ → C → C
  aux_once v c = (x.native_read_tscp (x.wrmsrl_safe x.msr_tsc_aux v c).1).1

  abbrev pub elapsed : C → C → ℕ
  elapsed c c' = minus (d.base c') (d.base c)

  -- The line for a value that is written in the state `c`.
  abbrev pub write_line : ℕ → C → List Line
  write_line v c =
      line "rdtsc after wrtsc%lld : %lld \n" (v ∷ (v + elapsed c (write_once v c)) % 2 ^ 64 ∷ [])

  latency_lem :
      (c : C) → minus (x.rdtscll (read_once c)).0 (x.rdtscll c).0 ≡ elapsed c (read_once c)
  latency_lem c =
      rw (d.rdtscll-value (read_once c), d.rdtscll-value c, d.rdtscll-adjust c)
        (since_first (d.base c) (d.base (read_once c)) (d.adjust c))

  wrtsc_lem :
      (v : ℕ) (s : Sys C)
      → test_wrtsc x v s ≡ (
        tt,
        record { world = read_once (write_once v s.world); log = s.log ++ write_line v s.world },
      )
  unfolding test_wrtsc
  wrtsc_lem v s =
      rw
        (
          d.rdtscll-value (write_once v s.world),
          e.native_write-adjust (v % 2 ^ 32) (v / 2 ^ 32 % 2 ^ 32) s.world (omega arith),
          since_write,
        )
        refl

  rdtscp_lem :
      (v : ℕ) (s : Sys C)
      → v < 2 ^ 32
      → test_rdtscp x v s ≡ (
        tt,
        record {
          world = aux_once v s.world;
          log = s.log ++ line "Test RDTSCP eax=%d, aux=%lld\n" (v ∷ v ∷ []);
        },
      )
  unfolding test_rdtscp
  rdtscp_lem v s h =
      let whole : v % 2 ^ 32 ≡ v = omega arith in
      rw (e.tscp_read, e.aux_write v s.world, whole) refl

  -- The processor when the two writes are made.
  abbrev pub at_first : C → C
  at_first c = read_once (read_once c)

  abbrev pub at_second : C → C
  at_second c = read_once (write_once 0 (at_first c))

  -- The six lines after `log`, for a test that starts in the state `c`.
  abbrev pub six_lines : List Line → C → List Line
  six_lines log c =
      log
      ++ line "rdtsc latency %u\n" (elapsed c (read_once c) % 2 ^ 32 ∷ [])
      ++ write_line 0 (at_first c)
      ++ write_line 100_000_000_000 (at_second c)
      ++ line "Test RDTSCP eax=%d, aux=%lld\n" (0 ∷ 0 ∷ [])
      ++ line "Test RDTSCP eax=%d, aux=%lld\n" (10 ∷ 10 ∷ [])
      ++ line "Test RDTSCP eax=%d, aux=%lld\n" (0x100 ∷ 0x100 ∷ [])

  -- The test logs six lines: the time between its first two readings, modulo 2^32; for each of the
  -- two values that it writes to the counter that value, and the value plus the time that has passed
  -- since, modulo 2^64; and each of the three values that it writes to TSC_AUX, twice.
  pub test_tsc-lines : (s : Sys C) → (test_tsc x s).1.log ≡ six_lines s.log s.world
  unfolding test_tsc
  test_tsc-lines s =
      rw
        (
          latency_lem s.world,
          wrtsc_lem 0 _,
          wrtsc_lem 100_000_000_000 _,
          rdtscp_lem 0 _ (omega arith),
          rdtscp_lem 10 _ (omega arith),
          rdtscp_lem 0x100 _ (omega arith),
        )
        refl
