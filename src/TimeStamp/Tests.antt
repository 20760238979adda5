-- ===== src/TimeStamp/Tests.antt =====
-- pcm-unit/driver/tsc.c and tsc_adjust.c: the tests on a processor whose time advances by 20 with every reading.
use pcm_test.Base.{ℕ, ◌+◌, ◌*◌, ◌%◌, ◌^◌, ◌≡◌, refl, ◌==◌, if◌then◌else◌, [], ◌∷◌, ◌++◌}
use pcm_test.Base.Kernel.{Sys}
use pcm_test.TimeStamp.{Counter, ia32_tsc_adjust, minus, adjust_by_register, test_tsc_adjust}
use pcm_test.TimeStamp.Written.{HasAux}
use pcm_test.TimeStamp.Adjust.{IsCounter, test_tsc_adjust-elapsed}

pub record Chip : Type 0 where
  pub time : ℕ
  pub ahead : ℕ
  pub aux : ℕ

abbrev pub written : ℕ → ℕ → Chip → Chip
written r v c =
    if r == ia32_tsc_adjust
    then record c { ahead = v % 2 ^ 64 }
    else if r == 0x10
    then record c { ahead = minus v c.time }
    else if r == 0xc000_0103
    then record c { aux = v % 2 ^ 32 }
    else c

abbrev pub chip : Counter Chip
chip = record {
  rdtscll = λ c. ((c.time + c.ahead) % 2 ^ 64, record c { time = c.time + 20 });
  native_write_msr_safe = λ r low high c. (0, written r (low + high * 2 ^ 32) c);
  wrmsrl_safe = λ r v c. (0, written r v c);
  rdmsrl_safe = λ r c. ((0, c.ahead), c);
  native_read_tscp = λ c. ((c.time, c.aux), c);
  cpuid = λ leaf c. (record { eax = 0; ebx = 2; ecx = 0; edx = 0 }, c);
  msr_ia32_tsc = 0x10;
  msr_tsc_aux = 0xc000_0103;
}

abbrev pub chip_laws : IsCounter chip
chip_laws = record {
  base = λ c. c.time;
  adjust = λ c. c.ahead;
  rdtscll-value = λ c. refl;
  rdtscll-adjust = λ c. refl;
  register_write-adjust = λ v c. refl;
  counter_write-adjust = λ v c. refl;
  register_read-value = λ c. refl;
  register_read-adjust = λ c. refl;
}

abbrev awake : Sys Chip
awake = record { world = record { time = 1000; ahead = 0; aux = 7 }; log = [] }

test_tsc_adjust-elapsed_example :
    (test_tsc_adjust chip awake).1.log
    ≡ (adjust_by_register chip awake).1.log
      ++ record {
        format =
            "IA32_TSC_ADJUST msr adjustment on tsc write, est_delta_time=%lld, stdvalue=%lld\n";
        values = 20 ∷ 0 ∷ [];
      }
        ∷ []
unfolding adjust_by_register
test_tsc_adjust-elapsed_example = test_tsc_adjust-elapsed chip chip_laws awake refl

abbrev pub chip_aux : HasAux chip chip_laws
chip_aux = record {
  native_write-adjust = λ low high c h. refl;
  aux = λ c. c.aux;
  aux_write = λ v c. refl;
  tscp_read = λ c. refl;
}
