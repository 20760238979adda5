-- ===== src/Ioapic/Suite/Tests.antt =====
-- ioapic.c: the interrupt tests on a machine whose line 14 raises an interrupt.
use pcm_test.Base.{
  ℕ, suc, ◌-◌, ◌≡◌, refl, ◌^◌, true, List, [], ◌∷◌, Option, none, some, ◌==◌, if◌then◌else◌, arith,
  ◌↔◌,
}
use pcm_test.Ioapic.Registers.{Mmio}
use pcm_test.Ioapic.Rig.{Board, xapic_ops, Rig, isr_9a}
use pcm_test.Ioapic.Handlers.Thunk.{thunk_bytes, displacement}
use pcm_test.Ioapic.Handlers.Thunk.Reach.{execute, fits_jump, execute-thunk_bytes}
use pcm_test.Ioapic.Handlers.{run_isr}
use pcm_test.Ioapic.Rig.Keeps.{Lowers}
use pcm_test.Ioapic.Handlers.InService.{IsBoard, run_isr-Lowers}
use pcm_test.Ioapic.Interrupts.{Addresses}
use pcm_test.Ioapic.Suite.{waiting, test_ioapic}
use pcm_test.Ioapic.Suite.Waits.{test_ioapic-waits}

-- The vectors that wait, and how many interrupts are in service.
pub record Bench : Type 0 where
  pub pending : List ℕ
  pub serving : ℕ

abbrev pub bench_port : Mmio Bench
bench_port = record { store_index = λ i w. w; load_window = λ w. (0, w); store_window = λ v w. w }

abbrev pub taken : List ℕ → Bench → Option ℕ × Bench
taken [] w = (none, w)
taken (v ∷ vs) w = (some v, record w { pending = vs; serving = suc w.serving })

abbrev pub bench : Board Bench
bench = record {
  mmio = bench_port;
  outb = λ value port w. if value == 1 then record w { pending = 0x77 ∷ [] } else w;
  apic_read = λ r w. (0, w);
  apic_write = λ r v w. record w { serving = w.serving - 1 };
  cli = λ cpu w. w;
  sti = λ cpu w. w;
  hlt = λ w. w;
  cpuid = λ leaf w. (record { eax = 0; ebx = 0; ecx = 0; edx = 0 }, w);
  load32 = λ a w. (0, w);
  store32 = λ a v w. w;
  rdmsr = λ r w. ((0, 0), w);
  wrmsr = λ r lo hi w. w;
  read_cs = λ w. (16, w);
  vmalloc = λ size w. (0xffff_c900_0000_0000, w);
  store_bytes = λ a bytes w. w;
  num_online_cpus = λ w. (2, w);
  take = λ w. taken w.pending w;
  iret = λ w. w;
  foreign = λ vector w. record w { serving = w.serving - 1 };
  apic_eoi = 0xb0;
  apic_tmr = 0x180;
  apic_icr = 0x300;
  apic_icr2 = 0x310;
  apic_icr_busy = 0x1000;
  apic_id = 0x20;
  apic_base_msr = 0x800;
  msr_ia32_apicbase = 0x1b;
}

pub taken-serving :
    (vs : List ℕ) (w : Bench) (i : ℕ)
    → (taken vs w).0 ≡ some i
    → (taken vs w).1.serving ≡ suc w.serving
taken-serving [] w i e = ground arith
taken-serving (v ∷ vs) w i e = refl

pub idle-serving :
    (vs : List ℕ) (w : Bench) → (taken vs w).0 ≡ none → (taken vs w).1.serving ≡ w.serving
idle-serving [] w e = refl
idle-serving (v ∷ vs) w e = ground arith

pub outb-serving : (value port : ℕ) (w : Bench) → (bench.outb value port w).serving ≡ w.serving
outb-serving value port w = ground arith

abbrev pub bench_laws : IsBoard bench
bench_laws = record {
  in_service = λ w. w.serving;
  take-some = λ w. taken-serving w.pending w;
  take-none = λ w. idle-serving w.pending w;
  eoi-lowers = λ w n e. omega arith;
  foreign-lowers = λ vector w n e. omega arith;
  mmio-keeps = record {
    store_index-keeps = λ i w. refl;
    load_window-keeps = λ w. refl;
    store_window-keeps = λ v w. refl;
  };
  outb-keeps = outb-serving;
  apic_read-keeps = λ r w. refl;
  cli-keeps = λ cpu w. refl;
  sti-keeps = λ cpu w. refl;
  hlt-keeps = λ w. refl;
  iret-keeps = λ w. refl;
  cpuid-keeps = λ leaf w. refl;
  rdmsr-keeps = λ r w. refl;
  apicbase-keeps = λ lo hi w. refl;
  read_cs-keeps = λ w. refl;
  vmalloc-keeps = λ size w. refl;
  store_bytes-keeps = λ a bytes w. refl;
  num_online_cpus-keeps = λ w. refl;
}

abbrev pub places : Addresses
places = record {
  address_of = λ isr. 0xffff_ffff_a000_1000;
  isr_entry_point = 0xffff_ffff_a000_2000;
}

abbrev pub loaded : Rig Bench
loaded = record {
  world = record { pending = []; serving = 0 };
  log = [];
  globals = record {
    g_isr_76 = 0;
    g_isr_77 = 0;
    g_78 = 0;
    g_66 = 0;
    g_66_after_78 = 0;
    g_66_rip = 0;
    g_78_rip = 0;
    g_tmr_79 = 2 ^ 32 - 1;
    g_isr_98 = 0;
    g_isr_99 = 0;
    g_isr_9a = 0;
    g_isr_81 = 0;
    g_isr_82 = 0;
    g_isr_83 = 0;
    apic_ops = xapic_ops;
  };
}

run_isr-Lowers_example : Lowers (λ w. w.serving) (run_isr bench isr_9a 0)
run_isr-Lowers_example = run_isr-Lowers bench bench_laws isr_9a 0

test_ioapic-waits_example : (test_ioapic bench places 3 5 (λ k. some k) loaded).0 ≡ waiting
test_ioapic-waits_example = test_ioapic-waits bench places 3 5 (λ w. refl) (λ k. some k) loaded

-- A thunk 2 GB or more away, as vmalloc gives it.
execute-thunk_bytes_example :
    (target : ℕ) × (execute 0xffff_c900_0000_0000
        (thunk_bytes 0xffff_ffff_a000_1000 0xffff_ffff_a000_2000 0xffff_c900_0000_0000)
      ≡ some (0xffff_ffff_a000_1000, target))
    × ((target ≡ 0xffff_ffff_a000_2000)
        ↔ (fits_jump (displacement 0xffff_ffff_a000_2000 0xffff_c900_0000_0000) ≡ true))
execute-thunk_bytes_example =
    execute-thunk_bytes 0xffff_ffff_a000_1000 0xffff_ffff_a000_2000 0xffff_c900_0000_0000
      (omega arith) (omega arith)
