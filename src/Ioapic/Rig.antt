-- ===== src/Ioapic/Rig.antt =====
-- ioapic.c: what the interrupt tests run on. The machine is a record of operations, with its memory;
-- the variables of the file and the kernel log are the rest of the state.
pub mod Keeps
use pcm_test.Base.{ℕ, String, List, [], ◌∷◌, ◌++◌, Option, none, some}
use pcm_test.Base.Kernel.{Line}
use pcm_test.Ioapic.Registers.{Mmio}

-- eax, ebx, ecx and edx after cpuid.
pub record CpuidRegs : Type 0 where
  pub eax : ℕ
  pub ebx : ℕ
  pub ecx : ℕ
  pub edx : ℕ

-- The instructions and the functions of the kernel that the file calls, and the numbers of the
-- kernel's headers. `cli` and `sti` take the number of the processor. `take` asks what interrupt the
-- tests' processor takes next, if any now: its vector. `foreign` is what the processor's own table has
-- it do then, and `iret` ends it: nothing in the driver's sources puts an entry into that table.
pub record Board (W : Type 0) : Type 0 where
  pub mmio : Mmio W
  pub outb : ℕ → ℕ → W → W
  pub apic_read : ℕ → W → ℕ × W
  pub apic_write : ℕ → ℕ → W → W
  pub cli : ℕ → W → W
  pub sti : ℕ → W → W
  pub hlt : W → W
  pub cpuid : ℕ → W → CpuidRegs × W
  pub load32 : ℕ → W → ℕ × W
  pub store32 : ℕ → ℕ → W → W
  pub rdmsr : ℕ → W → (ℕ × ℕ) × W
  pub wrmsr : ℕ → ℕ → ℕ → W → W
  pub read_cs : W → ℕ × W
  pub vmalloc : ℕ → W → ℕ × W
  pub store_bytes : ℕ → List ℕ → W → W
  pub num_online_cpus : W → ℕ × W
  pub take : W → Option ℕ × W
  pub iret : W → W
  pub foreign : ℕ → W → W
  pub apic_eoi : ℕ
  pub apic_tmr : ℕ
  pub apic_icr : ℕ
  pub apic_icr2 : ℕ
  pub apic_icr_busy : ℕ
  pub apic_id : ℕ
  pub apic_base_msr : ℕ
  pub msr_ia32_apicbase : ℕ

-- The functions ioapic_isr_*.
pub data Isr : Type 0 where
  isr_76 isr_77 isr_78 isr_66 isr_79 isr_98 isr_99 isr_9a isr_81 isr_82 isr_83 : Isr

-- The two tables that `apic_ops` points to.
pub data ApicOps : Type 0 where
  xapic_ops x2apic_ops : ApicOps

-- The variables of the file, as 32-bit patterns, the two addresses as 64-bit ones.
pub record Globals : Type 0 where
  pub g_isr_76 : ℕ
  pub g_isr_77 : ℕ
  pub g_78 : ℕ
  pub g_66 : ℕ
  pub g_66_after_78 : ℕ
  pub g_66_rip : ℕ
  pub g_78_rip : ℕ
  pub g_tmr_79 : ℕ
  pub g_isr_98 : ℕ
  pub g_isr_99 : ℕ
  pub g_isr_9a : ℕ
  pub g_isr_81 : ℕ
  pub g_isr_82 : ℕ
  pub g_isr_83 : ℕ
  pub apic_ops : ApicOps

-- `idt_entry_t`, without its unnamed fields; `p` is a field name of the source.
pub record IdtEntry : Type 0 where
  pub offset0 : ℕ
  pub selector : ℕ
  pub ist : ℕ
  pub type : ℕ
  pub dpl : ℕ
  pub p : ℕ
  pub offset1 : ℕ
  pub offset2 : ℕ
  pub reserved : ℕ

pub record Rig (W : Type 0) : Type 0 where
  pub world : W
  pub log : List Line
  pub globals : Globals

abbrev pub M : Type 0 → Type 0 → Type 0
M W A = Rig W → A × Rig W

module _ {W : Type 0} where
  infixl 5 ◌>>=◌ ◌>>◌
  unfoldable pub pure : {A : Type 0} → A → M W A
  pure a s = (a, s)

  unfoldable pub ◌>>=◌ : {A B : Type 0} → M W A → (A → M W B) → M W B
  ◌>>=◌ m f s = f (m s).0 (m s).1

  unfoldable pub ◌>>◌ : {B : Type 0} → M W (Unit {0}) → M W B → M W B
  ◌>>◌ m k s = k (m s).1

  unfoldable pub printk : String → List ℕ → M W (Unit {0})
  printk format values s =
      (tt, record s { log = s.log ++ record { format = format; values = values } ∷ [] })

  -- An operation of the machine, with a result and without.
  unfoldable pub ask : {A : Type 0} → (W → A × W) → M W A
  ask f s = ((f s.world).0, record s { world = (f s.world).1 })

  unfoldable pub act : (W → W) → M W (Unit {0})
  act f s = (tt, record s { world = f s.world })

  -- The variables of the file.
  unfoldable pub read : {A : Type 0} → (Globals → A) → M W A
  read f s = (f s.globals, s)

  unfoldable pub modify : (Globals → Globals) → M W (Unit {0})
  modify f s = (tt, record s { globals = f s.globals })
