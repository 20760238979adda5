-- ===== src/Ioapic/Handlers.antt =====
-- ioapic.c: the interrupt handlers, their installation, and the moments at which the processor takes
-- interrupts. setjmp64.S defines `boot_idt`, which the installation writes to, as 0, so that no entry
-- reaches the processor's table and no interrupt reaches a handler of the file.
pub mod Thunk
pub mod InService
pub mod Untouched
use pcm_test.Base.{
  ℕ, zero, suc, ◌+◌, ◌*◌, ◌/◌, ◌%◌, ◌^◌, Bool, List, [], ◌∷◌, Option, none, some, ◌==◌, not,
  if◌then◌else◌, bit_and,
}
use pcm_test.Ioapic.Registers.{set_mask}
use pcm_test.Ioapic.Rig.{
  Board, Isr, isr_76, isr_77, isr_78, isr_66, isr_79, isr_98, isr_99, isr_9a, isr_81, isr_82,
  isr_83, Globals, IdtEntry, Rig, M, pure, ◌>>=◌, ◌>>◌, ask, act, read, modify,
}
use Thunk.{boot_idt, idt_entry, entry_bytes, no_entry, thunk_bytes}

-- `++` on an int, and an `int` that holds a truth value.
abbrev pub incremented : ℕ → ℕ
incremented n = (n + 1) % 2 ^ 32

abbrev pub as_int : Bool → ℕ
as_int b = if b then 1 else 0

module _ {W : Type 0} (b : Board W) where
  pub eoi : M W (Unit {0})
  eoi = act (b.apic_write b.apic_eoi 0)

  -- Bit `n` of the register that starts at `reg`: `(n >> 5) << 4` bytes on, bit `n & 31`.
  pub apic_read_bit : ℕ → ℕ → M W Bool
  apic_read_bit reg n = do
    word ← ask (b.apic_read ((reg + n / 2 ^ 5 * 2 ^ 4) % 2 ^ 32))
    pure (not (bit_and word (2 ^ (n % 2 ^ 5)) == 0))

  pub set_irq_line : ℕ → ℕ → M W (Unit {0})
  set_irq_line line val = act (b.outb (val % 2 ^ 8) ((0x2000 + line) % 2 ^ 16))

  pub ioapic_isr_76 : M W (Unit {0})
  ioapic_isr_76 = do modify (λ g. record g { g_isr_76 = incremented g.g_isr_76 }); eoi

  pub ioapic_isr_77 : M W (Unit {0})
  ioapic_isr_77 = do
    modify (λ g. record g { g_isr_77 = incremented g.g_isr_77 })
    set_irq_line 0x0e 0
    eoi

  -- `regs->rip` is the address that the interrupt returns to.
  pub ioapic_isr_78 : ℕ → M W (Unit {0})
  ioapic_isr_78 rip = do
    modify (λ g. record g { g_78 = incremented g.g_78 })
    modify (λ g. record g { g_78_rip = rip })
    eoi

  pub ioapic_isr_66 : ℕ → M W (Unit {0})
  ioapic_isr_66 rip = do
    modify (λ g. record g { g_66 = incremented g.g_66 })
    g_78 ← read (λ g. g.g_78)
    if not (g_78 == 0)
        then modify (λ g. record g { g_66_after_78 = incremented g.g_66_after_78 })
        else pure tt
    modify (λ g. record g { g_66_rip = rip })
    eoi

  pub ioapic_isr_79 : M W (Unit {0})
  ioapic_isr_79 = do
    bit ← apic_read_bit b.apic_tmr 0x79
    modify (λ g. record g { g_tmr_79 = as_int bit })
    set_irq_line 0x0e 0
    eoi

  pub ioapic_isr_98 : M W (Unit {0})
  ioapic_isr_98 = do
    modify (λ g. record g { g_isr_98 = incremented g.g_isr_98 })
    count ← read (λ g. g.g_isr_98)
    if count == 1 then (do set_irq_line 0x0e 0; set_irq_line 0x0e 1) else pure tt
    set_irq_line 0x0e 0
    eoi

  pub ioapic_isr_99 : M W (Unit {0})
  ioapic_isr_99 = do
    modify (λ g. record g { g_isr_99 = incremented g.g_isr_99 })
    set_irq_line 0x0e 0
    eoi

  pub ioapic_isr_9a : M W (Unit {0})
  ioapic_isr_9a = do
    modify (λ g. record g { g_isr_9a = incremented g.g_isr_9a })
    count ← read (λ g. g.g_isr_9a)
    if count == 2 then set_irq_line 0x0e 0 else pure tt
    eoi

  pub ioapic_isr_81 : M W (Unit {0})
  ioapic_isr_81 = do
    modify (λ g. record g { g_isr_81 = incremented g.g_isr_81 })
    set_irq_line 0x0e 0
    eoi

  pub ioapic_isr_82 : M W (Unit {0})
  ioapic_isr_82 = do
    modify (λ g. record g { g_isr_82 = incremented g.g_isr_82 })
    set_irq_line 0x0e 0
    eoi

  pub ioapic_isr_83 : M W (Unit {0})
  ioapic_isr_83 = do
    modify (λ g. record g { g_isr_83 = incremented g.g_isr_83 })
    act (set_mask b.mmio 0x0e 1)
    eoi

  pub run_isr : Isr → ℕ → M W (Unit {0})
  run_isr isr_76 rip = ioapic_isr_76
  run_isr isr_77 rip = ioapic_isr_77
  run_isr isr_78 rip = ioapic_isr_78 rip
  run_isr isr_66 rip = ioapic_isr_66 rip
  run_isr isr_79 rip = ioapic_isr_79
  run_isr isr_98 rip = ioapic_isr_98
  run_isr isr_99 rip = ioapic_isr_99
  run_isr isr_9a rip = ioapic_isr_9a
  run_isr isr_81 rip = ioapic_isr_81
  run_isr isr_82 rip = ioapic_isr_82
  run_isr isr_83 rip = ioapic_isr_83

  -- Up to `burst` interrupts, as long as the processor takes one.
  pub answer : Option ℕ → M W (Unit {0}) → M W (Unit {0})
  answer none more = pure tt
  answer (some vector) more = do act (b.foreign vector); act b.iret; more

  pub interrupts : ℕ → M W (Unit {0})
  interrupts zero = pure tt
  interrupts (suc burst) = do taken ← ask b.take; answer taken (interrupts burst)

  -- The 16 bytes at `&boot_idt[vec]` are cleared and then hold the entry.
  pub set_idt_entry : ℕ → ℕ → ℕ → M W (Unit {0})
  set_idt_entry vec addr dpl = do
    act (b.store_bytes (boot_idt + 16 * vec) no_entry)
    cs ← ask b.read_cs
    act (b.store_bytes (boot_idt + 16 * vec) (entry_bytes (idt_entry cs addr dpl)))

  -- `func` and `isr_entry_point` are the addresses of the two.
  pub handle_irq_local : ℕ → ℕ → ℕ → M W (Unit {0})
  handle_irq_local vec func entry = do
    thunk ← ask (b.vmalloc 50)
    set_idt_entry vec thunk 0
    act (b.store_bytes thunk (thunk_bytes func entry thunk))
