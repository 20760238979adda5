-- ===== src/Ioapic/Interrupts.antt =====
-- ioapic.c: the interrupt tests on one processor. Between the calls of a test the processor takes
-- the interrupts that the machine has for it then, up to `burst` at a time; within a call, as in a
-- handler, it takes none.
pub mod InService
use pcm_test.Base.{
  ℕ, zero, suc, ◌+◌, ◌%◌, ◌^◌, Bool, true, false, ◌&&◌, String, [], ◌∷◌, ◌==◌, not, if◌then◌else◌,
  bit_and, bit_or,
}
use pcm_test.Ioapic.Registers.{TriggerMode, edge, level, set_ioapic_redir, set_mask}
use pcm_test.Ioapic.Rig.{
  Board, Isr, isr_76, isr_77, isr_78, isr_66, isr_79, isr_98, isr_99, isr_9a, isr_81, isr_82,
  isr_83, Globals, M, pure, ◌>>=◌, ◌>>◌, printk, ask, act, read,
}
use pcm_test.Ioapic.Handlers.{as_int, apic_read_bit, set_irq_line, interrupts, handle_irq_local}

-- Where the linker puts the handlers and `isr_entry_point`.
pub record Addresses : Type 0 where
  pub address_of : Isr → ℕ
  pub isr_entry_point : ℕ

abbrev pub edge_format : String
edge_format = "TMR for ioapic edge interrupts, tmr_before=%x, expected_tmr_before=%x, g_tmr_79=%x\n"

abbrev pub level_format : String
level_format =
    "TMR for ioapic level interrupts, tmr_before=%x, expected_tmr_before=%x, g_tmr_79=%x\n"

module _ {W : Type 0} (b : Board W) (at : Addresses) (burst : ℕ) where
  -- A call, and the interrupts after it.
  abbrev pub call : M W (Unit {0}) → M W (Unit {0})
  call m = do m; interrupts b burst

  abbrev pub line : ℕ → ℕ → M W (Unit {0})
  line n val = call (set_irq_line b n val)

  abbrev pub install : ℕ → Isr → M W (Unit {0})
  install vec isr = call (handle_irq_local b vec (at.address_of isr) at.isr_entry_point)

  abbrev pub redirect : ℕ → ℕ → TriggerMode → M W (Unit {0})
  redirect n vec trig = call (act (set_ioapic_redir b.mmio n vec trig))

  abbrev pub mask_line : ℕ → Bool → M W (Unit {0})
  mask_line n mask = call (act (set_mask b.mmio n (as_int mask)))

  -- `cli`, `sti` and `nop` of the tests' processor, which is number 0.
  abbrev pub irq_disable : M W (Unit {0})
  irq_disable = call (act (b.cli 0))

  abbrev pub irq_enable : M W (Unit {0})
  irq_enable = call (act (b.sti 0))

  abbrev pub nop : M W (Unit {0})
  nop = interrupts b burst

  pub toggle_irq_line : ℕ → M W (Unit {0})
  toggle_irq_line n = do line n 1; line n 0

  pub test_ioapic_edge_intr : M W (Unit {0})
  test_ioapic_edge_intr = do
    install 0x76 isr_76
    redirect 0x0e 0x76 edge
    toggle_irq_line 0x0e
    nop
    count ← read (λ g. g.g_isr_76)
    printk "edge triggered intr, g_isr_76=%x\n" (count ∷ [])

  pub test_ioapic_level_intr : M W (Unit {0})
  test_ioapic_level_intr = do
    install 0x77 isr_77
    redirect 0x0e 0x77 level
    line 0x0e 1
    nop
    count ← read (λ g. g.g_isr_77)
    printk "level triggered intr, g_isr_77=%x\n" (count ∷ [])

  -- `g_66 && g_78 && g_66_after_78 && g_66_rip`
  abbrev all_set : Globals → Bool
  all_set g =
      not (g.g_66 == 0) && not (g.g_78 == 0) && not (g.g_66_after_78 == 0) && not (g.g_66_rip == 0)

  pub test_ioapic_simultaneous : M W (Unit {0})
  test_ioapic_simultaneous = do
    install 0x78 isr_78
    install 0x66 isr_66
    redirect 0x0e 0x78 edge
    redirect 0x0f 0x66 edge
    irq_disable
    toggle_irq_line 0x0f
    toggle_irq_line 0x0e
    irq_enable
    nop
    set ← read all_set
    rip ← read (λ g. g.g_78_rip)
    printk
        "ioapic simultaneous edge interrupts, g_66 && g_78 && g_66_after_78 && g_66_rip=Dec%d, g_78_rip=Dec%ld\n"
        (as_int set ∷ rip ∷ [])

  -- What the tests of the trigger mode register report.
  abbrev pub tmr_report : String → Bool → Bool → M W (Unit {0})
  tmr_report format before expected = do
    tmr ← read (λ g. g.g_tmr_79)
    printk format (as_int before ∷ as_int expected ∷ tmr ∷ [])

  pub test_ioapic_edge_tmr : Bool → M W (Unit {0})
  test_ioapic_edge_tmr expected_tmr_before = do
    install 0x79 isr_79
    redirect 0x0e 0x79 edge
    tmr_before ← apic_read_bit b b.apic_tmr 0x79
    toggle_irq_line 0x0e
    nop
    tmr_report edge_format tmr_before expected_tmr_before

  pub test_ioapic_level_tmr : Bool → M W (Unit {0})
  test_ioapic_level_tmr expected_tmr_before = do
    install 0x79 isr_79
    redirect 0x0e 0x79 level
    tmr_before ← apic_read_bit b b.apic_tmr 0x79
    line 0x0e 1
    nop
    tmr_report level_format tmr_before expected_tmr_before

  pub test_ioapic_level_coalesce : M W (Unit {0})
  test_ioapic_level_coalesce = do
    install 0x98 isr_98
    redirect 0x0e 0x98 level
    line 0x0e 1
    nop
    count ← read (λ g. g.g_isr_98)
    printk "coalesce simultaneous level interrupts g_isr_98=%x,\n" (count ∷ [])

  pub test_ioapic_level_sequential : M W (Unit {0})
  test_ioapic_level_sequential = do
    install 0x99 isr_99
    redirect 0x0e 0x99 level
    line 0x0e 1
    line 0x0e 1
    nop
    count ← read (λ g. g.g_isr_99)
    printk "sequential level interrupts g_isr_99=%x\n" (count ∷ [])

  -- The rounds of the loop that are left: sti, hlt and cli until the handler has run twice.
  pub retrigger_rounds : ℕ → M W (Unit {0})
  retrigger_rounds zero = pure tt
  retrigger_rounds (suc rounds) = do
    count ← read (λ g. g.g_isr_9a)
    let rest = do irq_enable; call (act b.hlt); irq_disable; retrigger_rounds rounds
    if count == 2 then pure tt else rest

  pub test_ioapic_level_retrigger : M W (Unit {0})
  unfolding retrigger_rounds
  test_ioapic_level_retrigger = do
    install 0x9a isr_9a
    redirect 0x0e 0x9a level
    irq_disable
    line 0x0e 1
    retrigger_rounds 10
    irq_enable
    count ← read (λ g. g.g_isr_9a)
    printk "retriggered level interrupts without masking g_isr_9a=%x\n" (count ∷ [])

  pub test_ioapic_edge_mask : M W (Unit {0})
  test_ioapic_edge_mask = do
    install 0x81 isr_81
    redirect 0x0e 0x81 edge
    mask_line 0x0e true
    line 0x0e 1
    line 0x0e 0
    nop
    masked ← read (λ g. g.g_isr_81)
    printk "masked level interrupt g_isr_81=%x\n" (masked ∷ [])
    mask_line 0x0e false
    line 0x0e 1
    nop
    unmasked ← read (λ g. g.g_isr_81)
    printk "unmasked level interrupt g_isr_81=%x\n" (unmasked ∷ [])

  pub test_ioapic_level_mask : M W (Unit {0})
  test_ioapic_level_mask = do
    install 0x82 isr_82
    redirect 0x0e 0x82 level
    mask_line 0x0e true
    line 0x0e 1
    nop
    masked ← read (λ g. g.g_isr_82)
    printk "masked level interrupt g_isr_82=%x\n" (masked ∷ [])
    mask_line 0x0e false
    nop
    unmasked ← read (λ g. g.g_isr_82)
    printk "unmasked level interrupt g_isr_82=%x\n" (unmasked ∷ [])

  pub test_ioapic_level_retrigger_mask : M W (Unit {0})
  test_ioapic_level_retrigger_mask = do
    install 0x83 isr_83
    redirect 0x0e 0x83 level
    line 0x0e 1
    nop
    mask_line 0x0e false
    nop
    count ← read (λ g. g.g_isr_83)
    printk "retriggered level interrupts with mask g_isr_83=%x\n" (count ∷ [])
    line 0x0e 0
    mask_line 0x0e false
