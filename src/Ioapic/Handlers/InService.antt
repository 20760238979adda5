-- ===== src/Ioapic/Handlers/InService.antt =====
-- ioapic.c: every handler takes one interrupt out of service.
use pcm_test.Base.{ℕ, zero, suc, ◌≡◌, refl, Option, none, some, List}
use pcm_test.Ioapic.Registers.{set_mask}
use pcm_test.Ioapic.Registers.Access.{KeepsPort, set_mask-keeps}
use pcm_test.Ioapic.Rig.{Board, Isr, isr_76, Rig, M, pure, ◌>>=◌, ask, act}
use pcm_test.Ioapic.Rig.Keeps.{
  Keeps, Lowers, keeping, lowering, act-Keeps, act-Lowers, before-Keeps, finish-Lowers,
}
use pcm_test.Ioapic.Handlers.{
  eoi, apic_read_bit, set_irq_line, ioapic_isr_76, ioapic_isr_77, ioapic_isr_78, ioapic_isr_66,
  ioapic_isr_79, ioapic_isr_98, ioapic_isr_99, ioapic_isr_9a, ioapic_isr_81, ioapic_isr_82,
  ioapic_isr_83, run_isr, answer, interrupts, set_idt_entry, handle_irq_local,
}

-- How many interrupts the tests' processor has in service, as the local controller's manual has it:
-- one more when it takes one, one less at the end of interrupt (here the write to its register), and
-- as many after all else. What the processor's own table leads to does as it should.
pub record IsBoard {W : Type 0} (b : Board W) : Type 0 where
  pub in_service : W → ℕ
  pub take-some :
      (w : W) (i : ℕ) → (b.take w).0 ≡ some i → in_service (b.take w).1 ≡ suc (in_service w)
  pub take-none : (w : W) → (b.take w).0 ≡ none → in_service (b.take w).1 ≡ in_service w
  pub eoi-lowers :
      (w : W) (n : ℕ) → in_service w ≡ suc n → in_service (b.apic_write b.apic_eoi 0 w) ≡ n
  pub foreign-lowers :
      (vector : ℕ) (w : W) (n : ℕ) → in_service w ≡ suc n → in_service (b.foreign vector w) ≡ n
  pub mmio-keeps : KeepsPort in_service b.mmio
  pub outb-keeps : (value port : ℕ) (w : W) → in_service (b.outb value port w) ≡ in_service w
  pub apic_read-keeps : (r : ℕ) (w : W) → in_service (b.apic_read r w).1 ≡ in_service w
  pub cli-keeps : (cpu : ℕ) (w : W) → in_service (b.cli cpu w) ≡ in_service w
  pub sti-keeps : (cpu : ℕ) (w : W) → in_service (b.sti cpu w) ≡ in_service w
  pub hlt-keeps : (w : W) → in_service (b.hlt w) ≡ in_service w
  pub iret-keeps : (w : W) → in_service (b.iret w) ≡ in_service w
  pub cpuid-keeps : (leaf : ℕ) (w : W) → in_service (b.cpuid leaf w).1 ≡ in_service w
  pub rdmsr-keeps : (r : ℕ) (w : W) → in_service (b.rdmsr r w).1 ≡ in_service w
  pub apicbase-keeps :
      (lo hi : ℕ) (w : W) → in_service (b.wrmsr b.msr_ia32_apicbase lo hi w) ≡ in_service w
  pub read_cs-keeps : (w : W) → in_service (b.read_cs w).1 ≡ in_service w
  pub vmalloc-keeps : (size : ℕ) (w : W) → in_service (b.vmalloc size w).1 ≡ in_service w
  pub store_bytes-keeps :
      (a : ℕ) (bytes : List ℕ) (w : W) → in_service (b.store_bytes a bytes w) ≡ in_service w
  pub num_online_cpus-keeps : (w : W) → in_service (b.num_online_cpus w).1 ≡ in_service w

module _ {W : Type 0} (b : Board W) (d : IsBoard b) where
  open d use {
    in_service, take-some, take-none, eoi-lowers, foreign-lowers, mmio-keeps, outb-keeps,
    apic_read-keeps, iret-keeps, read_cs-keeps, vmalloc-keeps, store_bytes-keeps,
  }

  eoi-Lowers : Lowers in_service (eoi b)
  unfolding eoi
  eoi-Lowers = act-Lowers in_service _ eoi-lowers

  pub set_irq_line-Keeps : (n val : ℕ) → Keeps in_service (set_irq_line b n val)
  unfolding set_irq_line
  set_irq_line-Keeps n val = act-Keeps in_service _ (outb-keeps _ _)

  pub apic_read_bit-Keeps : (r n : ℕ) → Keeps in_service (apic_read_bit b r n)
  unfolding apic_read_bit
  apic_read_bit-Keeps r n = search (keeping, apic_read-keeps) depth 12

  set_mask-Keeps : (n mask : ℕ) → Keeps in_service (act (set_mask b.mmio n mask))
  set_mask-Keeps n mask = act-Keeps in_service _ (set_mask-keeps mmio-keeps n mask)

  ruleset handler =
      (keeping, lowering, eoi-Lowers, set_irq_line-Keeps, apic_read_bit-Keeps, set_mask-Keeps)

  -- Where a write to the controller's end-of-interrupt register takes one interrupt out of service and
  -- no other operation of the handlers changes how many there are: every handler of the file, whatever
  -- it reads and whichever branch it takes, leaves exactly one interrupt less in service.
  pub run_isr-Lowers : (isr : Isr) (rip : ℕ) → Lowers in_service (run_isr b isr rip)
  unfolding run_isr ioapic_isr_76 ioapic_isr_77 ioapic_isr_78 ioapic_isr_66 ioapic_isr_79
      ioapic_isr_98 ioapic_isr_99 ioapic_isr_9a ioapic_isr_81 ioapic_isr_82 ioapic_isr_83
  run_isr-Lowers isr_76 rip = search (handler) depth 30
  run_isr-Lowers x rip = search (handler) depth 30

  -- What is in service when an interrupt, or none, has been taken.
  abbrev raised : Option ℕ → ℕ → ℕ
  raised none n = n
  raised (some i) n = suc n

  taken-raised :
      (o : Option ℕ) (w : W) → (b.take w).0 ≡ o → in_service (b.take w).1 ≡ raised o (in_service w)
  taken-raised none w e = take-none w e
  taken-raised (some i) w e = take-some w i e

  answer-kept :
      (o : Option ℕ) (more : M W (Unit {0})) (s : Rig W) (n : ℕ)
      → Keeps in_service more
      → in_service s.world ≡ raised o n
      → in_service (answer b o more s).1.world ≡ n
  unfolding answer pure
  answer-kept none more s n h e = e
  answer-kept (some vector) more s n h e =
      (finish-Lowers in_service _ _ (act-Lowers in_service _ (foreign-lowers vector))
          (before-Keeps in_service _ _ (act-Keeps in_service _ iret-keeps) h)).lowered
        s n e

  pub interrupts-Keeps : (burst : ℕ) → Keeps in_service (interrupts b burst)
  unfolding interrupts ◌>>=◌ ask pure
  interrupts-Keeps zero = record { kept = λ s. refl }
  interrupts-Keeps (suc burst) = record {
    kept = λ s.
        answer-kept (b.take s.world).0 (interrupts b burst) _ (in_service s.world)
          (interrupts-Keeps burst) (taken-raised (b.take s.world).0 s.world refl);
  }

  set_idt_entry-Keeps : (vec addr dpl : ℕ) → Keeps in_service (set_idt_entry b vec addr dpl)
  unfolding set_idt_entry
  set_idt_entry-Keeps vec addr dpl = search (keeping, read_cs-keeps, store_bytes-keeps) depth 20

  pub handle_irq_local-Keeps :
      (vec func entry : ℕ) → Keeps in_service (handle_irq_local b vec func entry)
  unfolding handle_irq_local
  handle_irq_local-Keeps vec func entry =
      search (keeping, vmalloc-keeps, set_idt_entry-Keeps, store_bytes-keeps) depth 20
