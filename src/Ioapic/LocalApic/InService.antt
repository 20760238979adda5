-- ===== src/Ioapic/LocalApic/InService.antt =====
-- ioapic.c: reaching for the local controller and the old one leaves no interrupt in service.
use pcm_test.Ioapic.Rig.{Board}
use pcm_test.Ioapic.Rig.Keeps.{Keeps, keeping}
use pcm_test.Ioapic.Handlers.InService.{IsBoard}
use pcm_test.Ioapic.LocalApic.{enable_x2apic_local, mask_pic_interrupts}

module _ {W : Type 0} (b : Board W) (d : IsBoard b) where
  open d use {in_service, outb-keeps, cpuid-keeps, rdmsr-keeps, apicbase-keeps}

  pub pic-Keeps : Keeps in_service (mask_pic_interrupts b)
  unfolding mask_pic_interrupts
  pic-Keeps = search (keeping, outb-keeps) depth 20

  pub x2apic-Keeps : Keeps in_service (enable_x2apic_local b)
  unfolding enable_x2apic_local
  x2apic-Keeps = search (keeping, cpuid-keeps, rdmsr-keeps, apicbase-keeps) depth 30
