-- ===== src/Ioapic/LocalApic.antt =====
-- ioapic.c: the two ways to reach the local controller, and the change to the second.
pub mod InService
use pcm_test.Base.{
  ℕ, zero, suc, ◌+◌, ◌*◌, ◌/◌, ◌%◌, ◌^◌, Option, none, some, ◌==◌, not, if◌then◌else◌, bit_and,
  bit_or,
}
use pcm_test.Ioapic.Rig.{
  Board, ApicOps, xapic_ops, x2apic_ops, M, pure, ◌>>=◌, ◌>>◌, ask, act, modify,
}

abbrev g_apic : ℕ
g_apic = 0xfee0_0000

module _ {W : Type 0} (b : Board W) where
  pub xapic_read : ℕ → M W ℕ
  xapic_read reg = ask (b.load32 (g_apic + reg))

  pub xapic_write : ℕ → ℕ → M W (Unit {0})
  xapic_write reg val = act (b.store32 (g_apic + reg) val)

  -- The wait for the command register, for `patience` reads; none if it was busy at all of them.
  pub xapic_icr_write : ℕ → ℕ → ℕ → M W (Option (Unit {0}))
  unfolding xapic_read xapic_write
  xapic_icr_write zero val dest = pure none
  xapic_icr_write (suc patience) val dest = do
    icr ← xapic_read b.apic_icr
    let again = xapic_icr_write patience val dest
    let send = (do
      xapic_write b.apic_icr2 (dest * 2 ^ 24 % 2 ^ 32)
      xapic_write b.apic_icr val
      pure (some tt))
    if not (bit_and icr b.apic_icr_busy == 0) then again else send

  pub xapic_id : M W ℕ
  xapic_id = do id ← xapic_read b.apic_id; pure (id / 2 ^ 24)

  -- The result is a u32, which drops edx.
  pub x2apic_read : ℕ → M W ℕ
  x2apic_read reg = do
    r ← ask (b.rdmsr ((b.apic_base_msr + reg / 16) % 2 ^ 32))
    pure (bit_or r.0 (r.1 * 2 ^ 32) % 2 ^ 32)

  pub x2apic_write : ℕ → ℕ → M W (Unit {0})
  x2apic_write reg val = act (b.wrmsr ((b.apic_base_msr + reg / 16) % 2 ^ 32) val 0)

  pub x2apic_icr_write : ℕ → ℕ → M W (Unit {0})
  x2apic_icr_write val dest = act (b.wrmsr (b.apic_base_msr + b.apic_icr / 16) val dest)

  pub x2apic_id : M W ℕ
  x2apic_id = x2apic_read b.apic_id

  -- The functions that `apic_ops` gives; the one that waits has its patience.
  pub reg_read : ApicOps → ℕ → M W ℕ
  reg_read xapic_ops = xapic_read
  reg_read x2apic_ops = x2apic_read

  pub reg_write : ApicOps → ℕ → ℕ → M W (Unit {0})
  reg_write xapic_ops = xapic_write
  reg_write x2apic_ops = x2apic_write

  pub icr_write : ApicOps → ℕ → ℕ → ℕ → M W (Option (Unit {0}))
  icr_write xapic_ops patience val dest = xapic_icr_write patience val dest
  icr_write x2apic_ops patience val dest = do x2apic_icr_write val dest; pure (some tt)

  pub id : ApicOps → M W ℕ
  id xapic_ops = xapic_id
  id x2apic_ops = x2apic_id

  pub enable_x2apic_local : M W ℕ
  enable_x2apic_local = do
    regs ← ask (b.cpuid 1)
    if not (bit_and regs.ecx (2 ^ 21) == 0)
        then (do
          base ← ask (b.rdmsr b.msr_ia32_apicbase)
          act (b.wrmsr b.msr_ia32_apicbase (bit_or base.0 (2 ^ 10)) base.1)
          modify (λ g. record g { apic_ops = x2apic_ops })
          pure 1)
        else pure 0

  pub mask_pic_interrupts : M W (Unit {0})
  mask_pic_interrupts = do act (b.outb 0xff 0x21); act (b.outb 0xff 0xa1)
