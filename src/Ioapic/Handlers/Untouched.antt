-- ===== src/Ioapic/Handlers/Untouched.antt =====
-- ioapic.c: the variables of the file, which no interrupt changes, since none reaches a handler of it.
use pcm_test.Base.{ℕ, zero, suc, ◌≡◌, refl, Option, none, some}
use pcm_test.Ioapic.Rig.{Board, Rig, M, pure, ◌>>=◌, ◌>>◌, ask, act}
use pcm_test.Ioapic.Handlers.{
  apic_read_bit, answer, interrupts, set_irq_line, set_idt_entry, handle_irq_local,
}

module _ {W : Type 0} (b : Board W) where
  answer-globals :
      (o : Option ℕ) (more : M W (Unit {0})) (s : Rig W)
      → ((t : Rig W) → (more t).1.globals ≡ t.globals)
      → (answer b o more s).1.globals ≡ s.globals
  unfolding answer pure ◌>>◌ act
  answer-globals none more s h = refl
  answer-globals (some vector) more s h = h _

  pub interrupts-globals : (n : ℕ) (s : Rig W) → (interrupts b n s).1.globals ≡ s.globals
  unfolding interrupts pure ◌>>=◌ ask
  interrupts-globals zero s = refl
  interrupts-globals (suc n) s =
      answer-globals (b.take s.world).0 (interrupts b n) _ (interrupts-globals n)

  pub set_irq_line-globals :
      (n val : ℕ) (s : Rig W) → (set_irq_line b n val s).1.globals ≡ s.globals
  unfolding set_irq_line act
  set_irq_line-globals n val s = refl

  pub apic_read_bit-globals : (r n : ℕ) (s : Rig W) → (apic_read_bit b r n s).1.globals ≡ s.globals
  unfolding apic_read_bit ◌>>=◌ ask pure
  apic_read_bit-globals r n s = refl

  pub handle_irq_local-globals :
      (vec func entry : ℕ) (s : Rig W) → (handle_irq_local b vec func entry s).1.globals ≡ s.globals
  unfolding handle_irq_local set_idt_entry ◌>>=◌ ◌>>◌ ask act
  handle_irq_local-globals vec func entry s = refl
