-- ===== src/Ioapic/Registers/Access.antt =====
-- ioapic.c: operations on the I/O controller leave alone what its port leaves alone.
use pcm_test.Base.{ℕ, ◌≡◌, ◌∙◌}
use pcm_test.Base.Kernel.{Sys}
use pcm_test.Ioapic.Entry.{RedirEntry}
use pcm_test.Ioapic.Registers.{
  Mmio, TriggerMode, ioapic_read_reg, ioapic_write_reg, ioapic_read_redir, ioapic_write_redir,
  set_mask, set_ioapic_redir, ioapic_reg_version, ioapic_reg_id, ioapic_arbitration_id,
}

pub record KeepsPort {W : Type 0} (level : W → ℕ) (port : Mmio W) : Type 0 where
  pub store_index-keeps : (i : ℕ) (w : W) → level (port.store_index i w) ≡ level w
  pub load_window-keeps : (w : W) → level (port.load_window w).1 ≡ level w
  pub store_window-keeps : (v : ℕ) (w : W) → level (port.store_window v w) ≡ level w

module _ {W : Type 0} {level : W → ℕ} {port : Mmio W} (k : KeepsPort level port) where
  open k use {store_index-keeps, load_window-keeps, store_window-keeps}

  read_reg-keeps : (r : ℕ) (w : W) → level (ioapic_read_reg port r w).1 ≡ level w
  unfolding ioapic_read_reg
  read_reg-keeps r w = load_window-keeps _ ∙ store_index-keeps r w

  write_reg-keeps : (r v : ℕ) (w : W) → level (ioapic_write_reg port r v w) ≡ level w
  unfolding ioapic_write_reg
  write_reg-keeps r v w = store_window-keeps v _ ∙ store_index-keeps r w

  write_redir-keeps :
      (n : ℕ) (e : RedirEntry) (w : W) → level (ioapic_write_redir port n e w) ≡ level w
  unfolding ioapic_write_redir
  write_redir-keeps n e w = write_reg-keeps _ _ _ ∙ write_reg-keeps _ _ w

  pub set_ioapic_redir-keeps :
      (n vec : ℕ) (trig : TriggerMode) (w : W)
      → level (set_ioapic_redir port n vec trig w) ≡ level w
  unfolding set_ioapic_redir
  set_ioapic_redir-keeps n vec trig w = write_redir-keeps n _ w

  pub set_mask-keeps : (n mask : ℕ) (w : W) → level (set_mask port n mask w) ≡ level w
  unfolding set_mask ioapic_read_redir
  set_mask-keeps n mask w = write_redir-keeps n _ _ ∙ read_reg-keeps _ _ ∙ read_reg-keeps _ w

  pub reg_version-keeps : (s : Sys W) → level (ioapic_reg_version port s).1.world ≡ level s.world
  unfolding ioapic_reg_version
  reg_version-keeps s = read_reg-keeps _ _ ∙ write_reg-keeps _ _ _ ∙ read_reg-keeps _ _

  pub reg_id-keeps : (s : Sys W) → level (ioapic_reg_id port s).1.world ≡ level s.world
  unfolding ioapic_reg_id
  reg_id-keeps s = read_reg-keeps _ _ ∙ write_reg-keeps _ _ _ ∙ read_reg-keeps _ _

  pub arbitration_id-keeps :
      (s : Sys W) → level (ioapic_arbitration_id port s).1.world ≡ level s.world
  unfolding ioapic_arbitration_id
  arbitration_id-keeps s =
      read_reg-keeps _ _ ∙ write_reg-keeps _ _ _ ∙ read_reg-keeps _ _ ∙ write_reg-keeps _ _ _
