-- ===== src/Ioapic/Registers/Laws.antt =====
-- ioapic.c: what a write of a redirection entry, `set_ioapic_redir` and `set_mask` leave in the
-- controller's registers.
use pcm_test.Base.{
  ℕ, ◌%◌, ◌^◌, ◌≤◌, ◌<◌, ◌≡◌, ◌≢◌, ne→==, ==_refl, ◌∙◌, sym, arith, ◌==◌, if◌then◌else◌,
}
use pcm_test.Ioapic.Entry.{
  RedirEntry, IsEntry, Agrees, low_word, high_word, of_words, of_words-words, of_words-IsEntry,
}
use pcm_test.Ioapic.Registers.{
  Mmio, TriggerMode, edge, level, low_reg, high_reg, initial_entry, ioapic_read_reg,
  ioapic_write_reg, ioapic_write_redir, ioapic_read_redir, set_ioapic_redir, set_mask,
}

-- The controller as its data sheet has it: the window shows the register that the index names, and a
-- write of an entry that agrees with the present one in the read-only fields (delivery_status and
-- remote_irr) and in the reserved ones stores its words.
pub record IsIoapic {W : Type 0} (port : Mmio W) : Type 1 where
  pub reg : W → ℕ → ℕ
  pub written : ℕ → ℕ → ℕ → ℕ
  pub load_value : (i : ℕ) (w : W) → (port.load_window (port.store_index i w)).0 ≡ reg w i
  pub load_keeps :
      (i : ℕ) (w : W) (j : ℕ) → reg (port.load_window (port.store_index i w)).1 j ≡ reg w j
  pub store_redir :
      (i value : ℕ) (w : W) (j : ℕ)
      → 0x10 ≤ i
      → reg (port.store_window value (port.store_index i w)) j
        ≡ (if i == j then written i (reg w i) value else reg w j)
  pub written_entry :
      (line lo hi : ℕ) (e : RedirEntry)
      → IsEntry e
      → Agrees e (of_words lo hi)
      → (written (low_reg line) lo (low_word e) ≡ low_word e)
        × (written (high_reg line) hi (high_word e) ≡ high_word e)

initial_entry-IsEntry : (vec : ℕ) (trig : TriggerMode) → IsEntry (initial_entry vec trig)
unfolding initial_entry
initial_entry-IsEntry vec edge = omega arith
initial_entry-IsEntry vec level = omega arith

module _ {W : Type 0} (port : Mmio W) (d : IsIoapic port) where
  open d use {reg, written, load_value, load_keeps, store_redir, written_entry}

  -- The entry of a line, as the registers hold it.
  abbrev pub entry_of : ℕ → W → RedirEntry
  entry_of line w = of_words (reg w (low_reg line)) (reg w (high_reg line))

  pub read_redir_value : (line : ℕ) (w : W) → (ioapic_read_redir port line w).0 ≡ entry_of line w
  unfolding ioapic_read_redir ioapic_read_reg
  read_redir_value line w = rw (
    load_value (low_reg line) w,
    load_value (high_reg line) _,
    load_keeps (low_reg line) w (high_reg line),
  )

  read_redir_keeps : (line : ℕ) (w : W) (j : ℕ) → reg (ioapic_read_redir port line w).1 j ≡ reg w j
  unfolding ioapic_read_redir ioapic_read_reg
  read_redir_keeps line w j = load_keeps (high_reg line) _ j ∙ load_keeps (low_reg line) w j

  write_redir_reg :
      (line : ℕ) (e : RedirEntry) (w : W) (j : ℕ)
      → line < 2 ^ 30
      → IsEntry e
      → Agrees e (entry_of line w)
      → reg (ioapic_write_redir port line e w) j ≡ (
          if high_reg line == j
          then high_word e
          else if low_reg line == j
          then low_word e
          else reg w j)
  unfolding ioapic_write_redir ioapic_write_reg
  write_redir_reg line e w j small h a =
      let q = written_entry line (reg w (low_reg line)) (reg w (high_reg line)) e h a in
      let w1 = ioapic_write_reg port (low_reg line) (low_word e) w in
      ground (
        arith,
        q,
        store_redir (high_reg line) (high_word e) w1 j (omega arith),
        store_redir (low_reg line) (low_word e) w j (omega arith),
        store_redir (low_reg line) (low_word e) w (high_reg line) (omega arith),
      )

  -- After a write of an agreeing entry the line reads back as that entry.
  write_redir_value :
      (line : ℕ) (e : RedirEntry) (w : W)
      → line < 2 ^ 30
      → IsEntry e
      → Agrees e (entry_of line w)
      → entry_of line (ioapic_write_redir port line e w) ≡ e
  write_redir_value line e w small h a =
      rw
        (
          write_redir_reg line e w (low_reg line) small h a,
          write_redir_reg line e w (high_reg line) small h a,
          ne→== (high_reg line) (low_reg line) (omega arith),
          ==_refl (low_reg line),
          ==_refl (high_reg line),
        )
        (of_words-words e h)

  write_redir_others :
      (line : ℕ) (e : RedirEntry) (w : W) (j : ℕ)
      → line < 2 ^ 30
      → IsEntry e
      → Agrees e (entry_of line w)
      → j ≢ low_reg line
      → j ≢ high_reg line
      → reg (ioapic_write_redir port line e w) j ≡ reg w j
  write_redir_others line e w j small h a no_low no_high = rw (
    write_redir_reg line e w j small h a,
    ne→== (high_reg line) j (λ q. no_high (sym q)),
    ne→== (low_reg line) j (λ q. no_low (sym q)),
  )

  same_entry :
      (line : ℕ) (w : W) → entry_of line (ioapic_read_redir port line w).1 ≡ entry_of line w
  same_entry line w =
      rw (read_redir_keeps line w (low_reg line), read_redir_keeps line w (high_reg line))

  remasked-IsEntry :
      (line mask : ℕ) (w : W) → IsEntry (record (entry_of line w) { mask = mask % 2 })
  remasked-IsEntry line mask w =
      let h = of_words-IsEntry (reg w (low_reg line)) (reg w (high_reg line)) in ground arith

  remasked-Agrees :
      (line mask : ℕ) (w : W)
      → Agrees
          (record (entry_of line w) { mask = mask % 2 })
          (entry_of line (ioapic_read_redir port line w).1)
  remasked-Agrees line mask w = rw (same_entry line w) (ground arith)

  -- `set_mask` changes the mask bit of its line, to the lowest bit of `mask`, and nothing else: the
  -- other fields of the entry and all other registers are as before.
  pub set_mask_lem :
      (line mask : ℕ) (w : W)
      → line < 2 ^ 30
      → (entry_of line (set_mask port line mask w) ≡ record (entry_of line w) { mask = mask % 2 })
        × ((j : ℕ)
            → j ≢ low_reg line
            → j ≢ high_reg line
            → reg (set_mask port line mask w) j ≡ reg w j)
  unfolding set_mask
  set_mask_lem line mask w small = rw (read_redir_value line w) (
    write_redir_value line _ _ small (remasked-IsEntry line mask w) (remasked-Agrees line mask w),
    λ j no_low no_high.
        write_redir_others line _ _ j small (remasked-IsEntry line mask w)
          (remasked-Agrees line mask w) no_low no_high
        ∙ read_redir_keeps line w j,
  )

  -- `set_ioapic_redir` on a line that is idle (no delivery under way, reserved fields zero) leaves the
  -- entry that its initialiser describes, unmasked and for processor 0, and no other register changes.
  pub set_ioapic_redir_lem :
      (line vec : ℕ) (trig : TriggerMode) (w : W)
      → line < 2 ^ 30
      → Agrees (initial_entry vec trig) (entry_of line w)
      → (entry_of line (set_ioapic_redir port line vec trig w) ≡ initial_entry vec trig)
        × ((j : ℕ)
            → j ≢ low_reg line
            → j ≢ high_reg line
            → reg (set_ioapic_redir port line vec trig w) j ≡ reg w j)
  unfolding set_ioapic_redir
  set_ioapic_redir_lem line vec trig w small a = (
    write_redir_value line _ w small (initial_entry-IsEntry vec trig) a,
    λ j. write_redir_others line _ w j small (initial_entry-IsEntry vec trig) a,
  )
