-- ===== src/Ioapic/Registers.antt =====
-- ioapic.c: the registers of the I/O interrupt controller, behind an index and a window.
pub mod Laws
pub mod Access
use Prim.Native.Nat.{bit_xor}
use pcm_test.Base.{ℕ, ◌+◌, ◌*◌, ◌%◌, ◌^◌, List, [], ◌∷◌}
use pcm_test.Base.Kernel.{Sys, M, pure, ◌>>=◌, ◌>>◌, printk, outside}
use pcm_test.Ioapic.Entry.{RedirEntry, low_word, high_word, of_words}

-- The memory-mapped controller: a store to `g_ioapic`, and a load and a store at `g_ioapic + 0x10`.
pub record Mmio (W : Type 0) : Type 0 where
  pub store_index : ℕ → W → W
  pub load_window : W → ℕ × W
  pub store_window : ℕ → W → W

-- `trigger_mode_t`
pub data TriggerMode : Type 0 where
  edge level : TriggerMode

abbrev pub trigger_bit : TriggerMode → ℕ
trigger_bit edge = 0
trigger_bit level = 1

-- The registers of a line, as unsigned arithmetic.
abbrev pub low_reg : ℕ → ℕ
low_reg line = (0x10 + line * 2 + 0) % 2 ^ 32

abbrev pub high_reg : ℕ → ℕ
high_reg line = (0x10 + line * 2 + 1) % 2 ^ 32

-- The fields that the initialiser leaves out are zero; `vector` keeps eight bits.
unfoldable pub initial_entry : ℕ → TriggerMode → RedirEntry
initial_entry vec trig = record {
  vector = vec % 2 ^ 8;
  delivery_mode = 0;
  dest_mode = 0;
  delivery_status = 0;
  polarity = 0;
  remote_irr = 0;
  trig_mode = trigger_bit trig;
  mask = 0;
  reserve = 0;
  reserved0 = 0;
  reserved1 = 0;
  reserved2 = 0;
  reserved3 = 0;
  dest_id = 0;
}

module _ {W : Type 0} (port : Mmio W) where
  pub ioapic_read_reg : ℕ → W → ℕ × W
  ioapic_read_reg reg w = port.load_window (port.store_index reg w)

  pub ioapic_write_reg : ℕ → ℕ → W → W
  ioapic_write_reg reg value w = port.store_window value (port.store_index reg w)

  pub ioapic_write_redir : ℕ → RedirEntry → W → W
  ioapic_write_redir line e w =
      ioapic_write_reg (high_reg line) (high_word e)
        (ioapic_write_reg (low_reg line) (low_word e) w)

  pub ioapic_read_redir : ℕ → W → RedirEntry × W
  ioapic_read_redir line w =
      let lo = ioapic_read_reg (low_reg line) w in
      let hi = ioapic_read_reg (high_reg line) lo.1 in (of_words lo.0 hi.0, hi.1)

  pub set_ioapic_redir : ℕ → ℕ → TriggerMode → W → W
  set_ioapic_redir line vec trig = ioapic_write_redir line (initial_entry vec trig)

  -- `mask` is an int, of which the bit-field keeps the lowest bit.
  pub set_mask : ℕ → ℕ → W → W
  set_mask line mask w =
      let r = ioapic_read_redir line w in
      ioapic_write_redir line (record r.0 { mask = mask % 2 }) r.1

  abbrev write_reg : ℕ → ℕ → M W (Unit {0})
  write_reg reg value s = (tt, record s { world = ioapic_write_reg reg value s.world })

  abbrev read_reg : ℕ → M W ℕ
  read_reg reg = outside (ioapic_read_reg reg)

  pub ioapic_reg_version : M W (Unit {0})
  ioapic_reg_version = do
    data_read ← read_reg 0x01
    write_reg 0x01 (bit_xor data_read 0xffff_ffff)
    again ← read_reg 0x01
    printk "version register read only test, version0=%d, version1=%d\n" (data_read ∷ again ∷ [])

  pub ioapic_reg_id : M W (Unit {0})
  ioapic_reg_id = do
    data_read ← read_reg 0x0
    write_reg 0x0 (bit_xor data_read 0xffff_ffff)
    again ← read_reg 0x0
    printk "id register only bits [24:27] writable, diff=%x\n" (bit_xor data_read again ∷ [])

  pub ioapic_arbitration_id : M W (Unit {0})
  ioapic_arbitration_id = do
    write_reg 0x0 0x0f00_0000
    arb ← read_reg 0x2
    printk "arbitration register set by id, write=%x, ioapic_read_reg(arb_offset)=%x\n"
        (0x0f00_0000 ∷ arb ∷ [])
    write_reg 0x2 0x0
    arb' ← read_reg 0x2
    printk "arbtration register read only, write=%x, ioapic_read_reg(arb_offset)=%x\n"
        (0x0f00_0000 ∷ arb' ∷ [])
