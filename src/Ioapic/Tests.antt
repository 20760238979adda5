-- ===== src/Ioapic/Tests.antt =====
-- ioapic.c: the theorems on the controller's registers, on a controller that stores what it is given.
use pcm_test.Base.{ℕ, ◌≡◌, ◌≢◌, refl, update, ◌==◌, if◌then◌else◌, arith}
use pcm_test.Ioapic.Registers.{Mmio, set_mask}
use pcm_test.Ioapic.Registers.Laws.{IsIoapic, entry_of, set_mask_lem}

record Device : Type 0 where
  index : ℕ
  file : ℕ → ℕ

abbrev device_port : Mmio Device
device_port = record {
  store_index = λ i w. record w { index = i };
  load_window = λ w. (w.file w.index, w);
  store_window = λ v w. record w { file = update w.file w.index v };
}

abbrev device_laws : IsIoapic device_port
device_laws = record {
  reg = λ w. w.file;
  written = λ i old v. v;
  load_value = λ i w. refl;
  load_keeps = λ i w j. refl;
  store_redir = λ i v w j h. refl;
  written_entry = λ line lo hi e h a. (refl, refl);
}

-- Line 14 holds vector 0x77, level triggered, for processor 3.
abbrev ready_device : Device
ready_device = record {
  index = 0;
  file = λ i. if i == 44 then 0x8077 else if i == 45 then 0x0300_0000 else 0;
}

set_mask_lem_example :
    (entry_of device_port device_laws 14 (set_mask device_port 14 1 ready_device)
      ≡ record (entry_of device_port device_laws 14 ready_device) { mask = 1 })
    × ((j : ℕ)
        → j ≢ 44
        → j ≢ 45
        → (set_mask device_port 14 1 ready_device).file j ≡ ready_device.file j)
set_mask_lem_example = set_mask_lem device_port device_laws 14 1 ready_device (omega arith)
