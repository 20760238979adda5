-- ===== src/Ioapic/Handlers/Thunk.antt =====
-- ioapic.c: the bytes that `handle_irq_local` puts into a thunk, and the entry of boot_idt.
pub mod Reach
use pcm_test.Base.{
  ℕ, ◌+◌, ◌-◌, ◌*◌, ◌/◌, ◌%◌, ◌^◌, ◌<◌, ◌≡◌, ◌↔◌, List, [], ◌∷◌, ◌++◌, ltb, if◌then◌else◌, arith,
}
use pcm_test.Ioapic.Rig.{IdtEntry}

pub idt_entry : ℕ → ℕ → ℕ → IdtEntry
idt_entry cs addr dpl = record {
  offset0 = addr % 2 ^ 16;
  selector = cs % 2 ^ 16;
  ist = 0;
  type = 14;
  dpl = dpl % 2 ^ 2;
  p = 1;
  offset1 = addr / 2 ^ 16 % 2 ^ 16;
  offset2 = addr / 2 ^ 32 % 2 ^ 32;
  reserved = 0;
}

-- `boot_idt = 0` in setjmp64.S
abbrev pub boot_idt : ℕ
boot_idt = 0

-- `isr_entry_point - (thunk + 4)`, where `thunk` has moved on to the last four bytes of the jump.
pub displacement : ℕ → ℕ → ℕ
displacement entry thunk = (entry + 2 ^ 64 - (thunk + 24) % 2 ^ 64) % 2 ^ 64

-- A u32 as it is stored, lowest byte first.
abbrev u32_bytes : ℕ → List ℕ
u32_bytes v = v % 2 ^ 8 ∷ (v / 2 ^ 8 % 2 ^ 8) ∷ (v / 2 ^ 16 % 2 ^ 8) ∷ (v / 2 ^ 24 % 2 ^ 8) ∷ []

abbrev pub no_entry : List ℕ
no_entry = 0 ∷ 0 ∷ 0 ∷ 0 ∷ 0 ∷ 0 ∷ 0 ∷ 0 ∷ 0 ∷ 0 ∷ 0 ∷ 0 ∷ 0 ∷ 0 ∷ 0 ∷ 0 ∷ []

abbrev u16_bytes : ℕ → List ℕ
u16_bytes v = v % 2 ^ 8 ∷ (v / 2 ^ 8 % 2 ^ 8) ∷ []

-- An entry as it stands in memory; the unnamed bits are 0.
pub entry_bytes : IdtEntry → List ℕ
entry_bytes e =
    u16_bytes e.offset0
    ++ u16_bytes e.selector
    ++ u16_bytes (e.ist + e.type * 2 ^ 8 + e.dpl * 2 ^ 13 + e.p * 2 ^ 15)
    ++ u16_bytes e.offset1
    ++ u32_bytes e.offset2
    ++ u32_bytes e.reserved

-- sub $8, %rsp; mov $func_low, (%rsp); mov $func_high, 4(%rsp); jmp isr_entry_point. The last four
-- bytes start at `thunk + 20`, and the jump counts from behind them.
pub thunk_bytes : ℕ → ℕ → ℕ → List ℕ
thunk_bytes func entry thunk =
    (0x48 ∷ 0x83 ∷ 0xec ∷ 0x08 ∷ [])
    ++ (0xc7 ∷ 0x04 ∷ 0x24 ∷ [])
    ++ u32_bytes (func % 2 ^ 32)
    ++ (0xc7 ∷ 0x44 ∷ 0x24 ∷ 0x04 ∷ [])
    ++ u32_bytes (func / 2 ^ 32 % 2 ^ 32)
    ++ (0xe9 ∷ [])
    ++ u32_bytes (displacement entry thunk % 2 ^ 32)
