-- ===== src/Ioapic.antt =====
-- pcm-unit/driver/ioapic.c: the redirection entries of the I/O interrupt controller and its registers,
-- the interrupt handlers and the tests that they serve, and the local controller.
pub mod Entry
pub mod Registers
pub mod Rig
pub mod Handlers
pub mod Interrupts
pub mod LocalApic
pub mod Suite
mod Tests
