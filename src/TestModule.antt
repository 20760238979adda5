-- ===== src/TestModule.antt =====
-- test_module/: a kernel module that runs one test, chosen by the parameter tc_no, when it is loaded.
pub mod Msr
pub mod Pt
pub mod Mpx
pub mod Run
pub mod Insns
pub mod Init
mod Tests
