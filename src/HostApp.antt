-- ===== src/HostApp.antt =====
-- focus_test/hostapp/: the programs that print what the host's monitor has written to a file.
pub mod Layout
pub mod Print
pub mod CpuStates
pub mod Events
mod Tests
