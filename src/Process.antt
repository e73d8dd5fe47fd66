-- ===== src/Process.antt =====
-- The programs of cmd: their configuration, the start of the server, and the tools beside it.
pub mod Config
pub mod Keygen
pub mod Start
pub mod Cleanup
