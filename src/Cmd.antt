-- ===== src/Cmd.antt =====
-- The commands of cmd.
pub mod Seed
pub mod Main
