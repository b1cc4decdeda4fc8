-- ===== src/Cmd.antt =====
-- cmd: what the processes open, how long they run, and how they end.
pub mod Server
pub mod Worker
pub mod Migrator
