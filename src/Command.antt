-- ===== src/Command.antt =====
-- The commands: cmd/certel.
pub mod Check
pub mod Monitor
pub mod Live
pub mod Runtimes
pub mod Logged
pub mod Resumes
pub mod Restarted
pub mod Restarts
