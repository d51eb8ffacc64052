-- ===== src/Probe.antt =====
-- Package probe: internal/probe.
pub mod Result
pub mod Check
pub mod Attempts
pub mod Starttls
