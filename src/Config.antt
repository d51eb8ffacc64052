-- ===== src/Config.antt =====
-- Package config: internal/config/config.go.
pub mod Repeat
pub mod Target
pub mod Defaults
pub mod Validate
pub mod Tree
pub mod Expand
