-- ===== src/Store.antt =====
-- Package store: internal/store/store.go.
pub mod Tables
pub mod State
pub mod Outbox
pub mod Logs
pub mod Manager
pub mod Dispatcher
pub mod Reliable
pub mod Orphans
