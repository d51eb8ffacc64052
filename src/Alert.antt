-- ===== src/Alert.antt =====
-- Package alert: internal/alert. `Manager` decides and enqueues, `Dispatcher` delivers.
pub mod Types
pub mod Channel
pub mod Decision
pub mod Debounce
pub mod Manager
pub mod Dispatcher
pub mod Sender
pub mod Template
