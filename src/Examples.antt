-- ===== src/Examples.antt =====
-- A target with its notifiers and stores, and the theorems applied to them.
mod Data
mod Config
mod Debounce
mod Decision
mod Restart
mod Store
mod Delivery
mod Check
mod Loading
mod Sending
mod Starttls
mod Template
mod Monitor
