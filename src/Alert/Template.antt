-- ===== src/Alert/Template.antt =====
-- internal/alert/template.go: the body of a notifier, checked when it is loaded and rendered for
-- every alert.
pub mod Times
pub mod Payload
pub mod Body
pub mod Render
pub mod Merge
pub mod Renders
