-- ===== src/Alert/Template/Renders.antt =====
-- That a body which is loaded renders: internal/alert/template.go.
pub mod Fields
pub mod Substitution
pub mod Numbers
pub mod Accepted
