-- ===== src/App.antt =====
-- The package internal/app: what the daemon does with the domain's values.
pub mod Registry
pub mod Presence
pub mod Debouncer
pub mod Sharing
