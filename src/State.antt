-- ===== src/State.antt =====
-- The package internal/adapters/state: what the daemon keeps in files.
pub mod SharingStore
pub mod Inbox
