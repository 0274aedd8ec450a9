-- ===== src/Domain.antt =====
-- The package internal/domain: values and their rules, with no input or output.
pub mod Status
pub mod Key
pub mod Agent
pub mod Events
pub mod Mapping
pub mod Threads
pub mod Sharing
pub mod Access
pub mod Reassociation
pub mod History
pub mod Command
pub mod Version
