-- ===== src/Tests.antt =====
-- Concrete runs of the model, by part of the program.
pub mod Data
pub mod Sharing
pub mod Topics
pub mod Pacing
pub mod Agents
pub mod Moving
pub mod Quiet
pub mod Timing
pub mod Shares
pub mod Commands
pub mod Screens
pub mod Files
