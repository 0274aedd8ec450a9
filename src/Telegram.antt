-- ===== src/Telegram.antt =====
-- The package internal/adapters/telegram: the Bot API behind a serial, paced queue.
pub mod Errors
pub mod Queue
pub mod Admission
