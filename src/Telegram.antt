-- ===== src/Telegram.antt =====
-- Notifications by Telegram.
pub mod Mapping
