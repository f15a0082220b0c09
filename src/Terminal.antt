-- ===== src/Terminal.antt =====
-- Terminal sessions: internal/terminal.
pub mod Osc
