-- ===== src/AgentProbe.antt =====
-- The agents that are installed.
pub mod Recommend
