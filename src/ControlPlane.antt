-- ===== src/ControlPlane.antt =====
-- The control plane: internal/controlplane, the SQLite-backed store of leases, interactions and
-- decisions.
pub mod Errors
pub mod Claims
pub mod Risk
pub mod Db
pub mod Interactions
pub mod Migration
pub mod Progress
pub mod Projections
pub mod Handoff
