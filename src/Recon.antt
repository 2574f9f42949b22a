-- ===== src/Recon.antt =====
-- The reconciler of internal/application/recon.
pub mod Reconciler
pub mod Drift
pub mod Evolution
pub mod Outcomes
