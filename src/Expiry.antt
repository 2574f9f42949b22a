-- ===== src/Expiry.antt =====
-- The reservation expiry sweeper of internal/application/expiry.
pub mod Sweeper
pub mod Evolution
pub mod Outcomes
pub mod Transaction
pub mod Stage5
pub mod Undone
pub mod Abandoned
