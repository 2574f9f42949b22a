-- ===== src/Saga.antt =====
-- The saga of internal/application/saga.
pub mod Compensator
pub mod Evolution
pub mod Conservation
pub mod Delivery
pub mod Outcomes
pub mod Watchdog
pub mod Vigilance
