-- ===== src/Booking.antt =====
-- The booking services of internal/application/booking.
pub mod Service
pub mod Intake
pub mod Carried
pub mod Returned
pub mod Queued
pub mod Sync
pub mod SyncLua
