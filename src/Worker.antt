-- ===== src/Worker.antt =====
-- The order-stream worker of internal/application/worker.
pub mod Processor
pub mod Wire
pub mod Reading
pub mod Queue
pub mod Subscribe
pub mod Surrender
pub mod Compensation
pub mod Settled
pub mod Stored
pub mod Delivery
pub mod Roundtrip
pub mod Evolution
pub mod Conservation
