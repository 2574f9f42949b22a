-- ===== src/Application.antt =====
-- What the application layer shares (internal/application): wire events and metrics.
pub mod Events
pub mod Metrics
