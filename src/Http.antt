-- ===== src/Http.antt =====
-- internal/infrastructure/api: the middleware of the HTTP interface.
pub mod Idempotency
pub mod Replay
