-- ===== src/Payment.antt =====
-- The payment services of internal/application/payment.
pub mod Service
pub mod Webhook
pub mod Evolution
