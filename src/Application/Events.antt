-- ===== src/Application/Events.antt =====
-- The wire event of internal/application/order_events.go, and the outbox row of
-- internal/domain/event.go that carries it. The payload of a row is JSON text in the source;
-- here it is the event that the text encodes.
use booking_monitor.Prelude.{ℕ, Option, none}
use booking_monitor.Prelude.Int.{ℤ}
use booking_monitor.Domain.Currency.{Text}
use booking_monitor.Domain.Order.{Order}

-- Where the webhook service notices that a payment came after the deadline.
pub data Detection : Type 0 where
  service_check sql_predicate post_terminal : Detection

-- The `reason` texts, one constructor for each format string of the callers.
pub data Reason : Type 0 where
  late_success_after_expiry : ℕ → Detection → Reason
  payment_failed_reason : Text → Reason
  reservation_expired_after : ℕ → Reason
  max_age_exceeded gateway_declined gateway_no_record saga_watchdog : Reason

pub record OrderFailedEvent : Type 0 where
  pub event_id : ℕ
  pub order_id : ℕ
  pub user_id : ℤ
  pub ticket_type_id : ℕ
  pub quantity : ℤ
  pub failed_at : ℕ
  pub reason : Reason
  pub version : ℕ

abbrev pub order_event_version : ℕ
order_event_version = 3

-- `now` is the reading of `time.Now()`.
unfoldable pub new_order_failed_event : ℕ → Order → Reason → OrderFailedEvent
new_order_failed_event now o reason = record {
  event_id = o.event_id;
  order_id = o.id;
  user_id = o.user_id;
  ticket_type_id = o.ticket_type_id;
  quantity = o.quantity;
  failed_at = now;
  reason = reason;
  version = order_event_version;
}

pub data OutboxStatus : Type 0 where
  pending_status : OutboxStatus

pub data EventType : Type 0 where
  order_failed : EventType

pub record OutboxEvent : Type 0 where
  pub id : ℕ
  pub event_type : EventType
  pub payload : OrderFailedEvent
  pub status : OutboxStatus
  pub created_at : ℕ
  pub processed_at : Option ℕ

-- `NewOrderFailedOutbox`, once `uuid.NewV7()` has answered `id` and `time.Now()` `now`.
unfoldable pub new_order_failed_outbox : ℕ → ℕ → OrderFailedEvent → OutboxEvent
new_order_failed_outbox id now payload = record {
  id = id;
  event_type = order_failed;
  payload = payload;
  status = pending_status;
  created_at = now;
  processed_at = none;
}
