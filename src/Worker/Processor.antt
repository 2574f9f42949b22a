-- ===== src/Worker/Processor.antt =====
-- internal/application/worker/message_processor.go and queue_policy.go: one queued reservation
-- becomes a row of `orders`, or an error that says whether to try again.
use booking_monitor.Prelude.{ℕ, Bool, not}
use booking_monitor.Prelude.Int.{ℤ}
use booking_monitor.Domain.Errors.{Error, Result, ok, err, is_malformed_order_input}
use booking_monitor.Domain.Currency.{Text}
use booking_monitor.Domain.Order.{Order, new_reservation}
use booking_monitor.Application.Metrics.{published_order_created}
use booking_monitor.Store.Exec.{
  M, pure, attempt, of_result, emit, ◌>>=◌, ◌>>◌, tx, do_uow, clock, new_v7,
}
use booking_monitor.Store.Orders
use booking_monitor.Store.TicketTypes.{decrement_ticket}

-- `worker.QueuedBookingMessage`.
pub record Message : Type 0 where
  pub message_id : ℕ
  pub order_id : ℕ
  pub user_id : ℤ
  pub event_id : ℕ
  pub ticket_type_id : ℕ
  pub quantity : ℤ
  pub reserved_until : ℕ
  pub amount_cents : ℤ
  pub currency : Text

unfoldable pub reservation_of : (Text → Text) → ℕ → Message → Result Order
reservation_of lower now msg =
    new_reservation lower now msg.order_id msg.user_id msg.event_id msg.ticket_type_id msg.quantity
      msg.reserved_until msg.amount_cents msg.currency

-- The closure: the ticket type's row is the last gate, then the order is written.
unfoldable pub process_body : Message → Order → M Order
process_body msg order = do
  decrement_ticket tx msg.ticket_type_id msg.quantity
  Orders.create tx order

-- The message on the admin bus is best effort: where its id cannot be made, it is dropped.
unfoldable pub publish : Order → Result ℕ → M (Unit {0})
publish order (ok _) = emit (published_order_created order.id)
publish order (err _) = pure tt

unfoldable pub process : (Text → Text) → Message → M (Unit {0})
process lower msg = do
  now ← clock
  order ← of_result (reservation_of lower now msg)
  do_uow (process_body msg order)
  id ← attempt new_v7
  publish order id

-- `DefaultRetryPolicy`: whether to try again after an error.
unfoldable pub default_retry_policy : Error → Bool
default_retry_policy e = not (is_malformed_order_input e)
