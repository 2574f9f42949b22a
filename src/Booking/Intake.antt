-- ===== src/Booking/Intake.antt =====
-- internal/application/booking/service_kafka_intake.go: `BookTicket` with Kafka in place of the Redis
-- stream. Whether `PublishIntake` succeeds is a parameter, one answer for each call.
use booking_monitor.Prelude.{ℕ, true, false, not, if◌then◌else◌}
use booking_monitor.Prelude.Int.{ℤ, pos, pos_part}
use booking_monitor.Domain.Errors.{Result, ok, err, sold_out, publish_failed}
use booking_monitor.Domain.Currency.{Text}
use booking_monitor.Domain.Order.{Order, new_reservation}
use booking_monitor.Application.Metrics.{publish_failure}
use booking_monitor.Store.Exec.{M, pure, raise, attempt, of_result, emit, ◌>>=◌, ◌>>◌, clock, ask}
use booking_monitor.Cache.Deduct.{DeductInventoryResult}
use booking_monitor.Cache.Inventory.{deduct_inventory_no_stream, to_unix}
use booking_monitor.Cache.Revert.{revert_inventory, intake_compensation}
use booking_monitor.Booking.Service.{
  Config, Request, check_request, repair_runtime_metadata, is_metadata_missing,
}

pub record IntakeMessage : Type 0 where
  pub order_id : ℕ
  pub user_id : ℤ
  pub event_id : ℕ
  pub ticket_type_id : ℕ
  pub quantity : ℤ
  pub reserved_until : ℤ
  pub amount_cents : ℤ
  pub currency : Text

abbrev pub Publisher : Type 0
Publisher = IntakeMessage → ℕ → Result (Unit {0})

unfoldable pub deduct_again :
    Config → Request → Result DeductInventoryResult → M DeductInventoryResult
deduct_again cfg r (ok result) = pure result
deduct_again cfg r (err e) =
    if is_metadata_missing e
    then (repair_runtime_metadata cfg.formats r.ticket_type_id
        >> deduct_inventory_no_stream cfg.formats r.ticket_type_id (pos_part r.quantity))
    else raise e

unfoldable pub deduct_with_metadata_repair : Config → Request → M DeductInventoryResult
deduct_with_metadata_repair cfg r =
    attempt (deduct_inventory_no_stream cfg.formats r.ticket_type_id (pos_part r.quantity))
    >>= deduct_again cfg r

unfoldable pub intake_message : Request → DeductInventoryResult → IntakeMessage
intake_message r result = record {
  order_id = r.order_id;
  user_id = r.user_id;
  event_id = result.event_id;
  ticket_type_id = r.ticket_type_id;
  quantity = r.quantity;
  reserved_until = pos (to_unix r.reserved_until);
  amount_cents = result.amount_cents;
  currency = result.currency;
}

-- The count goes back where the message did not go out.
unfoldable pub revert_result : Result (Unit {0}) → M Order
revert_result (ok _) = emit (publish_failure true) >> raise publish_failed
revert_result (err e) = emit (publish_failure false) >> raise publish_failed

unfoldable pub publish_result :
    Config → Request → DeductInventoryResult → Result (Unit {0}) → M Order
publish_result cfg r result (ok _) = do
  now ← clock
  of_result (
      new_reservation cfg.lower now r.order_id r.user_id result.event_id r.ticket_type_id r.quantity
        r.reserved_until result.amount_cents result.currency)
publish_result cfg r result (err e) =
    attempt (revert_inventory r.ticket_type_id r.quantity (intake_compensation r.order_id))
    >>= revert_result

unfoldable pub publish_intake : Publisher → Config → Request → DeductInventoryResult → M Order
publish_intake publisher cfg r result =
    if not result.is_accepted
    then raise sold_out
    else (attempt (ask (publisher (intake_message r result))) >>= publish_result cfg r result)

unfoldable pub book_ticket : Publisher → Config → ℤ → ℕ → ℤ → M Order
book_ticket publisher cfg user_id ticket_type_id quantity =
    check_request cfg user_id ticket_type_id quantity >>= λ r.
    deduct_with_metadata_repair cfg r >>= publish_intake publisher cfg r
