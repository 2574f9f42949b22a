-- ===== src/Booking/Service.antt =====
-- internal/application/booking/service.go: `BookTicket` with the Redis stream. An int is a number of
-- 64 bits; the texts of the errors are not kept, only their sentinels.
use booking_monitor.Prelude.{ℕ, ◌+◌, Bool, true, false, not, ltb, ◌==◌, if◌then◌else◌}
use booking_monitor.Prelude.Int.{ℤ, pos_part, nonpositive}
use booking_monitor.Domain.Errors.{
  Error, Result, ok, err, invalid_user_id, invalid_order_ticket_type_id, invalid_quantity,
  invalid_reserved_until, sold_out, runtime_metadata_missing, fail_if,
}
use booking_monitor.Domain.Currency.{Text}
use booking_monitor.Domain.Order.{Order, new_reservation}
use booking_monitor.Store.Exec.{
  M, pure, raise, attempt, of_result, ◌>>=◌, ◌>>◌, pool, clock, new_v7,
}
use booking_monitor.Store.Orders.{get_by_id}
use booking_monitor.Store.TicketTypes.{get_ticket_type}
use booking_monitor.Cache.Deduct.{Formats, DeductInventoryResult}
use booking_monitor.Cache.Inventory.{deduct_inventory, set_ticket_type_metadata}

-- What the service is wired with.
pub record Config : Type 0 where
  pub formats : Formats
  pub lower : Text → Text
  pub reservation_window : ℕ

-- What the caller asks for, with the fresh id of the order and the deadline.
pub record Request : Type 0 where
  pub order_id : ℕ
  pub user_id : ℤ
  pub ticket_type_id : ℕ
  pub quantity : ℤ
  pub reserved_until : ℕ

-- The tests before any call of Redis; the deadline counts from one reading of the clock and is
-- compared with another.
unfoldable pub check_request : Config → ℤ → ℕ → ℤ → M Request
check_request cfg user_id ticket_type_id quantity = do
  order_id ← new_v7
  of_result (fail_if (nonpositive user_id) invalid_user_id)
  of_result (fail_if (ticket_type_id == 0) invalid_order_ticket_type_id)
  of_result (fail_if (nonpositive quantity) invalid_quantity)
  start ← clock
  now ← clock
  of_result (fail_if (not (ltb now (start + cfg.reservation_window))) invalid_reserved_until)
  pure record {
    order_id = order_id;
    user_id = user_id;
    ticket_type_id = ticket_type_id;
    quantity = quantity;
    reserved_until = start + cfg.reservation_window;
  }

-- The answer of a deduction that did not fail.
unfoldable pub answer : Config → Request → DeductInventoryResult → M Order
answer cfg r result = if not result.is_accepted then raise sold_out else do
  now ← clock
  of_result (
      new_reservation cfg.lower now r.order_id r.user_id result.event_id r.ticket_type_id r.quantity
        r.reserved_until result.amount_cents result.currency)

unfoldable pub repair_runtime_metadata : Formats → ℕ → M (Unit {0})
repair_runtime_metadata fmt ticket_type_id = do
  t ← get_ticket_type pool ticket_type_id
  set_ticket_type_metadata fmt t

-- The quantity is positive here, so that its positive part is all of it.
unfoldable pub deduct : Config → Request → M DeductInventoryResult
deduct cfg r =
    deduct_inventory cfg.formats r.order_id r.ticket_type_id r.user_id (pos_part r.quantity)
      r.reserved_until

abbrev pub is_metadata_missing : Error → Bool
is_metadata_missing runtime_metadata_missing = true
is_metadata_missing _ = false

-- One repair of the metadata, and one more deduction.
unfoldable pub first_result : Config → Request → Result DeductInventoryResult → M Order
first_result cfg r (ok result) = answer cfg r result
first_result cfg r (err e) =
    if is_metadata_missing e
    then (repair_runtime_metadata cfg.formats r.ticket_type_id >> (deduct cfg r >>= answer cfg r))
    else raise e

unfoldable pub book_request : Config → Request → M Order
book_request cfg r = attempt (deduct cfg r) >>= first_result cfg r

unfoldable pub book_ticket : Config → ℤ → ℕ → ℤ → M Order
book_ticket cfg user_id ticket_type_id quantity =
    check_request cfg user_id ticket_type_id quantity >>= book_request cfg

unfoldable pub get_order : ℕ → M Order
get_order id = get_by_id pool id
