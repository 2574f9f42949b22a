-- ===== src/Booking/Sync.antt =====
-- The synchronous stages of the booking: internal/application/booking/sync/service.go, which books in one
-- transaction under the lock of the ticket type's row.
pub mod Sold
use booking_monitor.Prelude.{
  ℕ, suc, ◌+◌, ◌*◌, ◌-◌, ◌%◌, ◌^◌, ltb, Option, none, some, ◌==◌, if◌then◌else◌, update,
}
use booking_monitor.Prelude.Int.{ℤ, pos, negsuc, ◌-ℤ◌, ◌+ℤ◌, leb_ℤ, ltb_ℤ, nonpositive, pos_part}
use booking_monitor.Domain.Errors.{
  Result, ok, err, infra, invalid_user_id, invalid_order_ticket_type_id, invalid_quantity,
  ticket_type_not_found, sold_out, fail_if,
}
use booking_monitor.Domain.Currency.{Text}
use booking_monitor.Domain.Order.{Order, new_reservation}
use booking_monitor.Domain.TicketType.{TicketType}
use booking_monitor.Store.Db.{
  Db, Stmt, find_ticket_type, ticket_type_key, select_ticket_type, insert_order,
}
use booking_monitor.Store.Exec.{M, pure, raise, of_result, ◌>>=◌, ◌>>◌, tx, exec, clock, new_v7}
use booking_monitor.Store.Transaction.{transaction}

pub record Config : Type 0 where
  pub lower : Text → Text
  pub reservation_window : ℕ

-- What the caller asks for, with the fresh id of the order.
pub record Request : Type 0 where
  pub order_id : ℕ
  pub user_id : ℤ
  pub ticket_type_id : ℕ
  pub quantity : ℤ

-- The int64 with these 64 bits.
unfoldable pub from_bits : ℕ → ℤ
from_bits n = if ltb n (2 ^ 63) then pos n else negsuc (2 ^ 64 - 1 - n)

-- The price times a quantity, which is positive, in int64.
unfoldable pub times : ℤ → ℕ → ℤ
unfolding from_bits
times (pos price) n = from_bits (price * n % 2 ^ 64)
times (negsuc price) n = from_bits ((2 ^ 64 - suc price * n % 2 ^ 64) % 2 ^ 64)

-- The UPDATE has no guard but the CHECK of the table.
unfoldable pub take_stmt : ℕ → ℤ → Stmt (Unit {0})
take_stmt id quantity now d = elim (find_ticket_type id d) [
  | none ↦ (ok tt, d)
  | some t ↦
      if leb_ℤ (pos 0) (t.available_tickets -ℤ quantity)
      then (
        ok tt,
        record d {
          ticket_types =
              update ticket_type_key id
                (λ r. record r {
                  available_tickets = t.available_tickets -ℤ quantity;
                  version = r.version +ℤ pos 1;
                })
                d.ticket_types;
        },
      )
      else (err infra, d)
]

-- `NewReservation` reads the clock once more.
unfoldable pub reserve : Config → Request → TicketType → M Order
reserve cfg r t = do
  start ← clock
  now ← clock
  of_result (
      new_reservation cfg.lower now r.order_id r.user_id t.event_id r.ticket_type_id r.quantity
        (start + cfg.reservation_window) (times t.price_cents (pos_part r.quantity)) t.currency)

unfoldable pub store_order : Order → M Order
store_order o = exec tx (insert_order o) >> pure o

abbrev pub sell : Config → Request → Option TicketType → M Order
sell cfg r none = raise ticket_type_not_found
sell cfg r (some t) =
    if ltb_ℤ t.available_tickets r.quantity
    then raise sold_out
    else (exec tx (take_stmt r.ticket_type_id r.quantity) >> (reserve cfg r t >>= store_order))

unfoldable pub booking_body : Config → Request → M Order
booking_body cfg r = exec tx (select_ticket_type r.ticket_type_id) >>= sell cfg r

unfoldable pub checked_request : ℤ → ℕ → ℤ → M Request
checked_request user_id ticket_type_id quantity = do
  of_result (fail_if (nonpositive user_id) invalid_user_id)
  of_result (fail_if (ticket_type_id == 0) invalid_order_ticket_type_id)
  of_result (fail_if (nonpositive quantity) invalid_quantity)
  order_id ← new_v7
  pure record {
    order_id = order_id;
    user_id = user_id;
    ticket_type_id = ticket_type_id;
    quantity = quantity;
  }

unfoldable pub book_ticket : Config → ℤ → ℕ → ℤ → M Order
book_ticket cfg user_id ticket_type_id quantity =
    checked_request user_id ticket_type_id quantity >>= λ r. transaction (booking_body cfg r)
