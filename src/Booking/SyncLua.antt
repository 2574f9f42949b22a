-- ===== src/Booking/SyncLua.antt =====
-- internal/application/booking/synclua/service.go: the tickets are taken in Redis by a script, and the
-- order is then inserted in the same call. The script of
-- internal/infrastructure/cache/sync_lua_deducter.go, lua/deduct_sync.lua, is that of
-- lua/deduct_no_xadd.lua but for its comments.
use booking_monitor.Prelude.{ℕ, ◌+◌, not, ◌==◌, if◌then◌else◌}
use booking_monitor.Prelude.Int.{ℤ, nonpositive, pos_part}
use booking_monitor.Domain.Errors.{
  Error, Result, ok, err, invalid_user_id, invalid_order_ticket_type_id, invalid_quantity, sold_out,
  fail_if,
}
use booking_monitor.Domain.Order.{Order, new_reservation}
use booking_monitor.Store.Redis.{Redis}
use booking_monitor.Store.Db.{insert_order}
use booking_monitor.Store.Exec.{
  M, pure, raise, attempt, of_result, ◌>>=◌, ◌>>◌, pool, exec, clock, new_v7, run_script,
}
use booking_monitor.Cache.Deduct.{Formats, Reply, DeductInventoryResult, deduct_no_xadd}
use booking_monitor.Cache.Inventory.{read_reply, replies}
use booking_monitor.Cache.Revert.{revert_inventory, order_compensation}
use booking_monitor.Booking.Service.{Config, Request, repair_runtime_metadata, is_metadata_missing}

abbrev pub deduct_sync : Formats → ℕ → ℕ → Redis → Reply × Redis
deduct_sync = deduct_no_xadd

-- `RedisSyncDeducter.Deduct`.
unfoldable pub deduct : Formats → ℕ → ℕ → M DeductInventoryResult
deduct fmt ticket_type_id count =
    run_script (λ c. replies (deduct_sync fmt ticket_type_id count c)) >>= λ reply.
    of_result (read_reply fmt reply)

unfoldable pub checked_request : Config → ℤ → ℕ → ℤ → M Request
checked_request cfg user_id ticket_type_id quantity = do
  of_result (fail_if (nonpositive user_id) invalid_user_id)
  of_result (fail_if (ticket_type_id == 0) invalid_order_ticket_type_id)
  of_result (fail_if (nonpositive quantity) invalid_quantity)
  order_id ← new_v7
  start ← clock
  pure record {
    order_id = order_id;
    user_id = user_id;
    ticket_type_id = ticket_type_id;
    quantity = quantity;
    reserved_until = start + cfg.reservation_window;
  }

unfoldable pub deduct_again :
    Config → Request → Result DeductInventoryResult → M DeductInventoryResult
deduct_again cfg r (ok result) = pure result
deduct_again cfg r (err e) =
    if is_metadata_missing e
    then (repair_runtime_metadata cfg.formats r.ticket_type_id
        >> deduct cfg.formats r.ticket_type_id (pos_part r.quantity))
    else raise e

-- The error of a failed revert takes the place of the first one.
abbrev pub undone : Error → Result (Unit {0}) → M Order
undone e (ok _) = raise e
undone e (err failure) = raise failure

unfoldable pub revert_after_failure : Request → Error → M Order
revert_after_failure r e =
    attempt (revert_inventory r.ticket_type_id r.quantity (order_compensation r.order_id))
    >>= undone e

unfoldable pub inserted : Request → Order → Result (Unit {0}) → M Order
inserted r o (ok _) = pure o
inserted r o (err e) = revert_after_failure r e

unfoldable pub constructed : Request → Result Order → M Order
constructed r (ok o) = attempt (exec pool (insert_order o)) >>= inserted r o
constructed r (err e) = revert_after_failure r e

unfoldable pub persist : Config → Request → DeductInventoryResult → M Order
persist cfg r result =
    if not result.is_accepted
    then raise sold_out
    else (clock >>= λ now. constructed r (
        new_reservation cfg.lower now r.order_id r.user_id result.event_id r.ticket_type_id
          r.quantity r.reserved_until result.amount_cents result.currency))

unfoldable pub book_ticket : Config → ℤ → ℕ → ℤ → M Order
book_ticket cfg user_id ticket_type_id quantity =
    checked_request cfg user_id ticket_type_id quantity >>= λ r.
    attempt (deduct cfg.formats r.ticket_type_id (pos_part r.quantity))
    >>= deduct_again cfg r
    >>= persist cfg r
