-- ===== src/Saga/Watchdog.antt =====
-- internal/application/saga/watchdog.go: orders whose compensation did not come, driven again.
use booking_monitor.Prelude.{ℕ, List, [], ◌∷◌, length, ltb, some, if◌then◌else◌}
use booking_monitor.Domain.Status.{compensated, same}
use booking_monitor.Domain.Errors.{Result, ok, err}
use booking_monitor.Domain.Order.{Order}
use booking_monitor.Application.Events.{saga_watchdog, new_order_failed_event}
use booking_monitor.Application.Metrics.{
  WatchdogOutcome, watchdog_resolved, stuck_failed_orders, watchdog_find_stuck_error,
}
use booking_monitor.Store.Db.{StuckFailed}
use booking_monitor.Store.Exec.{
  M, pure, raise, attempt, emit, ◌>>=◌, ◌>>◌, pool, clock, is_cancelled,
}
use booking_monitor.Store.Orders.{get_by_id, find_stuck_failed}
use booking_monitor.Expiry.Sweeper.{unless_cancelled}
use booking_monitor.Saga.Compensator.{handle_order_failed}

pub record Config : Type 0 where
  pub stuck_threshold : ℕ
  pub max_failed_age : ℕ
  pub batch_size : ℕ

abbrev resolved : WatchdogOutcome → M (Unit {0})
resolved o = emit (watchdog_resolved o)

unfoldable pub drive_result : Result (Unit {0}) → M (Unit {0})
drive_result (ok _) = resolved WatchdogOutcome.compensated
drive_result (err e) = resolved WatchdogOutcome.compensator_error

-- The event is encoded for the compensator, which decodes it to the same event.
unfoldable pub drive : Order → ℕ → M (Unit {0})
drive order now = do
  r ← attempt (handle_order_failed (some (new_order_failed_event now order saga_watchdog)))
  drive_result r

unfoldable pub found_result : Result Order → M (Unit {0})
found_result (err e) = resolved WatchdogOutcome.getbyid_error
found_result (ok order) =
    if same order.status compensated
    then resolved WatchdogOutcome.already_compensated
    else (clock >>= drive order)

unfoldable pub resolve : Config → StuckFailed → M (Unit {0})
resolve cfg s =
    if ltb cfg.max_failed_age s.age
    then resolved WatchdogOutcome.max_age_exceeded
    else (attempt (get_by_id pool s.id) >>= found_result)

unfoldable pub resolve_all : Config → List StuckFailed → M (Unit {0})
resolve_all cfg [] = pure tt
resolve_all cfg (s ∷ rest) =
    is_cancelled >>= λ stop. unless_cancelled stop (resolve cfg s >> resolve_all cfg rest)

unfoldable pub find_result : Config → Result (List StuckFailed) → M (Unit {0})
find_result cfg (err e) = do emit watchdog_find_stuck_error; raise e
find_result cfg (ok stuck) = do emit (stuck_failed_orders (length stuck)); resolve_all cfg stuck

unfoldable pub sweep : Config → M (Unit {0})
sweep cfg = do
  r ← attempt (find_stuck_failed pool cfg.stuck_threshold cfg.batch_size)
  find_result cfg r
