-- ===== src/Store/Orders.antt =====
-- `postgresOrderRepository` of internal/infrastructure/persistence/postgres/repositories.go.
use booking_monitor.Prelude.{ℕ, not, ◌&&◌, List, [], ◌∷◌, ltb, ◌==◌, if◌then◌else◌}
use booking_monitor.Domain.Status.{
  OrderStatus, confirmed, pending, charging, failed, awaiting_payment, expired, payment_failed,
  compensated, same,
}
use booking_monitor.Domain.Errors.{order_not_found, invalid_transition, reservation_expired, infra}
use booking_monitor.Domain.Order.{Order}
use booking_monitor.Store.Db.{
  StuckCharging, StuckFailed, select_stuck_charging, select_stuck_failed,
}
use booking_monitor.Store.Db.{
  select_order, select_order_by_intent, transition_stmt, mark_paid_stmt, set_payment_intent_stmt,
  insert_order, ExpiredReservation, select_expired, count_overdue,
}
use booking_monitor.Store.Exec.{M, pure, raise, or_fail, ◌>>=◌, ◌>>◌, Executor, exec, clock}

unfoldable pub get_by_id : Executor → ℕ → M Order
get_by_id e id = do found ← exec e (select_order id); or_fail found order_not_found

-- The row that `toDomain` reads back has the fields of `o`.
unfoldable pub create : Executor → Order → M Order
create e o = do exec e (insert_order o); pure o

-- Where the statement affects no row, a second read tells a missing order from a wrong status.
unfoldable pub transition_status : Executor → ℕ → OrderStatus → List OrderStatus → M (Unit {0})
transition_status e id to [] = raise infra
transition_status e id to (s ∷ from) = do
  moved ← exec e (transition_stmt id to (s ∷ from))
  if moved then pure tt else do get_by_id e id; raise invalid_transition

unfoldable pub mark_charging : Executor → ℕ → M (Unit {0})
mark_charging e id = transition_status e id charging (pending ∷ [])

unfoldable pub mark_confirmed : Executor → ℕ → M (Unit {0})
mark_confirmed e id = transition_status e id confirmed (pending ∷ charging ∷ [])

unfoldable pub mark_failed : Executor → ℕ → M (Unit {0})
mark_failed e id = transition_status e id failed (pending ∷ charging ∷ [])

unfoldable pub mark_compensated : Executor → ℕ → M (Unit {0})
mark_compensated e id = transition_status e id compensated (failed ∷ expired ∷ payment_failed ∷ [])

unfoldable pub mark_awaiting_payment : Executor → ℕ → M (Unit {0})
mark_awaiting_payment e id = transition_status e id awaiting_payment (pending ∷ [])

unfoldable pub mark_expired : Executor → ℕ → M (Unit {0})
mark_expired e id = transition_status e id expired (awaiting_payment ∷ [])

unfoldable pub mark_payment_failed : Executor → ℕ → M (Unit {0})
mark_payment_failed e id = transition_status e id payment_failed (awaiting_payment ∷ [])

-- `expected` is 0 for the empty intent id of `MarkPaid`.
unfoldable pub classify_paid_guard_failure : Executor → ℕ → ℕ → M (Unit {0})
classify_paid_guard_failure e id expected = do
  cur ← get_by_id e id
  if not (same cur.status awaiting_payment) then raise invalid_transition else do
    now ← clock
    if not (ltb now cur.reserved_until)
        then raise reservation_expired
        else if (not (expected == 0)
            && not (cur.payment_intent_id == 0)
            && not (cur.payment_intent_id == expected))
        then raise invalid_transition
        else raise infra

unfoldable pub mark_paid : Executor → ℕ → M (Unit {0})
mark_paid e id = do
  moved ← exec e (mark_paid_stmt id)
  if moved then pure tt else classify_paid_guard_failure e id 0

unfoldable pub set_payment_intent_id : Executor → ℕ → ℕ → M (Unit {0})
set_payment_intent_id e id intent = do
  written ← exec e (set_payment_intent_stmt id intent)
  if written then pure tt else classify_paid_guard_failure e id intent

unfoldable pub find_by_payment_intent_id : Executor → ℕ → M Order
find_by_payment_intent_id e intent =
    if intent == 0
    then raise infra
    else do found ← exec e (select_order_by_intent intent); or_fail found order_not_found

unfoldable pub find_expired_reservations : Executor → ℕ → ℕ → M (List ExpiredReservation)
find_expired_reservations e grace limit = exec e (select_expired grace limit)

unfoldable pub count_overdue_after_cutoff : Executor → ℕ → M (ℕ × ℕ)
count_overdue_after_cutoff e grace = exec e (count_overdue grace)

unfoldable pub find_stuck_charging : Executor → ℕ → ℕ → M (List StuckCharging)
find_stuck_charging e min_age limit = exec e (select_stuck_charging min_age limit)

unfoldable pub find_stuck_failed : Executor → ℕ → ℕ → M (List StuckFailed)
find_stuck_failed e min_age limit = exec e (select_stuck_failed min_age limit)
