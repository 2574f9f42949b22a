-- ===== src/Expiry/Sweeper.antt =====
-- internal/application/expiry/sweeper.go. Ages and configured durations are numbers of nanoseconds.
use booking_monitor.Prelude.{ℕ, Bool, true, false, not, List, [], ◌∷◌, ltb, if◌then◌else◌}
use booking_monitor.Domain.Status.{awaiting_payment, same}
use booking_monitor.Domain.Errors.{
  Result, ok, err, outbox_create_failed, context_done, is_invalid_transition,
  is_outbox_create_failed,
}
use booking_monitor.Domain.Order.{Order}
use booking_monitor.Application.Events.{
  OutboxEvent, reservation_expired_after, new_order_failed_event,
}
use booking_monitor.Application.Metrics.{
  ExpiryOutcome, expiry_resolved, expiry_max_age_exceeded, expiry_find_expired_error,
  expiry_backlog,
}
use booking_monitor.Store.Db.{ExpiredReservation}
use booking_monitor.Store.Exec.{
  M, pure, raise, attempt, emit, ◌>>=◌, ◌>>◌, pool, tx, do_uow, clock, is_cancelled,
}
use booking_monitor.Store.Orders.{
  get_by_id, mark_expired, find_expired_reservations, count_overdue_after_cutoff,
}
use booking_monitor.Store.Outbox

pub record Config : Type 0 where
  pub expiry_grace_period : ℕ
  pub batch_size : ℕ
  pub max_age : ℕ

-- `fmt.Errorf("%w: %w", errOutboxCreateFailed, createErr)`.
unfoldable pub tag_create : Result (Unit {0}) → M (Unit {0})
tag_create (ok _) = pure tt
tag_create (err e) = raise outbox_create_failed

unfoldable pub expire_body : Order → OutboxEvent → M (Unit {0})
expire_body order row = do
  mark_expired tx order.id
  r ← attempt (Outbox.create tx row)
  tag_create r

abbrev resolved : ExpiryOutcome → M (Unit {0})
resolved o = emit (expiry_resolved o)

unfoldable pub expire_result : Bool → Result (Unit {0}) → M (Unit {0})
expire_result true (ok _) = do resolved ExpiryOutcome.expired_overaged; emit expiry_max_age_exceeded
expire_result false (ok _) = resolved ExpiryOutcome.expired
expire_result over_aged (err e) =
    if is_invalid_transition e
    then resolved ExpiryOutcome.already_terminal
    else if is_outbox_create_failed e
    then resolved ExpiryOutcome.outbox_error
    else resolved ExpiryOutcome.transition_error

-- The outbox row is built before the unit of work.
unfoldable pub build_result : Bool → Order → Result OutboxEvent → M (Unit {0})
build_result over_aged order (err e) = resolved ExpiryOutcome.marshal_error
build_result over_aged order (ok row) = do
  r ← attempt (do_uow (expire_body order row))
  expire_result over_aged r

unfoldable pub found_result : Bool → Result Order → M (Unit {0})
found_result over_aged (err e) = resolved ExpiryOutcome.getbyid_error
found_result over_aged (ok order) =
    if not (same order.status awaiting_payment) then resolved ExpiryOutcome.already_terminal else do
      now ← clock
      row ← attempt (
          Outbox.build
            (new_order_failed_event now order (reservation_expired_after order.reserved_until)))
      build_result over_aged order row

unfoldable pub resolve : Config → ExpiredReservation → M (Unit {0})
resolve cfg e = do found ← attempt (get_by_id pool e.id); found_result (ltb cfg.max_age e.age) found

abbrev pub unless_cancelled : Bool → M (Unit {0}) → M (Unit {0})
unless_cancelled true m = raise context_done
unless_cancelled false m = m

-- The loop of `Sweep`, with its check of the context before each row.
unfoldable pub resolve_all : Config → List ExpiredReservation → M (Unit {0})
resolve_all cfg [] = pure tt
resolve_all cfg (e ∷ es) =
    is_cancelled >>= λ stop. unless_cancelled stop (resolve cfg e >> resolve_all cfg es)

unfoldable pub count_result : Result (ℕ × ℕ) → M (Unit {0})
count_result (ok (count, oldest)) = emit (expiry_backlog count oldest)
count_result (err e) = do emit expiry_find_expired_error; raise e

unfoldable pub find_result : Config → Result (List ExpiredReservation) → M (Unit {0})
find_result cfg (err e) = do emit expiry_find_expired_error; raise e
find_result cfg (ok expired) = do
  resolve_all cfg expired
  r ← attempt (count_overdue_after_cutoff pool cfg.expiry_grace_period)
  count_result r

unfoldable pub sweep : Config → M (Unit {0})
sweep cfg = do
  r ← attempt (find_expired_reservations pool cfg.expiry_grace_period cfg.batch_size)
  find_result cfg r
