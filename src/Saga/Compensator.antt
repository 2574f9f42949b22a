-- ===== src/Saga/Compensator.antt =====
-- internal/application/saga/compensator.go: what undoes a failed order, in the database and then in
-- Redis. A payload is the event that it decodes to, or `none` where `json.Unmarshal` fails.
use booking_monitor.Prelude.{
  ℕ, Bool, true, false, not, ◌&&◌, Option, none, some, List, [], ◌∷◌, ◌==◌, if◌then◌else◌,
}
use booking_monitor.Domain.Status.{compensated, same}
use booking_monitor.Domain.Errors.{
  Step, getbyid, list_ticket_type, incrementticket, markcompensated, record_completion, Error,
  Result, ok, err, step_failed, unmarshal, is_context_done,
}
use booking_monitor.Domain.TicketType.{TicketType}
use booking_monitor.Application.Events.{OrderFailedEvent}
use booking_monitor.Application.Metrics.{
  SagaOutcome, unmarshal_error, step_error, context_error, uow_infra_error, already_compensated,
  path_c_skipped, redis_revert_error, already_compensated_redis_error,
  compensated_redis_mark_failed, already_compensated_redis_mark_failed, saga_processed,
  saga_was_reverted_error, saga_mark_reverted_error,
}
use booking_monitor.Store.Exec.{M, pure, raise, attempt, emit, ◌>>=◌, ◌>>◌, pool, tx, do_uow}
use booking_monitor.Store.Orders.{get_by_id, mark_compensated}
use booking_monitor.Store.TicketTypes.{increment_ticket, list_by_event_id}
use booking_monitor.Store.Compensations
use booking_monitor.Cache.Revert.{order_compensation, revert_inventory}

-- `&stepError{step, err}`.
unfoldable pub tag_result : {A : Type 0} → Step → Result A → M A
tag_result step (ok a) = pure a
tag_result step (err e) = raise (step_failed step e)

unfoldable pub in_step : {A : Type 0} → Step → M A → M A
in_step step m = do r ← attempt m; tag_result step r

-- `switch len(ticketTypes)`: the only ticket type, or the zero UUID.
unfoldable pub only_ticket_type : List TicketType → ℕ
only_ticket_type [] = 0
only_ticket_type (t ∷ []) = t.id
only_ticket_type (t ∷ u ∷ ts) = 0

unfoldable pub resolve_ticket_type_id : OrderFailedEvent → M ℕ
resolve_ticket_type_id ev =
    if not (ev.ticket_type_id == 0)
    then pure ev.ticket_type_id
    else do types ← list_by_event_id tx ev.event_id; pure (only_ticket_type types)

-- What the closure leaves behind: whether the order was compensated before, and the ticket type.
abbrev pub Resolved : Type 0
Resolved = Bool × ℕ

abbrev pub already : Bool → ℕ → Resolved
already b id = (b, id)

-- Where no ticket type is known, the database's count is left alone.
unfoldable pub give_back : OrderFailedEvent → ℕ → M (Unit {0})
give_back ev ticket_type_id =
    if ticket_type_id == 0
    then pure tt
    else in_step incrementticket (increment_ticket tx ticket_type_id ev.quantity)

unfoldable pub compensate_order : OrderFailedEvent → ℕ → M Resolved
compensate_order ev ticket_type_id = do
  give_back ev ticket_type_id
  in_step markcompensated (mark_compensated tx ev.order_id)
  n ←
      in_step record_completion
        (Compensations.record_completion tx (order_compensation ev.order_id) ev.order_id)
  pure (already false ticket_type_id)

unfoldable pub compensation_of : OrderFailedEvent → Bool → ℕ → M Resolved
compensation_of ev true ticket_type_id = pure (already true ticket_type_id)
compensation_of ev false ticket_type_id = compensate_order ev ticket_type_id

unfoldable pub compensation_body : OrderFailedEvent → M Resolved
compensation_body ev = do
  order ← in_step getbyid (get_by_id tx ev.order_id)
  ticket_type_id ← in_step list_ticket_type (resolve_ticket_type_id ev)
  compensation_of ev (same order.status compensated) ticket_type_id

abbrev processed : SagaOutcome → M (Unit {0})
processed o = emit (saga_processed o)

-- `outcomeForStepError`, and the two outcomes of an error with no step.
unfoldable pub uow_outcome : Error → SagaOutcome
uow_outcome (step_failed step e) = step_error step
uow_outcome e = if is_context_done e then context_error else uow_infra_error

unfoldable pub mark_result : Bool → Result (Unit {0}) → M (Unit {0})
mark_result was_already (ok _) =
    processed (if was_already then already_compensated else SagaOutcome.compensated)
mark_result was_already (err e) = do
  emit saga_mark_reverted_error
  processed
      (if was_already then already_compensated_redis_mark_failed else compensated_redis_mark_failed)
  raise e

unfoldable pub revert_result : OrderFailedEvent → Bool → Result (Unit {0}) → M (Unit {0})
revert_result ev was_already (err e) = do
  processed (if was_already then already_compensated_redis_error else redis_revert_error)
  raise e
revert_result ev was_already (ok _) = do
  r ← attempt (Compensations.mark_redis_reverted pool (order_compensation ev.order_id))
  mark_result was_already r

unfoldable pub revert_redis : OrderFailedEvent → Resolved → M (Unit {0})
revert_redis ev (was_already, ticket_type_id) =
    if ticket_type_id == 0
    then processed (if was_already then already_compensated else path_c_skipped)
    else do
      r ← attempt (revert_inventory ticket_type_id ev.quantity (order_compensation ev.order_id))
      revert_result ev was_already r

unfoldable pub reverted_result : OrderFailedEvent → Resolved → Result Bool → M (Unit {0})
reverted_result ev p (err e) = do emit saga_was_reverted_error; revert_redis ev p
reverted_result ev p (ok true) = processed already_compensated
reverted_result ev p (ok false) = revert_redis ev p

unfoldable pub check_reverted : OrderFailedEvent → Resolved → M (Unit {0})
check_reverted ev p = do
  r ← attempt (Compensations.was_redis_reverted pool (order_compensation ev.order_id))
  reverted_result ev p r

unfoldable pub after_uow : OrderFailedEvent → Result Resolved → M (Unit {0})
after_uow ev (err e) = do processed (uow_outcome e); raise e
after_uow ev (ok (was_already, ticket_type_id)) =
    if (was_already && not (ticket_type_id == 0))
    then check_reverted ev (already was_already ticket_type_id)
    else revert_redis ev (already was_already ticket_type_id)

unfoldable pub handle_order_failed : Option OrderFailedEvent → M (Unit {0})
handle_order_failed none = do processed unmarshal_error; raise unmarshal
handle_order_failed (some ev) = do r ← attempt (do_uow (compensation_body ev)); after_uow ev r
