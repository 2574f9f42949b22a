-- ===== src/Store/Silent.antt =====
-- The repository calls (repositories.go) and the counters.
use booking_monitor.Prelude.{ℕ, Bool, Option, none, some, List, [], ◌∷◌}
use booking_monitor.Prelude.Int.{ℤ}
use booking_monitor.Domain.Status.{OrderStatus}
use booking_monitor.Domain.Errors.{Error}
use booking_monitor.Application.Metrics.{Metric}
use booking_monitor.Application.Events.{OutboxEvent, OrderFailedEvent}
use booking_monitor.Store.Exec.{or_fail, Executor}
use booking_monitor.Store.Tally.{Counts, counting}
use booking_monitor.Store.Orders
use booking_monitor.Store.TicketTypes
use booking_monitor.Store.Outbox
use booking_monitor.Store.Compensations

module _ {p : Metric → Bool} where
  or_fail-silent : {A : Type 0} (o : Option A) (e : Error) → Counts p 0 (or_fail o e)
  unfolding or_fail
  or_fail-silent none e = search counting
  or_fail-silent (some a) e = search counting

  pub get_by_id-silent : (e : Executor) (id : ℕ) → Counts p 0 (Orders.get_by_id e id)
  unfolding Orders.get_by_id
  get_by_id-silent e id = search (counting, or_fail-silent)

  transition_status-silent :
      (e : Executor) (id : ℕ) (to : OrderStatus) (from : List OrderStatus)
      → Counts p 0 (Orders.transition_status e id to from)
  unfolding Orders.transition_status
  transition_status-silent e id to [] = search counting
  transition_status-silent e id to (s ∷ from) = search (counting, get_by_id-silent)

  pub mark_expired-silent : (e : Executor) (id : ℕ) → Counts p 0 (Orders.mark_expired e id)
  unfolding Orders.mark_expired
  mark_expired-silent e id = transition_status-silent e id _ _

  pub mark_compensated-silent : (e : Executor) (id : ℕ) → Counts p 0 (Orders.mark_compensated e id)
  unfolding Orders.mark_compensated
  mark_compensated-silent e id = transition_status-silent e id _ _

  pub mark_failed-silent : (e : Executor) (id : ℕ) → Counts p 0 (Orders.mark_failed e id)
  unfolding Orders.mark_failed
  mark_failed-silent e id = transition_status-silent e id _ _

  pub mark_confirmed-silent : (e : Executor) (id : ℕ) → Counts p 0 (Orders.mark_confirmed e id)
  unfolding Orders.mark_confirmed
  mark_confirmed-silent e id = transition_status-silent e id _ _

  pub build-silent : (ev : OrderFailedEvent) → Counts p 0 (Outbox.build ev)
  unfolding Outbox.build
  build-silent ev = search counting

  pub outbox_create-silent : (e : Executor) (row : OutboxEvent) → Counts p 0 (Outbox.create e row)
  unfolding Outbox.create
  outbox_create-silent e row = search counting

  pub increment_ticket-silent :
      (e : Executor) (id : ℕ) (n : ℤ) → Counts p 0 (TicketTypes.increment_ticket e id n)
  unfolding TicketTypes.increment_ticket
  increment_ticket-silent e id n = search counting

  pub list_by_event_id-silent :
      (e : Executor) (event_id : ℕ) → Counts p 0 (TicketTypes.list_by_event_id e event_id)
  unfolding TicketTypes.list_by_event_id
  list_by_event_id-silent e event_id = search counting

  pub record_completion-silent :
      (e : Executor) (id order_id : ℕ) → Counts p 0 (Compensations.record_completion e id order_id)
  unfolding Compensations.record_completion
  record_completion-silent e id order_id = search counting

  pub was_redis_reverted-silent :
      (e : Executor) (id : ℕ) → Counts p 0 (Compensations.was_redis_reverted e id)
  unfolding Compensations.was_redis_reverted
  was_redis_reverted-silent e id = search counting

  pub mark_redis_reverted-silent :
      (e : Executor) (id : ℕ) → Counts p 0 (Compensations.mark_redis_reverted e id)
  unfolding Compensations.mark_redis_reverted
  mark_redis_reverted-silent e id = search counting

pub ruleset silent_calls = (
  counting, get_by_id-silent, mark_failed-silent, mark_confirmed-silent, mark_expired-silent,
  mark_compensated-silent, build-silent, outbox_create-silent, increment_ticket-silent,
  list_by_event_id-silent, record_completion-silent, was_redis_reverted-silent,
  mark_redis_reverted-silent,
)
