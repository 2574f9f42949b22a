-- ===== src/Store/Calls.antt =====
-- What the calls of the repositories keep, for every relation between database states that the
-- statements move along.
pub mod Bookings
use booking_monitor.Prelude.{ℕ, ◌≡◌, Option, none, some, List, [], ◌∷◌, arith}
use booking_monitor.Prelude.Int.{ℤ}
use booking_monitor.Domain.Status.{
  OrderStatus, pending, charging, confirmed, failed, awaiting_payment, expired, payment_failed,
}
use booking_monitor.Domain.Graph.{edges}
use booking_monitor.Domain.Errors.{Error}
use booking_monitor.Domain.Order.{Order}
use booking_monitor.Application.Events.{OutboxEvent, OrderFailedEvent}
use booking_monitor.Store.Db.{
  Db, Stmt, select_order, transition_stmt, mark_paid_stmt, set_payment_intent_stmt,
  select_order_by_intent, decrement_stmt, increment_stmt, select_ticket_types, insert_outbox,
  insert_compensation, select_reverted, mark_reverted_stmt, select_expired, count_overdue,
  select_stuck_charging, select_stuck_failed,
}
use booking_monitor.Store.Exec.{or_fail, Executor, exec}
use booking_monitor.Store.Keeps.{
  Preorder, Keeps, Keeps-pure, Keeps-raise, Keeps-of_result, Keeps-attempt, Keeps-ask,
  Keeps-run_script, Keeps-if, Keeps-exec, Keeps-do_uow, Keeps-emit, Keeps-clock, Keeps-new_v7,
  Keeps-bind, Keeps-is_cancelled, Keeps-Achieves,
}
use booking_monitor.Store.Evolves.{
  Evolves, Evolves-Preorder, Evolves-same, AllEdges, transition-Evolves, mark_paid-Evolves,
  set_payment_intent-Evolves, insert_order-Evolves,
}
use booking_monitor.Store.Orders
use booking_monitor.Store.TicketTypes
use booking_monitor.Store.Outbox
use booking_monitor.Store.Compensations

-- What a relation between database states must allow for the calls of the payment services and the
-- sweeper to move along it.
pub record Laws (R : Db → Db → Type 0) : Type 0 where
  pub order : Preorder R
  pub untouched : (d d' : Db) → d'.orders ≡ d.orders → d'.ticket_types ≡ d.ticket_types → R d d'
  pub expires :
      (id now : ℕ) (d : Db) → R d (transition_stmt id expired (awaiting_payment ∷ []) now d).1
  pub declines :
      (id now : ℕ) (d : Db)
      → R d (transition_stmt id payment_failed (awaiting_payment ∷ []) now d).1
  pub fails :
      (id now : ℕ) (d : Db) → R d (transition_stmt id failed (pending ∷ charging ∷ []) now d).1
  pub confirms :
      (id now : ℕ) (d : Db) → R d (transition_stmt id confirmed (pending ∷ charging ∷ []) now d).1
  pub pays : (id now : ℕ) (d : Db) → R d (mark_paid_stmt id now d).1
  pub intends : (id intent now : ℕ) (d : Db) → R d (set_payment_intent_stmt id intent now d).1

pub Laws-Preorder : {R : Db → Db → Type 0} → Laws R → Preorder R
Laws-Preorder L = L.order

pub ruleset keeps_rules = (
  Laws-Preorder, Keeps-pure, Keeps-raise, Keeps-of_result, Keeps-attempt, Keeps-ask, Keeps-ask,
  Keeps-run_script, Keeps-if, Keeps-do_uow, Keeps-emit, Keeps-clock, Keeps-new_v7, Keeps-bind,
  Keeps-is_cancelled, Keeps-Achieves,
)

mark_reverted-same : (id now : ℕ) (d : Db) → (mark_reverted_stmt id now d).1.orders ≡ d.orders
unfolding mark_reverted_stmt
mark_reverted-same id now d = ground arith

mark_reverted-same_types :
    (id now : ℕ) (d : Db) → (mark_reverted_stmt id now d).1.ticket_types ≡ d.ticket_types
unfolding mark_reverted_stmt
mark_reverted-same_types id now d = ground arith

module _ {R : Db → Db → Type 0} (L : Laws R) where
  open L use {pays, intends}

  -- A statement that leaves `orders` and `event_ticket_types` alone.
  pub Keeps-untouched :
      {A : Type 0} (e : Executor) (q : Stmt A)
      → ((now : ℕ) (d : Db) → (q now d).1.orders ≡ d.orders)
      → ((now : ℕ) (d : Db) → (q now d).1.ticket_types ≡ d.ticket_types)
      → Keeps R (exec e q)
  Keeps-untouched e q h k =
      Keeps-exec L.order e q (λ now d. L.untouched d (q now d).1 (h now d) (k now d))

  pub or_fail-Keeps : {A : Type 0} (o : Option A) (e : Error) → Keeps R (or_fail o e)
  unfolding or_fail
  or_fail-Keeps none e = search keeps_rules
  or_fail-Keeps (some a) e = search keeps_rules

  pub get_by_id-Keeps : (e : Executor) (id : ℕ) → Keeps R (Orders.get_by_id e id)
  unfolding Orders.get_by_id select_order
  get_by_id-Keeps e id = search (keeps_rules, or_fail-Keeps, Keeps-untouched)

  pub find_by_payment_intent_id-Keeps :
      (e : Executor) (intent : ℕ) → Keeps R (Orders.find_by_payment_intent_id e intent)
  unfolding Orders.find_by_payment_intent_id select_order_by_intent
  find_by_payment_intent_id-Keeps e intent = search (keeps_rules, or_fail-Keeps, Keeps-untouched)

  pub find_expired_reservations-Keeps :
      (e : Executor) (grace limit : ℕ) → Keeps R (Orders.find_expired_reservations e grace limit)
  unfolding Orders.find_expired_reservations select_expired
  find_expired_reservations-Keeps e grace limit = search Keeps-untouched

  pub count_overdue-Keeps :
      (e : Executor) (grace : ℕ) → Keeps R (Orders.count_overdue_after_cutoff e grace)
  unfolding Orders.count_overdue_after_cutoff count_overdue
  count_overdue-Keeps e grace = search Keeps-untouched

  pub transition_status-Keeps :
      (e : Executor) (id : ℕ) (to : OrderStatus) (from : List OrderStatus)
      → ((now : ℕ) (d : Db) → R d (transition_stmt id to from now d).1)
      → Keeps R (Orders.transition_status e id to from)
  unfolding Orders.transition_status
  transition_status-Keeps e id to [] h = search keeps_rules
  transition_status-Keeps e id to (s ∷ from) h = search (keeps_rules, Keeps-exec, get_by_id-Keeps)

  pub mark_expired-Keeps : (e : Executor) (id : ℕ) → Keeps R (Orders.mark_expired e id)
  unfolding Orders.mark_expired
  mark_expired-Keeps e id = transition_status-Keeps e id _ _ (L.expires id)

  pub mark_payment_failed-Keeps :
      (e : Executor) (id : ℕ) → Keeps R (Orders.mark_payment_failed e id)
  unfolding Orders.mark_payment_failed
  mark_payment_failed-Keeps e id = transition_status-Keeps e id _ _ (L.declines id)

  pub mark_failed-Keeps : (e : Executor) (id : ℕ) → Keeps R (Orders.mark_failed e id)
  unfolding Orders.mark_failed
  mark_failed-Keeps e id = transition_status-Keeps e id _ _ (L.fails id)

  pub mark_confirmed-Keeps : (e : Executor) (id : ℕ) → Keeps R (Orders.mark_confirmed e id)
  unfolding Orders.mark_confirmed
  mark_confirmed-Keeps e id = transition_status-Keeps e id _ _ (L.confirms id)

  pub find_stuck_charging-Keeps :
      (e : Executor) (age limit : ℕ) → Keeps R (Orders.find_stuck_charging e age limit)
  unfolding Orders.find_stuck_charging select_stuck_charging
  find_stuck_charging-Keeps e age limit = search Keeps-untouched

  pub find_stuck_failed-Keeps :
      (e : Executor) (age limit : ℕ) → Keeps R (Orders.find_stuck_failed e age limit)
  unfolding Orders.find_stuck_failed select_stuck_failed
  find_stuck_failed-Keeps e age limit = search Keeps-untouched

  classify-Keeps :
      (e : Executor) (id expected : ℕ) → Keeps R (Orders.classify_paid_guard_failure e id expected)
  unfolding Orders.classify_paid_guard_failure
  classify-Keeps e id expected = search (keeps_rules, get_by_id-Keeps) depth 12

  pub mark_paid-Keeps : (e : Executor) (id : ℕ) → Keeps R (Orders.mark_paid e id)
  unfolding Orders.mark_paid
  mark_paid-Keeps e id = search (keeps_rules, Keeps-exec, pays, classify-Keeps)

  pub set_payment_intent_id-Keeps :
      (e : Executor) (id intent : ℕ) → Keeps R (Orders.set_payment_intent_id e id intent)
  unfolding Orders.set_payment_intent_id
  set_payment_intent_id-Keeps e id intent =
      search (keeps_rules, Keeps-exec, intends, classify-Keeps)

  pub build-Keeps : (ev : OrderFailedEvent) → Keeps R (Outbox.build ev)
  unfolding Outbox.build
  build-Keeps ev = search keeps_rules

  pub outbox_create-Keeps : (e : Executor) (row : OutboxEvent) → Keeps R (Outbox.create e row)
  unfolding Outbox.create insert_outbox
  outbox_create-Keeps e row = Keeps-untouched e _ (λ now d. ground arith) (λ now d. ground arith)

  pub record_completion-Keeps :
      (e : Executor) (id order_id : ℕ) → Keeps R (Compensations.record_completion e id order_id)
  unfolding Compensations.record_completion insert_compensation
  record_completion-Keeps e id order_id =
      Keeps-untouched e _ (λ now d. ground arith) (λ now d. ground arith)

  pub was_redis_reverted-Keeps :
      (e : Executor) (id : ℕ) → Keeps R (Compensations.was_redis_reverted e id)
  unfolding Compensations.was_redis_reverted select_reverted
  was_redis_reverted-Keeps e id = search (keeps_rules, Keeps-untouched)

  pub mark_redis_reverted-Keeps :
      (e : Executor) (id : ℕ) → Keeps R (Compensations.mark_redis_reverted e id)
  unfolding Compensations.mark_redis_reverted
  mark_redis_reverted-Keeps e id =
      search (keeps_rules, Keeps-untouched, mark_reverted-same, mark_reverted-same_types)

  pub list_by_event_id-Keeps :
      (e : Executor) (event_id : ℕ) → Keeps R (TicketTypes.list_by_event_id e event_id)
  unfolding TicketTypes.list_by_event_id select_ticket_types
  list_by_event_id-Keeps e event_id = search Keeps-untouched

pub ruleset call_rules = (
  keeps_rules, get_by_id-Keeps, find_by_payment_intent_id-Keeps, find_expired_reservations-Keeps,
  count_overdue-Keeps, find_stuck_charging-Keeps, find_stuck_failed-Keeps, mark_failed-Keeps,
  mark_confirmed-Keeps, mark_expired-Keeps, mark_payment_failed-Keeps, mark_paid-Keeps,
  set_payment_intent_id-Keeps, build-Keeps, outbox_create-Keeps, record_completion-Keeps,
  was_redis_reverted-Keeps, mark_redis_reverted-Keeps, list_by_event_id-Keeps,
)
