-- ===== src/Saga/Evolution.antt =====
-- The calls of internal/application/saga/compensator.go, one lemma for each function of the model.
use booking_monitor.Prelude.{refl, ◌≡◌, ℕ, Bool, true, false, Option, none, some}
use booking_monitor.Prelude.Int.{ℤ}
use booking_monitor.Domain.Errors.{Step, Result, ok, err}
use booking_monitor.Application.Events.{OrderFailedEvent}
use booking_monitor.Store.Exec.{M}
use booking_monitor.Store.Db.{Db}
use booking_monitor.Store.Keeps.{Keeps, Achieves, Keeps-bind, Keeps-attempt, Keeps-do_uow}
use booking_monitor.Store.Evolves.{Evolves}
use booking_monitor.Store.Calls.{Laws, call_rules}
use booking_monitor.Store.Calls.Bookings.{booking_rules}
use booking_monitor.Cache.Revert.{revert_inventory}
use booking_monitor.Saga.Compensator

tag_result-Keeps :
    {A : Type 0} (t : Step) (r : Result A) → Keeps Evolves (Compensator.tag_result t r)
unfolding Compensator.tag_result
tag_result-Keeps t (ok a) = search booking_rules
tag_result-Keeps t (err e) = search booking_rules

in_step-Keeps :
    {A : Type 0} (t : Step) (m : M A) → Keeps Evolves m → Keeps Evolves (Compensator.in_step t m)
unfolding Compensator.in_step
in_step-Keeps t m k = search (booking_rules, tag_result-Keeps)

resolve-Keeps : (ev : OrderFailedEvent) → Keeps Evolves (Compensator.resolve_ticket_type_id ev)
unfolding Compensator.resolve_ticket_type_id
resolve-Keeps ev = search booking_rules

give_back-Keeps : (ev : OrderFailedEvent) (t : ℕ) → Keeps Evolves (Compensator.give_back ev t)
unfolding Compensator.give_back
give_back-Keeps ev t = search (booking_rules, in_step-Keeps)

compensate_order-Keeps :
    (ev : OrderFailedEvent) (t : ℕ) → Keeps Evolves (Compensator.compensate_order ev t)
unfolding Compensator.compensate_order
compensate_order-Keeps ev t = search (booking_rules, in_step-Keeps, give_back-Keeps) depth 8

compensation_of-Keeps :
    (ev : OrderFailedEvent) (b : Bool) (t : ℕ) → Keeps Evolves (Compensator.compensation_of ev b t)
unfolding Compensator.compensation_of
compensation_of-Keeps ev true t = search booking_rules
compensation_of-Keeps ev false t = compensate_order-Keeps ev t

pub compensation_body-Keeps :
    (ev : OrderFailedEvent) → Keeps Evolves (Compensator.compensation_body ev)
unfolding Compensator.compensation_body
compensation_body-Keeps ev =
    search (booking_rules, in_step-Keeps, resolve-Keeps, compensation_of-Keeps) depth 8

module _ {R : Db → Db → Type 0} (L : Laws R) where
  mark_result-Keeps : (b : Bool) (r : Result (Unit {0})) → Keeps R (Compensator.mark_result b r)
  unfolding Compensator.mark_result
  mark_result-Keeps b (ok _) = search call_rules
  mark_result-Keeps b (err e) = search call_rules depth 7

  revert_result-Keeps :
      (ev : OrderFailedEvent) (b : Bool) (r : Result (Unit {0}))
      → Keeps R (Compensator.revert_result ev b r)
  unfolding Compensator.revert_result
  revert_result-Keeps ev b (ok _) = search (call_rules, mark_result-Keeps)
  revert_result-Keeps ev b (err e) = search call_rules

  revert_inventory-Keeps : (t : ℕ) (n : ℤ) (c : ℕ) → Keeps R (revert_inventory t n c)
  unfolding revert_inventory
  revert_inventory-Keeps t n c = search call_rules

  revert_redis-Keeps :
      (ev : OrderFailedEvent) (p : Compensator.Resolved) → Keeps R (Compensator.revert_redis ev p)
  unfolding Compensator.revert_redis
  revert_redis-Keeps ev (b, t) =
      search (call_rules, revert_inventory-Keeps, revert_result-Keeps) depth 8

  reverted_result-Keeps :
      (ev : OrderFailedEvent) (p : Compensator.Resolved) (r : Result Bool)
      → Keeps R (Compensator.reverted_result ev p r)
  unfolding Compensator.reverted_result
  reverted_result-Keeps ev p (err e) = search (call_rules, revert_redis-Keeps)
  reverted_result-Keeps ev p (ok true) = search call_rules
  reverted_result-Keeps ev p (ok false) = revert_redis-Keeps ev p

  check_reverted-Keeps :
      (ev : OrderFailedEvent) (p : Compensator.Resolved) → Keeps R (Compensator.check_reverted ev p)
  unfolding Compensator.check_reverted
  check_reverted-Keeps ev p = search (call_rules, reverted_result-Keeps)

  after_uow-Keeps :
      (ev : OrderFailedEvent) (r : Result Compensator.Resolved)
      → Keeps R (Compensator.after_uow ev r)
  unfolding Compensator.after_uow
  after_uow-Keeps ev (err e) = search call_rules
  after_uow-Keeps ev (ok (b, t)) = search (call_rules, check_reverted-Keeps, revert_redis-Keeps)

  -- A delivery keeps what its unit of work keeps.
  pub handle_order_failed-Keeps :
      (p : Option OrderFailedEvent)
      → ((ev : OrderFailedEvent) → p ≡ some ev → Achieves R (Compensator.compensation_body ev))
      → Keeps R (Compensator.handle_order_failed p)
  unfolding Compensator.handle_order_failed
  handle_order_failed-Keeps none k = search call_rules
  handle_order_failed-Keeps (some ev) k =
      Keeps-bind L.order _ _ (Keeps-attempt L.order _ (Keeps-do_uow L.order _ (k ev refl)))
        (λ r. after_uow-Keeps ev r)
