-- ===== src/Store/Moves.antt =====
-- What the repository methods that move tickets do where they succeed in a transaction.
use booking_monitor.Prelude.{ℕ, ◌≡◌, sym, ◌∙◌, ap, Bool, true, false, Option, none, some, arith}
use booking_monitor.Prelude.Int.{ℤ}
use booking_monitor.Domain.Status.{compensated, same}
use booking_monitor.Domain.Errors.{
  Error, Result, ok, ticket_type_sold_out, increment_exceeds_total, invalid_transition,
  order_not_found,
}
use booking_monitor.Domain.Order.{Order}
use booking_monitor.Store.Db.{
  Db, find_order, transition_stmt, insert_order, decrement_stmt, increment_stmt, select_order,
}
use booking_monitor.Store.Exec.{or_fail, tx}
use booking_monitor.Store.Orders
use booking_monitor.Store.TicketTypes
use booking_monitor.Store.Calls.Bookings.{increment-same}
use booking_monitor.Store.Shifts.{Shifts, Stays, decrement_stmt-Shifts, increment_stmt-Shifts}
use booking_monitor.Store.Holds.{uncompensated, insert_order-Shifts}
use booking_monitor.Store.Yields.{
  Yields, Yields-weaken, Yields-pure, Yields-raise, Yields-exec, Yields-bind, Yields-affected,
}

pub decrement_ticket-Yields :
    (id : ℕ) (q : ℤ)
    → Yields (TicketTypes.decrement_ticket tx id q) (λ _ d d'. Shifts id q d' d × Stays d d')
unfolding TicketTypes.decrement_ticket
decrement_ticket-Yields id q =
    Yields-weaken (Yields-affected (decrement_stmt id q) (Yields-raise ticket_type_sold_out _))
      (λ _ d d' r. decrement_stmt-Shifts id q r.0 d d' r.1)

pub increment_ticket-Yields :
    (id : ℕ) (q : ℤ)
    → Yields
        (TicketTypes.increment_ticket tx id q)
        (λ _ d d'. Shifts id q d d' × Stays d d' × (d'.orders ≡ d.orders))
unfolding TicketTypes.increment_ticket
increment_ticket-Yields id q =
    Yields-weaken (Yields-affected (increment_stmt id q) (Yields-raise increment_exceeds_total _))
      (λ _ d d' r.
        let (up, stays) = increment_stmt-Shifts id q r.0 d d' r.1 in
        (
          up,
          stays,
          sym (ap (λ (p : Result Bool × Db). p.1.orders) r.1) ∙ increment-same id q r.0 d,
        ))

pub create-Yields :
    (o : Order)
    → same o.status compensated ≡ false
    → Yields (Orders.create tx o) (λ _ d d'. Shifts o.ticket_type_id o.quantity d d' × Stays d d')
unfolding Orders.create
create-Yields o holder =
    Yields-weaken (Yields-bind (Yields-exec (insert_order o)) (λ u. Yields-pure o)) (λ _ d d' r.
      let (u, d1, ran, last) = r in
      insert_order-Shifts o ran.0 d d' (ran.1 ∙ ap (λ e. (ok tt, e)) (sym last.1)) holder)

or_fail-Yields :
    {A : Type 0} (found : Option A) (e : Error)
    → Yields (or_fail found e) (λ a d d'. (found ≡ some a) × (d' ≡ d))
unfolding or_fail
or_fail-Yields none e = Yields-raise e _
or_fail-Yields (some a) e = Yields-weaken (Yields-pure a) (λ b d d' r. (ap some (sym r.0), r.1))

-- The order is there, and a lookup changes nothing.
pub get_by_id-Yields :
    (id : ℕ) → Yields (Orders.get_by_id tx id) (λ o d d'. (find_order id d ≡ some o) × (d' ≡ d))
unfolding Orders.get_by_id select_order
get_by_id-Yields id =
    Yields-weaken
      (Yields-bind (Yields-exec (select_order id)) (λ found. or_fail-Yields found order_not_found))
      (λ o d d' r.
        let (found, d1, ran, last) = r in
        (
          ground (arith, ran.1, last.0),
          last.1 ∙ sym (ap (λ (p : Result (Option Order) × Db). p.1) ran.1),
        ))

pub mark_compensated-Yields :
    (id : ℕ)
    → Yields
        (Orders.mark_compensated tx id)
        (λ _ d d'. (now : ℕ) × (transition_stmt id compensated uncompensated now d ≡ (ok true, d')))
unfolding Orders.mark_compensated Orders.transition_status
mark_compensated-Yields id = Yields-affected (transition_stmt id compensated uncompensated) (
    Yields-weaken
      (Yields-bind (get_by_id-Yields id) (λ o. Yields-raise invalid_transition (λ _ d d'. ⊥)))
      (λ _ d d' r. r.3))
