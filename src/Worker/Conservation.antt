-- ===== src/Worker/Conservation.antt =====
-- `Process` of internal/application/worker/message_processor.go and the books of the tickets.
use booking_monitor.Prelude.{ℕ, ◌≡◌, ap, subst, false}
use booking_monitor.Domain.Status.{compensated, same}
use booking_monitor.Domain.Errors.{Result, ok, err}
use booking_monitor.Domain.Currency.{Text}
use booking_monitor.Domain.Order.{Order}
use booking_monitor.Domain.Reservation.{new_reservation-IsReservation}
use booking_monitor.Store.Keeps.{
  Keeps, Achieves, Keeps-bind, Keeps-do_uow, Keeps-clock, Keeps-result_bind,
}
use booking_monitor.Store.Calls.{call_rules}
use booking_monitor.Store.Stock.{Conserves}
use booking_monitor.Store.Conservation.{Conserves-Preorder, Conserves-Laws}
use booking_monitor.Store.Shifts.{Conserves-down_up, Shifts}
use booking_monitor.Store.Moves.{decrement_ticket-Yields, create-Yields}
use booking_monitor.Store.Yields.{Yields, Yields-weaken, Yields-bind, Yields-Achieves}
use booking_monitor.Worker.Processor

-- The tickets that the closure takes from the stock are those that the order holds.
process_body-Yields :
    (msg : Processor.Message) (o : Order)
    → o.ticket_type_id ≡ msg.ticket_type_id
    → o.quantity ≡ msg.quantity
    → same o.status compensated ≡ false
    → Yields (Processor.process_body msg o) (λ _ d d'. Conserves d d')
unfolding Processor.process_body
process_body-Yields msg o same_type same_quantity holder =
    Yields-weaken
      (Yields-bind (decrement_ticket-Yields msg.ticket_type_id msg.quantity)
        (λ u. create-Yields o holder))
      (λ _ d d' r.
        let (u, e, taken, given) = r in
        Conserves-down_up taken.0 taken.1
          (subst (λ q. Shifts msg.ticket_type_id q e d') same_quantity
            (subst (λ t. Shifts t o.quantity e d') same_type given.0))
          given.1)

publish-Keeps : (o : Order) (r : Result ℕ) → Keeps Conserves (Processor.publish o r)
unfolding Processor.publish
publish-Keeps o (ok _) = search (call_rules, Conserves-Laws)
publish-Keeps o (err _) = search (call_rules, Conserves-Laws)

store-Keeps :
    (lower : Text → Text) (now : ℕ) (msg : Processor.Message) (o : Order)
    → Processor.reservation_of lower now msg ≡ ok o
    → Achieves Conserves (Processor.process_body msg o)
unfolding Processor.reservation_of
store-Keeps lower now msg o e =
    let valid = new_reservation-IsReservation lower now _ _ _ _ _ _ _ _ e in
    Yields-Achieves
      (process_body-Yields msg o valid.4 valid.5 (ap (λ s. same s compensated) valid.0.awaits))
      (λ _ d d' c. c)

pub process-Keeps :
    (lower : Text → Text) (msg : Processor.Message) → Keeps Conserves (Processor.process lower msg)
unfolding Processor.process
process-Keeps lower msg = Keeps-bind Conserves-Preorder _ _ (Keeps-clock Conserves-Preorder) (λ now.
    Keeps-result_bind Conserves-Preorder _ _ (λ o e.
      Keeps-bind Conserves-Preorder _ _
        (Keeps-do_uow Conserves-Preorder _ (store-Keeps lower now msg o e))
        (λ u. search (call_rules, Conserves-Laws, publish-Keeps))))
