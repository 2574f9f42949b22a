-- ===== src/Saga/Conservation.antt =====
-- The unit of work of internal/application/saga/compensator.go and the books of the tickets.
use booking_monitor.Prelude.{
  find, ℕ, ◌≡◌, sym, ap, subst, ◌≢◌, ◌∙◌, Bool, true, false, some, arith, ◌==◌, Bool-cases, inl,
  inr, ==_iff,
}
use booking_monitor.Domain.Status.{compensated, same}
use booking_monitor.Domain.Errors.{
  Step, Result, ok, err, step_failed, getbyid, list_ticket_type, incrementticket, markcompensated,
  record_completion,
}
use booking_monitor.Domain.Order.{Order}
use booking_monitor.Application.Events.{OrderFailedEvent}
use booking_monitor.Cache.Revert.{order_compensation}
use booking_monitor.Store.Db.{Db, order_key, find_order, insert_compensation, transition_stmt}
use booking_monitor.Store.Exec.{M, tx}
use booking_monitor.Store.Stock.{Conserves}
use booking_monitor.Store.Conservation.{Conserves-Preorder, Conserves-same}
use booking_monitor.Store.Compensations
use booking_monitor.Store.Shifts.{Conserves-up_down, Shifts, Stays}
use booking_monitor.Store.Holds.{uncompensated, compensate-Shifts}
use booking_monitor.Store.Moves.{increment_ticket-Yields, get_by_id-Yields, mark_compensated-Yields}
use booking_monitor.Store.Yields.{
  Yields, Yields-weaken, Yields-pure, Yields-raise, Yields-exec, Yields-bind, Yields-assume,
  attempt-Yields,
}
use booking_monitor.Saga.Compensator

module _ {A : Type 0} where
  tag_result-Yields :
      (t : Step) (r : Result A)
      → Yields (Compensator.tag_result t r) (λ a d d'. (r ≡ ok a) × (d' ≡ d))
  unfolding Compensator.tag_result
  tag_result-Yields t (ok a) = Yields-weaken (Yields-pure a) (λ b d d' q. (ap ok (sym q.0), q.1))
  tag_result-Yields t (err e) = Yields-raise (step_failed t e) _

  -- The wrapper of an error changes nothing that succeeds.
  in_step-Yields :
      (t : Step) {m : M A} {Q : A → Db → Db → Type 0}
      → Yields m Q
      → Yields (Compensator.in_step t m) Q
  unfolding Compensator.in_step
  in_step-Yields t {m} {Q} y =
      Yields-weaken (Yields-bind (attempt-Yields y) (λ r. tag_result-Yields t r))
        (λ a d d' h. let (r, e, q, last) = h in subst (λ x. Q a d x) (sym last.1) (q a last.0))

insert_compensation-same :
    (id order_id now : ℕ) (d : Db)
    → ((insert_compensation id order_id now d).1.orders ≡ d.orders)
      × ((insert_compensation id order_id now d).1.ticket_types ≡ d.ticket_types)
unfolding insert_compensation
insert_compensation-same id order_id now d = (ground arith, ground arith)

record_completion-Yields :
    (id order_id : ℕ)
    → Yields (Compensations.record_completion tx id order_id) (λ _ d d'. Conserves d d')
unfolding Compensations.record_completion
record_completion-Yields id order_id =
    Yields-weaken (Yields-exec (insert_compensation id order_id)) (λ n d d' r.
      let (now, ran) = r in
      let same = insert_compensation-same id order_id now d in
      Conserves-same d d' (sym (ap (λ (p : Result Bool × Db). p.1.orders) ran) ∙ same.0)
        (sym (ap (λ (p : Result Bool × Db). p.1.ticket_types) ran) ∙ same.1))

-- The event is about an order that is there, and says what the order holds.
pub record Recorded (ev : OrderFailedEvent) (d : Db) : Type 0 where
  pub order : Order
  pub stored : find_order ev.order_id d ≡ some order
  pub holds_type : order.ticket_type_id ≡ ev.ticket_type_id
  pub holds_quantity : order.quantity ≡ ev.quantity
  pub names_type : ev.ticket_type_id ≢ 0

resolve-Yields :
    (ev : OrderFailedEvent)
    → ev.ticket_type_id ≢ 0
    → Yields (Compensator.resolve_ticket_type_id ev) (λ t d d'. (t ≡ ev.ticket_type_id) × (d' ≡ d))
unfolding Compensator.resolve_ticket_type_id
resolve-Yields ev h = elim (Bool-cases (ev.ticket_type_id == 0)) [
  | inl zero_id ↦ absurd (h ((==_iff _ _).0 zero_id))
  | inr some_id ↦ rw some_id (Yields-pure ev.ticket_type_id)
]

give_back-Yields :
    (ev : OrderFailedEvent) (t : ℕ)
    → t ≢ 0
    → Yields
        (Compensator.give_back ev t)
        (λ _ d d'. Shifts t ev.quantity d d' × Stays d d' × (d'.orders ≡ d.orders))
unfolding Compensator.give_back
give_back-Yields ev t h = elim (Bool-cases (t == 0)) [
  | inl zero_id ↦ absurd (h ((==_iff _ _).0 zero_id))
  | inr some_id ↦
      rw some_id (in_step-Yields incrementticket (increment_ticket-Yields t ev.quantity))
]

compensated-Conserves :
    (ev : OrderFailedEvent) (t : ℕ) (d d1 d2 : Db)
    → Recorded ev d
    → t ≡ ev.ticket_type_id
    → Shifts t ev.quantity d d1
    → Stays d d1
    → d1.orders ≡ d.orders
    → (now : ℕ) → transition_stmt ev.order_id compensated uncompensated now d1 ≡ (ok true, d2)
    → Conserves d d2
unfolding find_order
compensated-Conserves ev t d d1 d2 rec same_type up stays orders now moved =
    let (down, stays') =
      compensate-Shifts ev.order_id now d1 d2 rec.order
        (ap (λ os. find order_key ev.order_id os) orders ∙ rec.stored) moved in
    Conserves-up_down up stays
      (subst (λ q. Shifts t q d2 d1) rec.holds_quantity
        (subst (λ x. Shifts x rec.order.quantity d2 d1) (rec.holds_type ∙ sym same_type) down))
      stays'

-- What is given back to the stock is what the order lets go of.
compensate_order-Yields :
    (ev : OrderFailedEvent) (t : ℕ)
    → t ≡ ev.ticket_type_id
    → t ≢ 0
    → Yields (Compensator.compensate_order ev t) (λ _ d d'. Recorded ev d → Conserves d d')
unfolding Compensator.compensate_order
compensate_order-Yields ev t same_type h =
    Yields-weaken
      (Yields-bind (give_back-Yields ev t h) (λ u.
        Yields-bind (in_step-Yields markcompensated (mark_compensated-Yields ev.order_id)) (λ v.
          Yields-bind
            (in_step-Yields record_completion
              (record_completion-Yields (order_compensation ev.order_id) ev.order_id))
            (λ n. Yields-pure (Compensator.already false t)))))
      (λ _ d d' r rec.
        let (u, d1, given, rest) = r in
        let (v, d2, moved, rest') = rest in
        let (n, d3, kept, last) = rest' in
        rw last.1 (
          Conserves-Preorder.transitive _ _ _
            (compensated-Conserves ev t d d1 d2 rec same_type given.0 given.1 given.2 moved.0
              moved.1)
            kept))

compensation_of-Yields :
    (ev : OrderFailedEvent) (was : Bool) (t : ℕ)
    → t ≡ ev.ticket_type_id
    → t ≢ 0
    → Yields (Compensator.compensation_of ev was t) (λ _ d d'. Recorded ev d → Conserves d d')
unfolding Compensator.compensation_of
compensation_of-Yields ev true t e h =
    Yields-weaken (Yields-pure _) (λ _ d d' r rec. rw r.1 (Conserves-Preorder.reflexive d))
compensation_of-Yields ev false t e h = compensate_order-Yields ev t e h

pub compensation_body-Yields :
    (ev : OrderFailedEvent)
    → ev.ticket_type_id ≢ 0
    → Yields (Compensator.compensation_body ev) (λ _ d d'. Recorded ev d → Conserves d d')
unfolding Compensator.compensation_body
compensation_body-Yields ev h =
    Yields-weaken
      (Yields-bind (in_step-Yields getbyid (get_by_id-Yields ev.order_id)) (λ o.
        Yields-bind (in_step-Yields list_ticket_type (resolve-Yields ev h)) (λ t.
          Yields-assume (λ (e : t ≡ ev.ticket_type_id).
            compensation_of-Yields ev (same o.status compensated) t e
              (λ zero_id. h (sym e ∙ zero_id))))))
      (λ _ d d' r rec.
        let (o, d1, found, rest) = r in
        let (t, d2, resolved, then_conserves) = rest in
        let unmoved : d2 ≡ d = resolved.1 ∙ found.1 in
        subst (λ x. Conserves x d') unmoved
          (then_conserves resolved.0 (subst (λ x. Recorded ev x) (sym unmoved) rec)))
