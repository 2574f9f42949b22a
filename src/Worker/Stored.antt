-- ===== src/Worker/Stored.antt =====
-- `Process` of internal/application/worker/message_processor.go where it returns no error.
use booking_monitor.Prelude.{
  ◌≡◌, refl, sym, ap, ◌∙◌, ℕ, true, false, some, Bool, if◌then◌else◌, arith, find, ◌∷◌, ==_iff,
}
use booking_monitor.Prelude.Int.{ℤ}
use booking_monitor.Domain.Errors.{Result, ok, err}
use booking_monitor.Domain.Currency.{Text}
use booking_monitor.Domain.Order.{Order}
use booking_monitor.Domain.Reservation.{new_reservation-IsReservation}
use booking_monitor.Store.Db.{Db, find_order, insert_order}
use booking_monitor.Store.Atomicity.{do_uow-ok, opened}
use booking_monitor.Store.Exec.{
  Schedule, World, M, tx, do_uow, ◌>>=◌, continue, attempt, clock, of_result, new_v7, emit, pure,
}
use booking_monitor.Store.Orders
use booking_monitor.Store.TicketTypes
use booking_monitor.Store.Spares.{Spares, spares_rules}
use booking_monitor.Store.Moves.{decrement_ticket-Yields}
use booking_monitor.Store.Yields.{Yields, Yields-weaken, Yields-bind, Yields-exec, Yields-pure}
use booking_monitor.Worker.Processor.{Message, process, process_body, publish, reservation_of}

-- The database has an order of the message: under its id, with its user, ticket type and quantity.
abbrev pub Stored : Message → Db → Type 0
Stored m d =
    (o : Order) × (find_order m.order_id d ≡ some o)
    × (o.user_id ≡ m.user_id)
    × (o.ticket_type_id ≡ m.ticket_type_id)
    × (o.quantity ≡ m.quantity)

if_Spares : {A : Type 0} (b : Bool) (m n : M A) → Spares m → Spares n → Spares (if b then m else n)
if_Spares true m n k l = k
if_Spares false m n k l = l

decrement_ticket-Spares : (id : ℕ) (n : ℤ) → Spares (TicketTypes.decrement_ticket tx id n)
unfolding TicketTypes.decrement_ticket
decrement_ticket-Spares id n = search (spares_rules, if_Spares)

process_body-Spares : (m : Message) (o : Order) → Spares (process_body m o)
unfolding process_body Orders.create
process_body-Spares m o = search (spares_rules, decrement_ticket-Spares)

publish-Spares : (o : Order) (r : Result ℕ) → Spares (publish o r)
unfolding publish
publish-Spares o (ok _) = search spares_rules
publish-Spares o (err _) = search spares_rules

pub process-Spares : (lower : Text → Text) (m : Message) → Spares (process lower m)
unfolding process
process-Spares lower m = search (spares_rules, process_body-Spares, publish-Spares) depth 9

insert_order-orders :
    (o : Order) (now : ℕ) (d d' : Db)
    → insert_order o now d ≡ (ok tt, d')
    → d'.orders ≡ o ∷ d.orders
unfolding insert_order
insert_order-orders o now d d' e = ground (arith, ap (λ (p : Result (Unit {0}) × Db). p.1.orders) e)

insert_order-found :
    (o : Order) (now : ℕ) (d d' : Db)
    → insert_order o now d ≡ (ok tt, d')
    → find_order o.id d' ≡ some o
unfolding find_order find
insert_order-found o now d d' e =
    rw (insert_order-orders o now d d' e, (==_iff o.id o.id).1 refl) refl

process_body-Yields :
    (m : Message) (o : Order) → Yields (process_body m o) (λ _ d d'. find_order o.id d' ≡ some o)
unfolding process_body Orders.create
process_body-Yields m o =
    Yields-weaken
      (Yields-bind (decrement_ticket-Yields m.ticket_type_id m.quantity)
        (λ u. Yields-bind (Yields-exec (insert_order o)) (λ v. Yields-pure o)))
      (λ _ d d' r. rw r.3.3.1 (insert_order-found o r.3.2.0 r.1 r.3.1 r.3.2.1))

-- What the rest of `Process` does not change.
publish-same : (o : Order) (r : Result ℕ) (s : Schedule) (w : World) → (publish o r s w).1.db ≡ w.db
unfolding publish
publish-same o (ok _) s w = unfold emit in refl
publish-same o (err _) s w = unfold pure in refl

after_store :
    (o : Order) (r : Result Order) (s : Schedule) (w : World)
    → (continue r (λ _. attempt new_v7 >>= λ id. publish o id) s w).0 ≡ ok tt
    → (a : Order) × (r ≡ ok a)
      × ((continue r (λ _. attempt new_v7 >>= λ id. publish o id) s w).1.db ≡ w.db)
after_store o (ok a) s w e = (a, refl, unfold ◌>>=◌ attempt new_v7 in publish-same o _ s _)
after_store o (err x) s w e = absurd cc

abbrev announce : Order → M (Unit {0})
announce o = attempt new_v7 >>= λ id. publish o id

store_order :
    (m : Message) (o : Order) (s : Schedule) (w : World)
    → ((do_uow (process_body m o) >>= λ _. announce o) s w).0 ≡ ok tt
    → find_order o.id ((do_uow (process_body m o) >>= λ _. announce o) s w).1.db ≡ some o
unfolding ◌>>=◌
store_order m o s w e =
    let run = do_uow (process_body m o) s w in
    let (a, answered, same) = after_store o run.0 s run.1 e in
    let (body, kept) = do_uow-ok (process_body m o) s w a answered in
    rw (same, kept) ((process_body-Yields m o).at s (opened s w) a body)

after_reservation :
    (lower : Text → Text) (now : ℕ) (m : Message) (r : Result Order)
    → reservation_of lower now m ≡ r
    → (s : Schedule) (w : World)
    → (continue r (λ o. do_uow (process_body m o) >>= λ _. announce o) s w).0 ≡ ok tt
    → Stored m (continue r (λ o. do_uow (process_body m o) >>= λ _. announce o) s w).1.db
unfolding reservation_of
after_reservation lower now m (err x) eq s w e = absurd cc
after_reservation lower now m (ok o) eq s w e =
    let valid = new_reservation-IsReservation lower now _ _ _ _ _ _ _ _ eq in
    (
      o,
      ap (λ id. find_order id ((do_uow (process_body m o) >>= λ _. announce o) s w).1.db)
            (sym valid.1)
          ∙ store_order m o s w e,
      valid.2,
      valid.4,
      valid.5,
    )

-- Where `Process` returns no error, the message's order is in the database.
pub process-Stored :
    (lower : Text → Text) (m : Message) (s : Schedule) (w : World)
    → (process lower m s w).0 ≡ ok tt
    → Stored m (process lower m s w).1.db
unfolding process ◌>>=◌ clock of_result
process-Stored lower m s w e = after_reservation lower _ m _ refl s _ e
