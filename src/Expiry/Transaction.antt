-- ===== src/Expiry/Transaction.antt =====
-- The unit of work of `resolve` in internal/application/expiry/sweeper.go.
use booking_monitor.Prelude.{
  ℕ, ◌≡◌, refl, sym, ap, subst, ◌∙◌, ◌⊎◌, Bool, some, Option-cases, Bool-cases, find, update,
  find-update_self, inl, inr, true, false, [], ◌∷◌, arith,
}
use booking_monitor.Domain.Status.{OrderStatus, is_one_of, awaiting_payment, expired}
use booking_monitor.Domain.Errors.{Result, ok, err, infra, invalid_transition, outbox_create_failed}
use booking_monitor.Domain.Order.{Order}
use booking_monitor.Application.Events.{OutboxEvent}
use booking_monitor.Store.Db.{
  Db, order_key, find_order, move_order, transition_stmt, outbox_key, insert_outbox,
}
use booking_monitor.Store.Exec.{Schedule, World, tx, do_uow}
use booking_monitor.Store.Orders
use booking_monitor.Store.Outbox
use booking_monitor.Store.Evolves.{find_order-id}
use booking_monitor.Store.Atomicity.{opened, do_uow_atomic}
use booking_monitor.Store.Moves.{get_by_id-Yields}
use booking_monitor.Store.Yields.{
  Yields, Yields-weaken, Yields-pure, Yields-raise, Yields-exec, Yields-bind, Yields-affected,
  attempt-Yields,
}
use booking_monitor.Expiry.Sweeper

mark_expired-Yields :
    (id : ℕ)
    → Yields (Orders.mark_expired tx id) (λ _ d d'.
      (now : ℕ) × (transition_stmt id expired (awaiting_payment ∷ []) now d ≡ (ok true, d')))
unfolding Orders.mark_expired Orders.transition_status
mark_expired-Yields id = Yields-affected (transition_stmt id expired (awaiting_payment ∷ [])) (
    Yields-weaken
      (Yields-bind (get_by_id-Yields id) (λ o. Yields-raise invalid_transition (λ _ d d'. ⊥)))
      (λ _ d d' r. r.3))

insert_outbox-row :
    (row : OutboxEvent) (now : ℕ) (d d' : Db)
    → insert_outbox row now d ≡ (ok tt, d')
    → d' ≡ record d { outbox = row ∷ d.outbox }
unfolding insert_outbox
insert_outbox-row row now d d' h = elim (Option-cases (find outbox_key row.id d.outbox)) [
  | inl free ↦
      let run : insert_outbox row now d ≡ (ok tt, record d { outbox = row ∷ d.outbox }) =
        rw (insert_outbox, free) refl in
      sym (ap (λ (p : Result Unit × Db). p.1) h) ∙ ap (λ (p : Result Unit × Db). p.1) run
  | inr (other, found) ↦
      let run : insert_outbox row now d ≡ (err infra, d) = rw (insert_outbox, found) refl in
      absurd cc
]

outbox_create-Yields :
    (row : OutboxEvent)
    → Yields (Outbox.create tx row) (λ _ d d'. d' ≡ record d { outbox = row ∷ d.outbox })
unfolding Outbox.create
outbox_create-Yields row =
    Yields-weaken (Yields-exec (insert_outbox row)) (λ _ d d' r. insert_outbox-row row r.0 d d' r.1)

tag_create-Yields :
    (r : Result Unit) → Yields (Sweeper.tag_create r) (λ _ d d'. (r ≡ ok tt) × (d' ≡ d))
unfolding Sweeper.tag_create
tag_create-Yields (ok _) = Yields-weaken (Yields-pure tt) (λ _ d d' q. (refl, q.1))
tag_create-Yields (err e) = Yields-raise outbox_create_failed _

expire_body-Yields :
    (o : Order) (row : OutboxEvent)
    → Yields (Sweeper.expire_body o row) (λ _ d d'.
      (now : ℕ) × (e : Db) × (transition_stmt o.id expired (awaiting_payment ∷ []) now d
        ≡ (ok true, e))
      × (d' ≡ record e { outbox = row ∷ e.outbox }))
unfolding Sweeper.expire_body
expire_body-Yields o row =
    Yields-weaken
      (Yields-bind (mark_expired-Yields o.id)
        (λ u. Yields-bind (attempt-Yields (outbox_create-Yields row)) (λ r. tag_create-Yields r)))
      (λ _ d d' h.
        let (u, e, moved, rest) = h in
        let (r, e', written, last) = rest in (moved.0, e, moved.1, last.1 ∙ written tt last.0))

-- The order was waiting and has run out, and its row is the newest of the outbox.
pub record RunOut (id : ℕ) (row : OutboxEvent) (d d' : Db) : Type 0 where
  pub order : Order
  pub waited : find_order id d ≡ some order
  pub was_waiting : order.status ≡ awaiting_payment
  pub ran_out : find_order id d' ≡ some (record order { status = expired })
  pub announced : d'.outbox ≡ row ∷ d.outbox

waiting_of : (s : OrderStatus) → is_one_of s (awaiting_payment ∷ []) ≡ true → s ≡ awaiting_payment
waiting_of s h = ground arith

transition-RunOut :
    (id now : ℕ) (row : OutboxEvent) (d e : Db)
    → transition_stmt id expired (awaiting_payment ∷ []) now d ≡ (ok true, e)
    → RunOut id row d (record e { outbox = row ∷ e.outbox })
unfolding transition_stmt move_order find_order
transition-RunOut id now row d e h = elim (Option-cases (find_order id d)) [
  | inl missing ↦
      let run : transition_stmt id expired (awaiting_payment ∷ []) now d ≡ (ok false, d) =
        rw (transition_stmt, missing) refl in
      absurd cc
  | inr (o, found) ↦ elim (Bool-cases (is_one_of o.status (awaiting_payment ∷ []))) [
    | inr illegal ↦
        let run : transition_stmt id expired (awaiting_payment ∷ []) now d ≡ (ok false, d) =
          rw (transition_stmt, found, illegal) refl in
        absurd cc
    | inl legal ↦
        let run : (ok true, e) ≡ (ok true, move_order o expired now d) =
          sym h ∙ rw (transition_stmt, found, legal) refl in
        let orders = ap (λ (p : Result Bool × Db). p.1.orders) run in
        record {
          order = o;
          waited = found;
          was_waiting = waiting_of o.status legal;
          ran_out = ap (λ os. find order_key id os) orders ∙ expired_row id d o found;
          announced = ap (λ (p : Result Bool × Db). row ∷ p.1.outbox) run;
        }
  ]
]
  where
    expired_row :
        (id : ℕ) (d : Db) (o : Order)
        → find_order id d ≡ some o
        → find order_key id (update order_key o.id (λ r. record r { status = expired }) d.orders)
          ≡ some (record o { status = expired })
    expired_row id d o found =
        ap
          (λ k.
            find order_key id (update order_key k (λ r. record r { status = expired }) d.orders))
          (find_order-id id d o found)
        ∙ find-update_self order_key id (λ r. record r { status = expired }) d.orders o
            (find_order-id id d o found) found

-- Whatever fails, the sweeper's unit of work for an order leaves the database as the transaction found
-- it, or the order was waiting for its payment and has run out, and its row is the newest one of
-- the outbox.
pub expire_uow-RunOut :
    (o : Order) (row : OutboxEvent) (s : Schedule) (w : World)
    → let d = (do_uow (Sweeper.expire_body o row) s w).1.db in
      (d ≡ (opened s w).db) ⊎ RunOut o.id row (opened s w).db d
expire_uow-RunOut o row s w = elim (do_uow_atomic (Sweeper.expire_body o row) s w) [
  | inl undone ↦ inl undone
  | inr (a, succeeded, same_db) ↦
      let (now, e, moved, last) = (expire_body-Yields o row).at s (opened s w) a succeeded in
      inr (
        subst (λ x. RunOut o.id row (opened s w).db x) (sym (same_db ∙ last))
          (transition-RunOut o.id now row (opened s w).db e moved))
]
