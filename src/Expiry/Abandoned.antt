-- ===== src/Expiry/Abandoned.antt =====
-- What `Compensate` of internal/infrastructure/persistence/postgres/stage5_compensator.go leaves behind.
use booking_monitor.Prelude.{
  ℕ, ◌≡◌, refl, sym, ap, subst, ◌∙◌, ◌⊎◌, inl, inr, Bool, true, false, Bool-cases, Option, none,
  some, ◌==◌, arith, if◌then◌else◌,
}
use booking_monitor.Domain.Status.{awaiting_payment, same}
use booking_monitor.Domain.Errors.{Error, Result, ok, err, infra}
use booking_monitor.Domain.Order.{Order}
use booking_monitor.Store.Db.{Db, Stmt, find_order, find_ticket_type, select_order}
use booking_monitor.Store.Exec.{Schedule, World, pure, raise, ◌>>=◌, tx, exec, continue, run_script}
use booking_monitor.Store.Answers.{bind-ok}
use booking_monitor.Store.Atomicity.{opened}
use booking_monitor.Store.Stock.{available}
use booking_monitor.Store.Yields.{Yields-raise, Yields-affected, Yields-exec}
use booking_monitor.Cache.Revert.{revert_inventory, order_compensation}
use booking_monitor.Cache.Given.{GaveBack, settle-GaveBack}
use booking_monitor.Expiry.Stage5.{
  restock_stmt, release_stmt, affects, abandon, locked, compensate_body, compensate,
}
use booking_monitor.Store.Transaction.{AllOrNone, transaction-AllOrNone}
use booking_monitor.Expiry.Undone.{
  Undone, Abandoned, restock_stmt-Restocked, release_stmt-Released, kept_order, gathered,
}

module _ (s : Schedule) where
  affects-hit :
      (q : Stmt Bool) (w : World)
      → (affects q s w).0 ≡ ok tt
      → (now : ℕ) × (q now w.db ≡ (ok true, (affects q s w).1.db))
  affects-hit q w h = (Yields-affected q (Yields-raise infra _)).at s w tt h

  affects-cache : (q : Stmt Bool) (w : World) → (affects q s w).1.cache ≡ w.cache
  unfolding exec ◌>>=◌
  affects-cache q w = tested _ _
    where
      tested :
          (r : Result Bool) (v : World)
          → (continue r (λ hit. if hit then pure tt else raise infra) s v).1.cache ≡ v.cache
      tested (ok true) v = unfold pure in refl
      tested (ok false) v = unfold raise in refl
      tested (err e) v = refl

  revert-given_back :
      (id : ℕ) (o : Order) (w : World)
      → (revert_inventory o.ticket_type_id o.quantity (order_compensation id) s w).0 ≡ ok tt
      → let w' = (revert_inventory o.ticket_type_id o.quantity (order_compensation id) s w).1 in
        GaveBack s o.ticket_type_id o.quantity (order_compensation id) w.cache w'.cache
        × (w'.db ≡ w.db)
  unfolding revert_inventory run_script
  revert-given_back id o w h =
      (settle-GaveBack s w.tick o.ticket_type_id o.quantity (order_compensation id) w.cache h, refl)

  abandon-Abandoned :
      (id : ℕ) (o : Order) (w : World)
      → find_order id w.db ≡ some o
      → o.status ≡ awaiting_payment
      → (abandon id o s w).0 ≡ ok tt
      → Abandoned s w.cache id w.db (abandon id o s w).1
  unfolding abandon find_order available find_ticket_type
  abandon-Abandoned id o w e waiting h =
      let (u, ok1, h1, same1) = bind-ok _ _ s w tt h in
      let (given, same_db) = revert-given_back id o w ok1 in
      let w1 : World =
        (revert_inventory o.ticket_type_id o.quantity (order_compensation id) s w).1 in
      let (v, ok2, h2, same2) = bind-ok _ _ s w1 tt h1 in
      let w2 : World = (affects (restock_stmt o.ticket_type_id o.quantity) s w1).1 in
      let (now, up) = affects-hit (restock_stmt o.ticket_type_id o.quantity) w1 ok2 in
      let more = restock_stmt-Restocked o.ticket_type_id o.quantity now w1.db w2.db up in
      let (now', moved) = affects-hit (release_stmt id) w2 h2 in
      let w3 : World = (affects (release_stmt id) s w2).1 in
      let less =
        release_stmt-Released id now' o w2.db w3.db
          (kept_order id o.ticket_type_id o.quantity o w.db w1.db w2.db same_db more e) waiting
          moved in
      subst (Abandoned s w.cache id w.db) (sym (same1 ∙ same2)) (
        gathered s w.cache id o w w1 w2 w3 e waiting same_db more less given (
          affects-cache (release_stmt id) w2
          ∙ affects-cache (restock_stmt o.ticket_type_id o.quantity) w1))

  waiting_of : (o : Order) → same o.status awaiting_payment ≡ true → o.status ≡ awaiting_payment
  waiting_of o h = ground arith

  locked-Abandoned :
      (id : ℕ) (row : Option Order) (w : World)
      → find_order id w.db ≡ row
      → (locked id row s w).0 ≡ ok tt
      → Abandoned s w.cache id w.db (locked id row s w).1
  unfolding raise
  locked-Abandoned id none w e h = absurd cc
  locked-Abandoned id (some o) w e h = elim (Bool-cases (same o.status awaiting_payment)) [
    | inr other ↦ absurd (let h' = rw other at h in cc)
    | inl waiting ↦ elim (Bool-cases (o.ticket_type_id == 0)) [
      | inl legacy ↦ absurd (let h' = rw (waiting, legacy) at h in cc)
      | inr routed ↦
          rw (waiting, routed)
            (abandon-Abandoned id o w e (waiting_of o waiting) (rw (waiting, routed) at h))
    ]
  ]

  body-Abandoned :
      (id : ℕ) (w : World)
      → (compensate_body id s w).0 ≡ ok tt
      → Abandoned s w.cache id w.db (compensate_body id s w).1
  unfolding compensate_body select_order exec
  body-Abandoned id w h =
      let (row, selected, h1, same1) = bind-ok _ _ s w tt h in
      let w1 : World = (exec tx (select_order id) s w).1 in
      let (now, ran) = (Yields-exec (select_order id)).at s w row selected in
      let same_row : find_order id w.db ≡ row = ground arith in
      let same_db : w1.db ≡ w.db = sym (ap (λ (p : Result (Option Order) × Db). p.1) ran) in
      subst (Abandoned s w.cache id w.db) (sym same1) (
        subst (λ d. Abandoned s w.cache id d (locked id row s w1).1) same_db
          (locked-Abandoned id row w1 (ap (find_order id) same_db ∙ same_row) h1))

-- An abandoned order is undone as a whole or not at all: whatever fails on the way and whatever the
-- other processes do, `Compensate` reports an error and leaves the tables as its transaction found
-- them, or the order was waiting for its payment and is compensated, its count is back in the row of
-- its ticket type and in Redis (the revert script met its mark, and did nothing, or it raised the key
-- of the ticket type by the quantity, if there is one, and set the mark), and what is left and what is held of each ticket type make the same
-- sum as before.
pub compensate-Abandoned :
    (id : ℕ) (s : Schedule) (w : World)
    → ((e : Error) × ((compensate id s w).0 ≡ err e) × ((compensate id s w).1.db ≡ (opened s w).db))
      ⊎ Abandoned s w.cache id (opened s w).db (compensate id s w).1
unfolding compensate AllOrNone
compensate-Abandoned id s w =
    elim (transaction-AllOrNone (compensate_body id)
      (λ u d c. Undone s w.cache id (opened s w).db d c) s w
      (λ u h. body-Abandoned s id (opened s w) h)) [
        | inl failed ↦ inl failed
        | inr undone ↦ inr undone.2
      ]
