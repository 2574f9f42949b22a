-- ===== src/Expiry/Stage5.antt =====
-- internal/infrastructure/persistence/postgres/stage5_compensator.go: an order whose payment did not come
-- is undone in Redis and in one transaction. The sweep of internal/application/expiry/stage5_sweeper.go
-- calls it for each order that has run out.
use booking_monitor.Prelude.{
  ℕ, Bool, true, false, not, ◌&&◌, Option, none, some, List, [], ◌∷◌, ◌==◌, if◌then◌else◌, update,
}
use booking_monitor.Prelude.Int.{ℤ, pos, ◌+ℤ◌, leb_ℤ}
use booking_monitor.Domain.Status.{awaiting_payment, compensated, same}
use booking_monitor.Domain.Errors.{Result, ok, err, infra, compensate_not_eligible}
use booking_monitor.Domain.Order.{Order}
use booking_monitor.Store.Db.{
  Stmt, find_order, find_ticket_type, order_key, ticket_type_key, select_order, ExpiredReservation,
}
use booking_monitor.Store.Exec.{M, pure, raise, attempt, ◌>>=◌, ◌>>◌, pool, tx, exec, is_cancelled}
use booking_monitor.Domain.TicketType.{max_int32}
use booking_monitor.Store.Transaction.{transaction}
use booking_monitor.Store.Orders.{find_expired_reservations}
use booking_monitor.Cache.Revert.{revert_inventory, order_compensation}
use booking_monitor.Expiry.Sweeper.{Config}

-- The count is raised, with no bound but that it is not negative and fits the INT column.
unfoldable pub restock_stmt : ℕ → ℤ → Stmt Bool
restock_stmt id quantity now d = elim (find_ticket_type id d) [
  | none ↦ (ok false, d)
  | some t ↦
      if leb_ℤ (pos 0) (t.available_tickets +ℤ quantity)
        && leb_ℤ (t.available_tickets +ℤ quantity) max_int32
      then (
        ok true,
        record d {
          ticket_types =
              update ticket_type_key id
                (λ r. record r {
                  available_tickets = t.available_tickets +ℤ quantity;
                  version = r.version +ℤ pos 1;
                })
                d.ticket_types;
        },
      )
      else (err infra, d)
]

-- Neither the time of the change nor the history is written.
unfoldable pub release_stmt : ℕ → Stmt Bool
release_stmt id now d = elim (find_order id d) [
  | none ↦ (ok false, d)
  | some o ↦
      if same o.status awaiting_payment
      then (
        ok true,
        record d { orders = update order_key id (λ r. record r { status = compensated }) d.orders },
      )
      else (ok false, d)
]

-- An UPDATE that has to affect a row.
abbrev pub affects : Stmt Bool → M (Unit {0})
affects q = exec tx q >>= λ hit. if hit then pure tt else raise infra

unfoldable pub abandon : ℕ → Order → M (Unit {0})
abandon id o =
    revert_inventory o.ticket_type_id o.quantity (order_compensation id)
    >> (affects (restock_stmt o.ticket_type_id o.quantity) >> affects (release_stmt id))

abbrev pub locked : ℕ → Option Order → M (Unit {0})
locked id none = raise compensate_not_eligible
locked id (some o) =
    if not (same o.status awaiting_payment)
    then raise compensate_not_eligible
    else if o.ticket_type_id == 0
    then raise compensate_not_eligible
    else abandon id o

unfoldable pub compensate_body : ℕ → M (Unit {0})
compensate_body id = exec tx (select_order id) >>= locked id

unfoldable pub compensate : ℕ → M (Unit {0})
compensate id = transaction (compensate_body id)

-- `Stage5Sweeper.Sweep`: an error of the compensator is logged.
unfoldable pub compensate_all : List ExpiredReservation → M (Unit {0})
compensate_all [] = pure tt
compensate_all (e ∷ es) = is_cancelled >>= λ stop.
    let rest : M (Unit {0}) = compensate_all es in
    if stop then pure tt else (attempt (compensate e.id) >> rest)

abbrev pub candidates : Result (List ExpiredReservation) → M (Unit {0})
candidates (ok expired) = compensate_all expired
candidates (err e) = pure tt

unfoldable pub sweep_abandoned : Config → M (Unit {0})
sweep_abandoned cfg =
    attempt (find_expired_reservations pool cfg.expiry_grace_period cfg.batch_size) >>= candidates
