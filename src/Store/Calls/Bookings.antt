-- ===== src/Store/Calls/Bookings.antt =====
-- The repository calls of the worker and the compensator (repositories.go), and how orders evolve.
use booking_monitor.Prelude.{ℕ, ◌≡◌, arith}
use booking_monitor.Prelude.Int.{ℤ}
use booking_monitor.Domain.Graph.{edges}
use booking_monitor.Domain.Order.{Order}
use booking_monitor.Store.Db.{Db, Stmt, decrement_stmt, increment_stmt}
use booking_monitor.Store.Exec.{Executor, exec}
use booking_monitor.Store.Keeps.{Keeps, Keeps-exec}
use booking_monitor.Store.Evolves.{
  Evolves, Evolves-Preorder, Evolves-same, transition-Evolves, mark_paid-Evolves,
  set_payment_intent-Evolves, insert_order-Evolves,
}
use booking_monitor.Store.Orders
use booking_monitor.Store.TicketTypes
use booking_monitor.Store.Calls.{Laws, call_rules, transition_status-Keeps}

pub Evolves-Laws : Laws Evolves
Evolves-Laws = record {
  order = Evolves-Preorder;
  untouched = λ d d' h k. Evolves-same d d' h;
  expires = λ id. transition-Evolves id _ _ (search edges);
  declines = λ id. transition-Evolves id _ _ (search edges);
  fails = λ id. transition-Evolves id _ _ (search edges);
  confirms = λ id. transition-Evolves id _ _ (search edges);
  pays = mark_paid-Evolves;
  intends = set_payment_intent-Evolves;
}

Evolves-exec :
    {A : Type 0} (e : Executor) (q : Stmt A)
    → ((now : ℕ) (d : Db) → (q now d).1.orders ≡ d.orders)
    → Keeps Evolves (exec e q)
Evolves-exec e q h = Keeps-exec Evolves-Preorder e q (λ now d. Evolves-same d (q now d).1 (h now d))

pub create-Keeps : (e : Executor) (o : Order) → Keeps Evolves (Orders.create e o)
unfolding Orders.create
create-Keeps e o = search (call_rules, Evolves-Laws, Keeps-exec, insert_order-Evolves)

pub mark_compensated-Keeps : (e : Executor) (id : ℕ) → Keeps Evolves (Orders.mark_compensated e id)
unfolding Orders.mark_compensated
mark_compensated-Keeps e id =
    transition_status-Keeps Evolves-Laws e id _ _
      (λ now d. transition-Evolves id _ _ (search edges) now d)

decrement-same :
    (id : ℕ) (n : ℤ) (now : ℕ) (d : Db) → (decrement_stmt id n now d).1.orders ≡ d.orders
unfolding decrement_stmt
decrement-same id n now d = ground arith

pub increment-same :
    (id : ℕ) (n : ℤ) (now : ℕ) (d : Db) → (increment_stmt id n now d).1.orders ≡ d.orders
unfolding increment_stmt
increment-same id n now d = ground arith

pub decrement_ticket-Keeps :
    (e : Executor) (id : ℕ) (n : ℤ) → Keeps Evolves (TicketTypes.decrement_ticket e id n)
unfolding TicketTypes.decrement_ticket
decrement_ticket-Keeps e id n = search (call_rules, Evolves-Laws, Evolves-exec, decrement-same)

pub increment_ticket-Keeps :
    (e : Executor) (id : ℕ) (n : ℤ) → Keeps Evolves (TicketTypes.increment_ticket e id n)
unfolding TicketTypes.increment_ticket
increment_ticket-Keeps e id n = search (call_rules, Evolves-Laws, Evolves-exec, increment-same)

pub ruleset booking_rules = (
  call_rules, Evolves-Laws, create-Keeps, mark_compensated-Keeps, decrement_ticket-Keeps,
  increment_ticket-Keeps,
)
