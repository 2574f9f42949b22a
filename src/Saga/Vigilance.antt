-- ===== src/Saga/Vigilance.antt =====
-- The watchdog of internal/application/saga/watchdog.go: its counter, and the orders.
use booking_monitor.Prelude.{ℕ, some, List, [], ◌∷◌}
use booking_monitor.Domain.Errors.{Result, ok, err}
use booking_monitor.Domain.Order.{Order}
use booking_monitor.Application.Events.{OrderFailedEvent}
use booking_monitor.Store.Db.{StuckFailed}
use booking_monitor.Store.Exec.{◌>>◌, is_cancelled}
use booking_monitor.Store.Keeps.{Keeps, Keeps-bind, Keeps-Achieves}
use booking_monitor.Store.Evolves.{Evolves, Evolves-Preorder}
use booking_monitor.Store.Calls.Bookings.{Evolves-Laws, booking_rules}
use booking_monitor.Expiry.Evolution.{unless_cancelled-Keeps}
use booking_monitor.Saga.Compensator
use booking_monitor.Saga.Evolution.{handle_order_failed-Keeps, compensation_body-Keeps}
use booking_monitor.Saga.Watchdog

delivery-Keeps : (ev : OrderFailedEvent) → Keeps Evolves (Compensator.handle_order_failed (some ev))
delivery-Keeps ev =
    handle_order_failed-Keeps Evolves-Laws (some ev)
      (λ ev' e. Keeps-Achieves Evolves-Preorder _ (compensation_body-Keeps ev'))

drive_result-Keeps : (r : Result (Unit {0})) → Keeps Evolves (Watchdog.drive_result r)
unfolding Watchdog.drive_result
drive_result-Keeps (ok _) = search booking_rules
drive_result-Keeps (err e) = search booking_rules

drive-Keeps : (o : Order) (now : ℕ) → Keeps Evolves (Watchdog.drive o now)
unfolding Watchdog.drive
drive-Keeps o now = search (booking_rules, delivery-Keeps, drive_result-Keeps)

found_result-Keeps : (r : Result Order) → Keeps Evolves (Watchdog.found_result r)
unfolding Watchdog.found_result
found_result-Keeps (ok o) = search (booking_rules, drive-Keeps) depth 7
found_result-Keeps (err e) = search booking_rules

resolve-Keeps :
    (cfg : Watchdog.Config) (row : StuckFailed) → Keeps Evolves (Watchdog.resolve cfg row)
unfolding Watchdog.resolve
resolve-Keeps cfg row = search (booking_rules, found_result-Keeps) depth 7

resolve_all-Keeps :
    (cfg : Watchdog.Config) (rows : List StuckFailed)
    → Keeps Evolves (Watchdog.resolve_all cfg rows)
unfolding Watchdog.resolve_all
resolve_all-Keeps cfg [] = search booking_rules
resolve_all-Keeps cfg (row ∷ rows) =
    let rest : Keeps Evolves (Watchdog.resolve cfg row >> Watchdog.resolve_all cfg rows) =
      Keeps-bind Evolves-Preorder _ _ (resolve-Keeps cfg row) (λ _. resolve_all-Keeps cfg rows) in
    Keeps-bind Evolves-Preorder is_cancelled _ (search booking_rules)
      (λ stop. unless_cancelled-Keeps Evolves-Laws stop _ rest)

find_result-Keeps :
    (cfg : Watchdog.Config) (r : Result (List StuckFailed))
    → Keeps Evolves (Watchdog.find_result cfg r)
unfolding Watchdog.find_result
find_result-Keeps cfg (ok rows) = search (booking_rules, resolve_all-Keeps)
find_result-Keeps cfg (err e) = search booking_rules

pub sweep-Keeps : (cfg : Watchdog.Config) → Keeps Evolves (Watchdog.sweep cfg)
unfolding Watchdog.sweep
sweep-Keeps cfg = search (booking_rules, find_result-Keeps)
