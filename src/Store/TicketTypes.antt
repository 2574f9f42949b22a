-- ===== src/Store/TicketTypes.antt =====
-- `postgresTicketTypeRepository` of repositories.go: what the services call.
use booking_monitor.Prelude.{ℕ, List, if◌then◌else◌}
use booking_monitor.Prelude.Int.{ℤ}
use booking_monitor.Domain.Errors.{
  ticket_type_sold_out, increment_exceeds_total, ticket_type_not_found,
}
use booking_monitor.Domain.TicketType.{TicketType}
use booking_monitor.Store.Db.{
  decrement_stmt, increment_stmt, select_ticket_types, select_ticket_type, insert_ticket_type,
  delete_ticket_type,
}
use booking_monitor.Store.Exec.{M, pure, raise, or_fail, ◌>>=◌, ◌>>◌, Executor, exec}

unfoldable pub decrement_ticket : Executor → ℕ → ℤ → M (Unit {0})
decrement_ticket e id quantity = do
  taken ← exec e (decrement_stmt id quantity)
  if taken then pure tt else raise ticket_type_sold_out

unfoldable pub increment_ticket : Executor → ℕ → ℤ → M (Unit {0})
increment_ticket e id quantity = do
  given ← exec e (increment_stmt id quantity)
  if given then pure tt else raise increment_exceeds_total

unfoldable pub list_by_event_id : Executor → ℕ → M (List TicketType)
list_by_event_id e event_id = exec e (select_ticket_types event_id)

unfoldable pub get_ticket_type : Executor → ℕ → M TicketType
get_ticket_type e id = do
  found ← exec e (select_ticket_type id)
  or_fail found ticket_type_not_found

unfoldable pub create_ticket_type : Executor → TicketType → M TicketType
create_ticket_type e t = exec e (insert_ticket_type t) >> pure t

unfoldable pub remove_ticket_type : Executor → ℕ → M (Unit {0})
remove_ticket_type e id = exec e (delete_ticket_type id)
