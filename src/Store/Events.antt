-- ===== src/Store/Events.antt =====
-- `postgresEventRepository` of repositories.go: what the drift detector and the event service call.
use booking_monitor.Prelude.{ℕ, List}
use booking_monitor.Domain.Event.{Event}
use booking_monitor.Store.Db.{select_available, insert_event, delete_event}
use booking_monitor.Store.Exec.{M, pure, ◌>>◌, Executor, exec}

unfoldable pub list_available : Executor → M (List Event)
list_available e = exec e select_available

unfoldable pub create_event_row : Executor → Event → M Event
create_event_row e event = exec e (insert_event event) >> pure event

unfoldable pub delete_event_row : Executor → ℕ → M (Unit {0})
delete_event_row e id = exec e (delete_event id)
