-- ===== src/Store/Outbox.antt =====
-- `postgresOutboxRepository` of repositories.go, and the construction of the row that every
-- caller puts before it: `json.Marshal` and `domain.NewOrderFailedOutbox`.
use booking_monitor.Application.Events.{OrderFailedEvent, OutboxEvent, new_order_failed_outbox}
use booking_monitor.Prelude.{ℕ, List}
use booking_monitor.Store.Db.{insert_outbox, select_pending, mark_processed_stmt}
use booking_monitor.Store.Exec.{M, pure, ◌>>=◌, Executor, exec, clock, new_v7}

unfoldable pub create : Executor → OutboxEvent → M (Unit {0})
create e row = exec e (insert_outbox row)

-- `NewOrderFailedOutbox(payload)`: a fresh id, or the generator's error.
unfoldable pub build : OrderFailedEvent → M OutboxEvent
build payload = do id ← new_v7; now ← clock; pure (new_order_failed_outbox id now payload)

unfoldable pub list_pending : Executor → ℕ → M (List OutboxEvent)
list_pending e limit = exec e (select_pending limit)

unfoldable pub mark_processed : Executor → ℕ → M (Unit {0})
mark_processed e id = exec e (mark_processed_stmt id)
