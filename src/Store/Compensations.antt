-- ===== src/Store/Compensations.antt =====
-- `postgresSagaCompensationRepository` of repositories.go.
use booking_monitor.Prelude.{ℕ, Bool, false, Option, none, some, if◌then◌else◌}
use booking_monitor.Domain.Errors.{not_reverted_row}
use booking_monitor.Store.Db.{insert_compensation, select_reverted, mark_reverted_stmt}
use booking_monitor.Store.Exec.{M, pure, raise, ◌>>=◌, Executor, exec}

-- The number of rows affected, which is 0 or 1.
unfoldable pub record_completion : Executor → ℕ → ℕ → M Bool
record_completion e id order_id = exec e (insert_compensation id order_id)

abbrev pub is_reverted : Option Bool → Bool
is_reverted none = false
is_reverted (some b) = b

unfoldable pub was_redis_reverted : Executor → ℕ → M Bool
was_redis_reverted e id = do found ← exec e (select_reverted id); pure (is_reverted found)

unfoldable pub mark_redis_reverted : Executor → ℕ → M (Unit {0})
mark_redis_reverted e id = do
  found ← exec e (mark_reverted_stmt id)
  if found then pure tt else raise not_reverted_row
