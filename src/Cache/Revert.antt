-- ===== src/Cache/Revert.antt =====
-- `RevertInventory` of internal/infrastructure/cache/redis.go and its script lua/revert.lua.
--
-- A compensation id is a text in one of three shapes: "order:" and an order id (the saga), a stream
-- entry id (the worker), or an order id alone (the Kafka intake). The model numbers them by their
-- remainder modulo 3.
use booking_monitor.Prelude.{
  ℕ, ◌+◌, ◌*◌, Bool, false, ◌||◌, Option, none, some, List, [], ◌∷◌, ◌==◌, if◌then◌else◌,
}
use booking_monitor.Prelude.Int.{ℤ, ◌+ℤ◌}
use booking_monitor.Domain.Errors.{Result, ok}
use booking_monitor.Store.Exec.{M, run_script}
use booking_monitor.Store.Redis.{Redis}

abbrev pub order_compensation : ℕ → ℕ
order_compensation order_id = 3 * order_id

abbrev pub message_compensation : ℕ → ℕ
message_compensation message_id = 3 * message_id + 1

abbrev pub intake_compensation : ℕ → ℕ
intake_compensation order_id = 3 * order_id + 2

-- `EXISTS saga:reverted:{id}`.
unfoldable pub contains : ℕ → List ℕ → Bool
contains k [] = false
contains k (x ∷ xs) = x == k || contains k xs

-- `INCRBY`, where the key exists.
unfoldable pub add_quantity : ℕ → ℤ → (ℕ → Option ℤ) → ℕ → Option ℤ
add_quantity id count f k =
    if k == id then elim (f k) [ none ↦ none | some n ↦ some (n +ℤ count) ] else f k

unfoldable pub revert_script : ℕ → ℤ → ℕ → Redis → Result (Unit {0}) × Redis
unfolding contains
revert_script id count compensation_id c =
    if contains compensation_id c.reverted then (ok tt, c) else (
      ok tt,
      record c {
        quantity = add_quantity id count c.quantity;
        reverted = compensation_id ∷ c.reverted;
      },
    )

unfoldable pub revert_inventory : ℕ → ℤ → ℕ → M (Unit {0})
revert_inventory id count compensation_id = run_script (revert_script id count compensation_id)
