-- ===== src/Relay.antt =====
-- internal/application/outbox/relay.go: the rows of the outbox go to the broker, at least once. The
-- broker's answers (`PublishOutboxEvent`) and those of the advisory lock are parameters, one for each
-- call.
pub mod Publication
use booking_monitor.Prelude.{ℕ, zero, suc, Bool, true, false, List, [], ◌∷◌, if◌then◌else◌}
use booking_monitor.Prelude.Int.{ℤ, pos_part, nonpositive}
use booking_monitor.Domain.Errors.{Result, ok, err, context_done}
use booking_monitor.Application.Events.{OutboxEvent}
use booking_monitor.Store.Exec.{M, pure, raise, attempt, ◌>>=◌, ◌>>◌, pool, is_cancelled, ask}
use booking_monitor.Store.Outbox.{list_pending, mark_processed}

abbrev pub Publisher : Type 0
Publisher = OutboxEvent → ℕ → Result (Unit {0})

-- `DistributedLock`: whether the lock was acquired, or an error; and the answer to the release.
pub record Lock : Type 0 where
  pub try_lock : ℕ → Result Bool
  pub unlock : ℕ → Result (Unit {0})

-- The default of `NewRelay`.
unfoldable pub new_batch_size : ℤ → ℕ
new_batch_size n = if nonpositive n then 100 else pos_part n

-- An event that was not published stays for the next batch; a failed mark is only logged.
unfoldable pub published : OutboxEvent → Result (Unit {0}) → M (Unit {0})
published e (err x) = pure tt
published e (ok _) = attempt (mark_processed pool e.id) >> pure tt

unfoldable pub relay_one : Publisher → OutboxEvent → M (Unit {0})
relay_one publisher e = attempt (ask (publisher e)) >>= published e

unfoldable pub relay_all : Publisher → List OutboxEvent → M (Unit {0})
relay_all publisher [] = pure tt
relay_all publisher (e ∷ es) = is_cancelled >>= λ stop.
    if stop then raise context_done else (relay_one publisher e >> relay_all publisher es)

unfoldable pub process_batch : Publisher → ℕ → M (Unit {0})
process_batch publisher size = list_pending pool size >>= relay_all publisher

-- The lock is released at the end, if it was ever acquired.
unfoldable pub release : Lock → Bool → M (Unit {0})
release lock false = pure tt
release lock true = attempt (ask lock.unlock) >> pure tt

-- One tick: whether this process is the leader after it.
unfoldable pub tick_result : M (Unit {0}) → Bool → Result Bool → M Bool
tick_result batch was_leader (ok true) = attempt batch >> pure true
tick_result batch was_leader (ok false) = pure was_leader
tick_result batch was_leader (err x) = pure was_leader

-- The loop has no bound, and is run for a number of ticks.
unfoldable pub run_ticks : Lock → M (Unit {0}) → ℕ → Bool → M (Unit {0})
run_ticks lock batch zero was_leader = pure tt
run_ticks lock batch (suc ticks) was_leader = is_cancelled >>= λ stop.
    if stop
    then release lock was_leader
    else (attempt (ask lock.try_lock) >>= λ r.
        tick_result batch was_leader r >>= run_ticks lock batch ticks)
