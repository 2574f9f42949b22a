-- ===== src/Tests/Relay.antt =====
-- Concrete inputs for the relay of the outbox.
use booking_monitor.Prelude.{ℕ, refl, true, false, find}
use booking_monitor.Domain.Errors.{ok, err, context_done}
use booking_monitor.Application.Events.{new_order_failed_outbox}
use booking_monitor.Store.Db.{insert_outbox}
use booking_monitor.Store.Exec.{World}
use booking_monitor.Relay.{Publisher, Lock, process_batch, run_ticks}
use booking_monitor.Relay.Publication.{IsWaiting, Refuses, run_ticks-IsWaiting}
use booking_monitor.Tests.{start, calm, notice}

-- The broker is down.
abbrev down : Publisher
down e n = err context_done

abbrev leader : Lock
leader = record { try_lock = λ n. ok true; unlock = λ n. ok tt }

abbrev one_notice : World
one_notice = record start { db = (insert_outbox notice 500 start.db).1 }

down-Refuses : (k : ℕ) → Refuses down k
down-Refuses k e n h = λ q. cc

notice-IsWaiting : IsWaiting 9 one_notice.db
unfolding insert_outbox new_order_failed_outbox find
notice-IsWaiting = (notice, refl, refl)

run_ticks-IsWaiting_example :
    IsWaiting 9 (run_ticks leader (process_batch down 100) 2 false calm one_notice).1.db
run_ticks-IsWaiting_example =
    run_ticks-IsWaiting down 9 (down-Refuses 9) leader 100 2 calm (λ n d h. h) one_notice
      notice-IsWaiting
