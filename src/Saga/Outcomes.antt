-- ===== src/Saga/Outcomes.antt =====
-- The outcome counter of internal/application/saga/compensator.go.
use booking_monitor.Prelude.{ℕ, ◌+◌, ◌≡◌, Bool, true, false, Option, none, some}
use booking_monitor.Prelude.Int.{ℤ}
use booking_monitor.Domain.Errors.{Step, Result, ok, err}
use booking_monitor.Application.Events.{OrderFailedEvent}
use booking_monitor.Application.Metrics.{Metric, saga_processed}
use booking_monitor.Store.Exec.{M, Schedule, World}
use booking_monitor.Store.Tally.{Counts, tally}
use booking_monitor.Store.Silent.{silent_calls}
use booking_monitor.Cache.Revert.{revert_inventory}
use booking_monitor.Saga.Compensator

abbrev pub is_processed : Metric → Bool
is_processed (saga_processed o) = true
is_processed _ = false

tag_result-silent :
    {A : Type 0} (t : Step) (r : Result A) → Counts is_processed 0 (Compensator.tag_result t r)
unfolding Compensator.tag_result
tag_result-silent t (ok a) = search silent_calls
tag_result-silent t (err e) = search silent_calls

in_step-silent :
    {A : Type 0} (t : Step) (m : M A)
    → Counts is_processed 0 m
    → Counts is_processed 0 (Compensator.in_step t m)
unfolding Compensator.in_step
in_step-silent t m k = search (silent_calls, tag_result-silent)

resolve-silent :
    (ev : OrderFailedEvent) → Counts is_processed 0 (Compensator.resolve_ticket_type_id ev)
unfolding Compensator.resolve_ticket_type_id
resolve-silent ev = search silent_calls

give_back-silent :
    (ev : OrderFailedEvent) (t : ℕ) → Counts is_processed 0 (Compensator.give_back ev t)
unfolding Compensator.give_back
give_back-silent ev t = search (silent_calls, in_step-silent)

compensate_order-silent :
    (ev : OrderFailedEvent) (t : ℕ) → Counts is_processed 0 (Compensator.compensate_order ev t)
unfolding Compensator.compensate_order
compensate_order-silent ev t = search (silent_calls, in_step-silent, give_back-silent) depth 8

compensation_of-silent :
    (ev : OrderFailedEvent) (b : Bool) (t : ℕ)
    → Counts is_processed 0 (Compensator.compensation_of ev b t)
unfolding Compensator.compensation_of
compensation_of-silent ev true t = search silent_calls
compensation_of-silent ev false t = compensate_order-silent ev t

compensation_body-silent :
    (ev : OrderFailedEvent) → Counts is_processed 0 (Compensator.compensation_body ev)
unfolding Compensator.compensation_body
compensation_body-silent ev =
    search (silent_calls, in_step-silent, resolve-silent, compensation_of-silent) depth 8

mark_result-Counts :
    (b : Bool) (r : Result (Unit {0})) → Counts is_processed 1 (Compensator.mark_result b r)
unfolding Compensator.mark_result
mark_result-Counts b (ok _) = search silent_calls
mark_result-Counts b (err e) = search silent_calls depth 7

revert_result-Counts :
    (ev : OrderFailedEvent) (b : Bool) (r : Result (Unit {0}))
    → Counts is_processed 1 (Compensator.revert_result ev b r)
unfolding Compensator.revert_result
revert_result-Counts ev b (ok _) = search (silent_calls, mark_result-Counts)
revert_result-Counts ev b (err e) = search silent_calls

revert_inventory-silent : (t : ℕ) (n : ℤ) (c : ℕ) → Counts is_processed 0 (revert_inventory t n c)
unfolding revert_inventory
revert_inventory-silent t n c = search silent_calls

revert_redis-Counts :
    (ev : OrderFailedEvent) (p : Compensator.Resolved)
    → Counts is_processed 1 (Compensator.revert_redis ev p)
unfolding Compensator.revert_redis
revert_redis-Counts ev (b, t) =
    search (silent_calls, revert_inventory-silent, revert_result-Counts) depth 8

reverted_result-Counts :
    (ev : OrderFailedEvent) (p : Compensator.Resolved) (r : Result Bool)
    → Counts is_processed 1 (Compensator.reverted_result ev p r)
unfolding Compensator.reverted_result
reverted_result-Counts ev p (err e) = search (silent_calls, revert_redis-Counts)
reverted_result-Counts ev p (ok true) = search silent_calls
reverted_result-Counts ev p (ok false) = revert_redis-Counts ev p

check_reverted-Counts :
    (ev : OrderFailedEvent) (p : Compensator.Resolved)
    → Counts is_processed 1 (Compensator.check_reverted ev p)
unfolding Compensator.check_reverted
check_reverted-Counts ev p = search (silent_calls, reverted_result-Counts)

after_uow-Counts :
    (ev : OrderFailedEvent) (r : Result Compensator.Resolved)
    → Counts is_processed 1 (Compensator.after_uow ev r)
unfolding Compensator.after_uow
after_uow-Counts ev (err e) = search silent_calls
after_uow-Counts ev (ok (b, t)) = search (silent_calls, check_reverted-Counts, revert_redis-Counts)

handle-Counts :
    (p : Option OrderFailedEvent) → Counts is_processed 1 (Compensator.handle_order_failed p)
unfolding Compensator.handle_order_failed
handle-Counts none = search silent_calls
handle-Counts (some ev) = search (silent_calls, compensation_body-silent, after_uow-Counts) depth 8

-- Whatever fails and whatever other processes do, one delivery makes one `RecordEventProcessed`.
pub handle_order_failed-counts_once :
    (p : Option OrderFailedEvent) (s : Schedule) (w : World)
    → tally is_processed (Compensator.handle_order_failed p s w).1.metrics
      ≡ 1 + tally is_processed w.metrics
handle_order_failed-counts_once p s w = (handle-Counts p).at s w
