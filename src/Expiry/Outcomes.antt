-- ===== src/Expiry/Outcomes.antt =====
-- The outcome counter of internal/application/expiry/sweeper.go.
use booking_monitor.Prelude.{◌+◌, ◌≡◌, Bool, true, false}
use booking_monitor.Domain.Errors.{Result, ok, err}
use booking_monitor.Domain.Order.{Order}
use booking_monitor.Application.Events.{OutboxEvent}
use booking_monitor.Application.Metrics.{Metric, expiry_resolved}
use booking_monitor.Store.Db.{ExpiredReservation}
use booking_monitor.Store.Exec.{Schedule, World}
use booking_monitor.Store.Tally.{Counts, tally}
use booking_monitor.Store.Silent.{silent_calls}
use booking_monitor.Expiry.Sweeper

abbrev pub is_resolution : Metric → Bool
is_resolution (expiry_resolved o) = true
is_resolution _ = false

tag_create-silent : (r : Result (Unit {0})) → Counts is_resolution 0 (Sweeper.tag_create r)
unfolding Sweeper.tag_create
tag_create-silent (ok _) = search silent_calls
tag_create-silent (err e) = search silent_calls

expire_body-silent :
    (o : Order) (row : OutboxEvent) → Counts is_resolution 0 (Sweeper.expire_body o row)
unfolding Sweeper.expire_body
expire_body-silent o row = search (silent_calls, tag_create-silent) depth 7

expire_result-Counts :
    (b : Bool) (r : Result (Unit {0})) → Counts is_resolution 1 (Sweeper.expire_result b r)
unfolding Sweeper.expire_result
expire_result-Counts true (ok _) = search silent_calls
expire_result-Counts false (ok _) = search silent_calls
expire_result-Counts true (err e) = search silent_calls depth 8
expire_result-Counts false (err e) = search silent_calls depth 8

build_result-Counts :
    (b : Bool) (o : Order) (r : Result OutboxEvent)
    → Counts is_resolution 1 (Sweeper.build_result b o r)
unfolding Sweeper.build_result
build_result-Counts b o (ok row) =
    search (silent_calls, expire_body-silent, expire_result-Counts) depth 8
build_result-Counts b o (err e) = search silent_calls

found_result-Counts :
    (b : Bool) (r : Result Order) → Counts is_resolution 1 (Sweeper.found_result b r)
unfolding Sweeper.found_result
found_result-Counts b (ok o) = search (silent_calls, build_result-Counts) depth 9
found_result-Counts b (err e) = search silent_calls

resolve-Counts :
    (cfg : Sweeper.Config) (e : ExpiredReservation) → Counts is_resolution 1 (Sweeper.resolve cfg e)
unfolding Sweeper.resolve
resolve-Counts cfg e = search (silent_calls, found_result-Counts) depth 7

-- Whatever fails and whatever other processes do, one row makes one `IncResolved`.
pub resolve-counts_once :
    (cfg : Sweeper.Config) (e : ExpiredReservation) (s : Schedule) (w : World)
    → tally is_resolution (Sweeper.resolve cfg e s w).1.metrics ≡ 1 + tally is_resolution w.metrics
resolve-counts_once cfg e s w = (resolve-Counts cfg e).at s w
