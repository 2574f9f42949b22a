-- ===== src/Tests/Drift.antt =====
-- Concrete inputs for the drift detector.
use booking_monitor.Prelude.{
  ◌≡◌, refl, true, false, none, some, [], ◌∷◌, order_by, select, order_by_desc, ◌==◌, if◌then◌else◌,
}
use booking_monitor.Prelude.Int.{pos, ◌-ℤ◌}
use booking_monitor.Domain.Errors.{ok}
use booking_monitor.Domain.TicketType.{TicketType}
use booking_monitor.Application.Metrics.{cache_read_error, drift_detected, cache_high}
use booking_monitor.Store.Exec.{
  Schedule, World, done, refused, attempt, ◌>>=◌, emit, pure, exec, run_script, is_cancelled,
}
use booking_monitor.Store.Db.{select_ticket_types, select_available}
use booking_monitor.Store.TicketTypes.{list_by_event_id}
use booking_monitor.Store.Events.{list_available}
use booking_monitor.Cache.Inventory.{get_inventory, set_ticket_type_metadata, set_metadata}
use booking_monitor.Recon.Drift.{
  DriftConfig, skipped, rehydrate_result, auto_rehydrate, missing, compare, judge,
  check_ticket_type, worse, worst_of, listed, check_one, check_all, events_result, sweep_drift,
}
use booking_monitor.Recon.Drift.Untouched.{IsCount, sweep_drift-IsCount}
use booking_monitor.Recon.Drift.Tolerance.{Verdict, judge-Verdict}
use booking_monitor.Tests.{vip, concert, start, stocked, calm}
use booking_monitor.Tests.Queue.{plain}

abbrev watch : DriftConfig
watch = record { formats = plain; absolute_tolerance = pos 2; auto_rehydrate = true }

-- The key of the count is gone.
abbrev pub on_air : World
on_air = record start {
  db = record start.db { events = concert ∷ [] };
  cache = record stocked { quantity = λ k. none };
}

sweep_drift-IsCount_example :
    IsCount 7 none (sweep_drift watch calm on_air).1.cache (sweep_drift watch calm on_air).1.db
sweep_drift-IsCount_example = sweep_drift-IsCount watch 7 none calm (λ n c d p. p) on_air refl

swept : (sweep_drift watch calm on_air).0 ≡ ok tt
unfolding sweep_drift events_result list_available select_available order_by_desc check_all
    is_cancelled missing auto_rehydrate rehydrate_result set_ticket_type_metadata set_metadata
    check_one ◌>>=◌ attempt listed list_by_event_id exec select_ticket_types worst_of order_by
    select check_ticket_type judge get_inventory run_script compare ◌-ℤ◌ emit pure worse
swept = refl

judge-Verdict_example :
    Verdict watch vip (pos 4) true (judge watch vip (ok (pos 4, true)) calm start).0
judge-Verdict_example = judge-Verdict watch vip calm (pos 4) true start

-- The third call of the process fails.
abbrev flaky : Schedule
flaky n = record (calm n) { outcome = if n == 2 then refused else done }

abbrev balcony : TicketType
balcony = record vip { id = 8 }

abbrev two_types : World
two_types = record start {
  db = record start.db { ticket_types = vip ∷ balcony ∷ [] };
  cache = record stocked { quantity = λ k. some (pos 9) };
}

abbrev quiet : DriftConfig
quiet = record watch { auto_rehydrate = false }

-- A drift of one ticket type is hidden by a failed read of another: the event is `skipped`.
hidden : (check_one quiet concert flaky two_types).0 ≡ ok skipped
unfolding check_one ◌>>=◌ attempt listed list_by_event_id exec select_ticket_types worst_of order_by
    select check_ticket_type judge get_inventory run_script compare ◌-ℤ◌ emit pure worse
hidden = refl

seen_then_hidden :
    (check_one quiet concert flaky two_types).1.metrics
    ≡ cache_read_error ∷ drift_detected cache_high ∷ []
unfolding check_one ◌>>=◌ attempt listed list_by_event_id exec select_ticket_types worst_of order_by
    select check_ticket_type judge get_inventory run_script compare ◌-ℤ◌ emit pure worse
seen_then_hidden = refl
