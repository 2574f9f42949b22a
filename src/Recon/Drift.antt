-- ===== src/Recon/Drift.antt =====
-- internal/application/recon/inventory_drift.go: the counts in Redis beside those of the tables. The
-- outcomes of a check are kept in the order of their constants, which `checkOne` compares.
pub mod Untouched
pub mod Tolerance
use booking_monitor.Prelude.{
  ℕ, suc, Bool, true, false, List, [], ◌∷◌, not, ◌&&◌, ltb, if◌then◌else◌,
}
use booking_monitor.Prelude.Int.{ℤ, pos, ◌-ℤ◌, nonpositive, ltb_ℤ}
use booking_monitor.Domain.Errors.{Error, Result, ok, err, context_done, is_context_done}
use booking_monitor.Domain.Event.{Event}
use booking_monitor.Domain.TicketType.{TicketType}
use booking_monitor.Application.Metrics.{
  Direction, cache_high, cache_low_excess, drifted_events, drift_detected, list_events_error,
  cache_read_error, auto_rehydrated, auto_rehydrate_error,
}
use booking_monitor.Store.Exec.{M, pure, raise, attempt, emit, ◌>>=◌, ◌>>◌, pool, is_cancelled}
use booking_monitor.Store.TicketTypes.{list_by_event_id}
use booking_monitor.Store.Events.{list_available}
use booking_monitor.Cache.Deduct.{Formats}
use booking_monitor.Cache.Inventory.{get_inventory, set_ticket_type_metadata}

pub record DriftConfig : Type 0 where
  pub formats : Formats
  pub absolute_tolerance : ℤ
  pub auto_rehydrate : Bool

pub data CheckOutcome : Type 0 where
  clean drifted skipped : CheckOutcome

abbrev rank : CheckOutcome → ℕ
rank clean = 0
rank drifted = 1
rank skipped = 2

abbrev pub flag : Direction → M CheckOutcome
flag d = emit (drift_detected d) >> pure drifted

unfoldable pub rehydrate_result : Result (Unit {0}) → M (Unit {0})
rehydrate_result (ok _) = emit auto_rehydrated
rehydrate_result (err e) = emit auto_rehydrate_error

unfoldable pub auto_rehydrate : DriftConfig → TicketType → M (Unit {0})
auto_rehydrate cfg t = attempt (set_ticket_type_metadata cfg.formats t) >>= rehydrate_result

unfoldable pub missing : DriftConfig → TicketType → M CheckOutcome
missing cfg t = do
  emit (drift_detected Direction.cache_missing)
  if cfg.auto_rehydrate then auto_rehydrate cfg t else pure tt
  pure drifted

unfoldable pub compare : DriftConfig → TicketType → ℤ → M CheckOutcome
compare cfg t drift =
    if ltb_ℤ drift (pos 0)
    then flag cache_high
    else if ltb_ℤ cfg.absolute_tolerance drift
    then flag cache_low_excess
    else pure clean

unfoldable pub judge : DriftConfig → TicketType → Result (ℤ × Bool) → M CheckOutcome
judge cfg t (err e) =
    if is_context_done e then pure clean else (emit cache_read_error >> pure skipped)
judge cfg t (ok (cache_qty, found)) =
    if not found && not (nonpositive t.available_tickets)
    then missing cfg t
    else compare cfg t (t.available_tickets -ℤ cache_qty)

unfoldable pub check_ticket_type : DriftConfig → TicketType → M CheckOutcome
check_ticket_type cfg t = attempt (get_inventory t.id) >>= judge cfg t

unfoldable pub worse : CheckOutcome → CheckOutcome → CheckOutcome
worse worst outcome = if ltb (rank worst) (rank outcome) then outcome else worst

unfoldable pub worst_of : DriftConfig → CheckOutcome → List TicketType → M CheckOutcome
worst_of cfg worst [] = pure worst
worst_of cfg worst (t ∷ ts) =
    check_ticket_type cfg t >>= λ outcome. worst_of cfg (worse worst outcome) ts

unfoldable pub listed : DriftConfig → Result (List TicketType) → M CheckOutcome
listed cfg (err e) = emit cache_read_error >> pure skipped
listed cfg (ok ts) = worst_of cfg clean ts

unfoldable pub check_one : DriftConfig → Event → M CheckOutcome
check_one cfg e = attempt (list_by_event_id pool e.id) >>= listed cfg

abbrev pub is_drifted : CheckOutcome → Bool
is_drifted drifted = true
is_drifted _ = false

-- The number of the drifted events. That of the skipped ones is only logged.
unfoldable pub check_all : DriftConfig → ℕ → List Event → M ℕ
check_all cfg count [] = pure count
check_all cfg count (e ∷ es) = is_cancelled >>= λ stop.
    if stop
    then raise context_done
    else (check_one cfg e >>= λ outcome.
        check_all cfg (if is_drifted outcome then suc count else count) es)

unfoldable pub events_result : DriftConfig → Result (List Event) → M (Unit {0})
events_result cfg (err e) = do emit (drifted_events 0); emit list_events_error; raise e
events_result cfg (ok []) = emit (drifted_events 0)
events_result cfg (ok (e ∷ es)) = check_all cfg 0 (e ∷ es) >>= λ count. emit (drifted_events count)

unfoldable pub sweep_drift : DriftConfig → M (Unit {0})
sweep_drift cfg = attempt (list_available pool) >>= events_result cfg
