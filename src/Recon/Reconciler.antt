-- ===== src/Recon/Reconciler.antt =====
-- internal/application/recon/reconciler.go: what becomes of the orders that stay in `charging`. The
-- gateway's `GetStatus` is a parameter, and its answer may differ from call to call.
use booking_monitor.Prelude.{ℕ, List, [], ◌∷◌, length, ltb, ◌==◌, if◌then◌else◌}
use booking_monitor.Domain.Errors.{Error, Result, ok, err, is_invalid_transition}
use booking_monitor.Domain.Order.{Order}
use booking_monitor.Application.Events.{
  Reason, gateway_declined, gateway_no_record, new_order_failed_event,
}
use booking_monitor.Application.Metrics.{
  ReconOutcome, recon_resolved, stuck_charging_orders, recon_find_stuck_error,
  null_intent_id_skipped, gateway_error, mark_error,
}
use booking_monitor.Store.Db.{StuckCharging}
use booking_monitor.Store.Exec.{
  M, pure, raise, attempt, emit, ◌>>=◌, ◌>>◌, pool, tx, do_uow, clock, is_cancelled, ask,
}
use booking_monitor.Store.Orders.{get_by_id, mark_confirmed, mark_failed, find_stuck_charging}
use booking_monitor.Store.Outbox
use booking_monitor.Expiry.Sweeper.{unless_cancelled}

pub record Config : Type 0 where
  pub charging_threshold : ℕ
  pub max_charging_age : ℕ
  pub batch_size : ℕ

-- `domain.ChargeStatus`; `unknown` is every other text.
pub data ChargeStatus : Type 0 where
  charged declined not_found unknown : ChargeStatus

-- `PaymentStatusReader.GetStatus`: the intent, and the number of the call.
abbrev pub StatusReader : Type 0
StatusReader = ℕ → ℕ → Result ChargeStatus

unfoldable pub fail_body : ℕ → Order → Reason → M (Unit {0})
fail_body id order reason = do
  mark_failed tx id
  now ← clock
  row ← Outbox.build (new_order_failed_event now order reason)
  Outbox.create tx row

unfoldable pub fail_order : ℕ → Reason → M (Unit {0})
fail_order id reason = do order ← get_by_id pool id; do_uow (fail_body id order reason)

abbrev resolved : ReconOutcome → M (Unit {0})
resolved o = emit (recon_resolved o)

unfoldable pub handle_mark_err : Error → M (Unit {0})
handle_mark_err e =
    if is_invalid_transition e then resolved ReconOutcome.transition_lost else emit mark_error

unfoldable pub mark_result : ReconOutcome → Result (Unit {0}) → M (Unit {0})
mark_result o (ok _) = resolved o
mark_result o (err e) = handle_mark_err e

unfoldable pub status_result : ℕ → Result ChargeStatus → M (Unit {0})
status_result id (err e) = emit gateway_error
status_result id (ok ChargeStatus.charged) =
    attempt (mark_confirmed pool id) >>= mark_result ReconOutcome.charged
status_result id (ok ChargeStatus.declined) =
    attempt (fail_order id gateway_declined) >>= mark_result ReconOutcome.declined
status_result id (ok ChargeStatus.not_found) =
    attempt (fail_order id gateway_no_record) >>= mark_result ReconOutcome.not_found
status_result id (ok ChargeStatus.unknown) = resolved ReconOutcome.unknown

unfoldable pub ask_gateway : StatusReader → StuckCharging → M (Unit {0})
ask_gateway gateway s =
    if s.payment_intent_id == 0
    then emit null_intent_id_skipped
    else (attempt (ask (gateway s.payment_intent_id)) >>= status_result s.id)

unfoldable pub resolve : StatusReader → Config → StuckCharging → M (Unit {0})
resolve gateway cfg s =
    if ltb cfg.max_charging_age s.age
    then (attempt (fail_order s.id Reason.max_age_exceeded)
        >>= mark_result ReconOutcome.max_age_exceeded)
    else ask_gateway gateway s

unfoldable pub resolve_all : StatusReader → Config → List StuckCharging → M (Unit {0})
resolve_all gateway cfg [] = pure tt
resolve_all gateway cfg (s ∷ rest) = is_cancelled >>= λ stop.
    unless_cancelled stop (resolve gateway cfg s >> resolve_all gateway cfg rest)

unfoldable pub find_result : StatusReader → Config → Result (List StuckCharging) → M (Unit {0})
find_result gateway cfg (err e) = do emit recon_find_stuck_error; raise e
find_result gateway cfg (ok stuck) = do
  emit (stuck_charging_orders (length stuck))
  resolve_all gateway cfg stuck

unfoldable pub sweep : StatusReader → Config → M (Unit {0})
sweep gateway cfg = do
  r ← attempt (find_stuck_charging pool cfg.charging_threshold cfg.batch_size)
  find_result gateway cfg r
