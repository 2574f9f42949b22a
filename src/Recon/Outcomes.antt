-- ===== src/Recon/Outcomes.antt =====
-- The counters of internal/application/recon/reconciler.go.
use booking_monitor.Prelude.{ℕ, ◌+◌, ◌≡◌, Bool, true, false}
use booking_monitor.Domain.Errors.{Result, ok, err}
use booking_monitor.Domain.Order.{Order}
use booking_monitor.Application.Events.{Reason}
use booking_monitor.Application.Metrics.{
  Metric, ReconOutcome, recon_resolved, null_intent_id_skipped, gateway_error, mark_error,
}
use booking_monitor.Store.Db.{StuckCharging}
use booking_monitor.Store.Exec.{Schedule, World}
use booking_monitor.Store.Tally.{Counts, tally}
use booking_monitor.Store.Silent.{silent_calls}
use booking_monitor.Recon.Reconciler
use booking_monitor.Recon.Reconciler.{StatusReader, ChargeStatus}

-- What the reconciler may count for a row: an outcome, or one of its three errors.
abbrev pub is_verdict : Metric → Bool
is_verdict (recon_resolved o) = true
is_verdict null_intent_id_skipped = true
is_verdict gateway_error = true
is_verdict mark_error = true
is_verdict _ = false

fail_body-silent :
    (id : ℕ) (o : Order) (why : Reason) → Counts is_verdict 0 (Reconciler.fail_body id o why)
unfolding Reconciler.fail_body
fail_body-silent id o why = search silent_calls depth 9

fail_order-silent : (id : ℕ) (why : Reason) → Counts is_verdict 0 (Reconciler.fail_order id why)
unfolding Reconciler.fail_order
fail_order-silent id why = search (silent_calls, fail_body-silent) depth 7

mark_result-Counts :
    (o : ReconOutcome) (r : Result (Unit {0})) → Counts is_verdict 1 (Reconciler.mark_result o r)
unfolding Reconciler.mark_result Reconciler.handle_mark_err
mark_result-Counts o (ok _) = search silent_calls
mark_result-Counts o (err e) = search silent_calls

status_result-Counts :
    (id : ℕ) (r : Result ChargeStatus) → Counts is_verdict 1 (Reconciler.status_result id r)
unfolding Reconciler.status_result
status_result-Counts id (err e) = search silent_calls
status_result-Counts id (ok ChargeStatus.charged) = search (silent_calls, mark_result-Counts)
status_result-Counts id (ok ChargeStatus.declined) =
    search (silent_calls, fail_order-silent, mark_result-Counts)
status_result-Counts id (ok ChargeStatus.not_found) =
    search (silent_calls, fail_order-silent, mark_result-Counts)
status_result-Counts id (ok ChargeStatus.unknown) = search silent_calls

ask_gateway-Counts :
    (gateway : StatusReader) (row : StuckCharging)
    → Counts is_verdict 1 (Reconciler.ask_gateway gateway row)
unfolding Reconciler.ask_gateway
ask_gateway-Counts gateway row = search (silent_calls, status_result-Counts) depth 7

resolve-Counts :
    (gateway : StatusReader) (cfg : Reconciler.Config) (row : StuckCharging)
    → Counts is_verdict 1 (Reconciler.resolve gateway cfg row)
unfolding Reconciler.resolve
resolve-Counts gateway cfg row =
    search (silent_calls, fail_order-silent, mark_result-Counts, ask_gateway-Counts) depth 7

-- Whatever the gateway answers, whatever fails and whatever other processes do, one stuck order makes
-- exactly one count among the outcomes, the missing intents, the gateway errors and the mark errors.
pub resolve-one_verdict :
    (gateway : StatusReader) (cfg : Reconciler.Config) (row : StuckCharging) (s : Schedule)
    (w : World)
    → tally is_verdict (Reconciler.resolve gateway cfg row s w).1.metrics
      ≡ 1 + tally is_verdict w.metrics
resolve-one_verdict gateway cfg row s w = (resolve-Counts gateway cfg row).at s w
