-- ===== src/Recon/Evolution.antt =====
-- The calls of internal/application/recon/reconciler.go, one lemma for each function of the model.
use booking_monitor.Prelude.{ℕ, List, [], ◌∷◌}
use booking_monitor.Domain.Errors.{Result, ok, err}
use booking_monitor.Domain.Order.{Order}
use booking_monitor.Application.Events.{Reason}
use booking_monitor.Application.Metrics.{ReconOutcome}
use booking_monitor.Store.Db.{Db, StuckCharging}
use booking_monitor.Store.Exec.{◌>>◌, is_cancelled}
use booking_monitor.Store.Keeps.{Keeps, Keeps-bind}
use booking_monitor.Store.Calls.{Laws, call_rules}
use booking_monitor.Expiry.Evolution.{unless_cancelled-Keeps}
use booking_monitor.Recon.Reconciler
use booking_monitor.Recon.Reconciler.{StatusReader, ChargeStatus}

module _ {R : Db → Db → Type 0} (L : Laws R) where
  fail_body-Keeps : (id : ℕ) (o : Order) (why : Reason) → Keeps R (Reconciler.fail_body id o why)
  unfolding Reconciler.fail_body
  fail_body-Keeps id o why = search call_rules depth 9

  fail_order-Keeps : (id : ℕ) (why : Reason) → Keeps R (Reconciler.fail_order id why)
  unfolding Reconciler.fail_order
  fail_order-Keeps id why = search (call_rules, fail_body-Keeps) depth 7

  mark_result-Keeps :
      (o : ReconOutcome) (r : Result (Unit {0})) → Keeps R (Reconciler.mark_result o r)
  unfolding Reconciler.mark_result Reconciler.handle_mark_err
  mark_result-Keeps o (ok _) = search call_rules
  mark_result-Keeps o (err e) = search call_rules

  status_result-Keeps : (id : ℕ) (r : Result ChargeStatus) → Keeps R (Reconciler.status_result id r)
  unfolding Reconciler.status_result
  status_result-Keeps id (err e) = search call_rules
  status_result-Keeps id (ok ChargeStatus.charged) = search (call_rules, mark_result-Keeps)
  status_result-Keeps id (ok ChargeStatus.declined) =
      search (call_rules, fail_order-Keeps, mark_result-Keeps)
  status_result-Keeps id (ok ChargeStatus.not_found) =
      search (call_rules, fail_order-Keeps, mark_result-Keeps)
  status_result-Keeps id (ok ChargeStatus.unknown) = search call_rules

  ask_gateway-Keeps :
      (gateway : StatusReader) (row : StuckCharging) → Keeps R (Reconciler.ask_gateway gateway row)
  unfolding Reconciler.ask_gateway
  ask_gateway-Keeps gateway row = search (call_rules, status_result-Keeps) depth 7

  resolve-Keeps :
      (gateway : StatusReader) (cfg : Reconciler.Config) (row : StuckCharging)
      → Keeps R (Reconciler.resolve gateway cfg row)
  unfolding Reconciler.resolve
  resolve-Keeps gateway cfg row =
      search (call_rules, fail_order-Keeps, mark_result-Keeps, ask_gateway-Keeps) depth 7

  resolve_all-Keeps :
      (gateway : StatusReader) (cfg : Reconciler.Config) (rows : List StuckCharging)
      → Keeps R (Reconciler.resolve_all gateway cfg rows)
  unfolding Reconciler.resolve_all
  resolve_all-Keeps gateway cfg [] = search call_rules
  resolve_all-Keeps gateway cfg (row ∷ rows) =
      let rest : Keeps R
          (Reconciler.resolve gateway cfg row >> Reconciler.resolve_all gateway cfg rows) =
        Keeps-bind L.order _ _ (resolve-Keeps gateway cfg row)
          (λ _. resolve_all-Keeps gateway cfg rows) in
      Keeps-bind L.order is_cancelled _ (search call_rules)
        (λ stop. unless_cancelled-Keeps L stop _ rest)

  find_result-Keeps :
      (gateway : StatusReader) (cfg : Reconciler.Config) (r : Result (List StuckCharging))
      → Keeps R (Reconciler.find_result gateway cfg r)
  unfolding Reconciler.find_result
  find_result-Keeps gateway cfg (ok rows) = search (call_rules, resolve_all-Keeps)
  find_result-Keeps gateway cfg (err e) = search call_rules

  pub sweep-Keeps :
      (gateway : StatusReader) (cfg : Reconciler.Config) → Keeps R (Reconciler.sweep gateway cfg)
  unfolding Reconciler.sweep
  sweep-Keeps gateway cfg = search (call_rules, find_result-Keeps)
