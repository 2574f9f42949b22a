-- ===== src/Payment/Evolution.antt =====
-- The calls of internal/application/payment, one lemma for each function of the model.
use booking_monitor.Prelude.{ℕ, Bool, Option, inl, inr, Option-cases}
use booking_monitor.Domain.Errors.{Error, Result, ok, err}
use booking_monitor.Domain.Status.{OrderStatus}
use booking_monitor.Domain.Order.{Order}
use booking_monitor.Domain.Currency.{Text}
use booking_monitor.Application.Events.{Detection, Reason}
use booking_monitor.Store.Db.{Db}
use booking_monitor.Store.Exec.{M}
use booking_monitor.Store.Keeps.{Keeps}
use booking_monitor.Store.Calls.{Laws, call_rules}
use booking_monitor.Payment.Service.{Gateway, charge, create_payment_intent}
use booking_monitor.Payment.Webhook

module _ {R : Db → Db → Type 0} (L : Laws R) where
  emit_failed-Keeps : (o : Order) (r : Reason) → Keeps R (Webhook.emit_failed o r)
  unfolding Webhook.emit_failed
  emit_failed-Keeps o r = search call_rules

  persist_failure-Keeps : (e : Error) → Keeps R (Webhook.persist_failure e)
  unfolding Webhook.persist_failure
  persist_failure-Keeps e = search call_rules

  after_lost_race-Keeps :
      (o : Order) (e : Error) (f : OrderStatus → M (Unit {0}))
      → ((t : OrderStatus) → Keeps R (f t))
      → Keeps R (Webhook.after_lost_race o e f)
  unfolding Webhook.after_lost_race
  after_lost_race-Keeps o e f h = search (call_rules, persist_failure-Keeps)

  late_success_result-Keeps :
      (o : Order) (r : Result (Unit {0})) → Keeps R (Webhook.late_success_result o r)
  unfolding Webhook.late_success_result
  late_success_result-Keeps o (ok _) = search call_rules
  late_success_result-Keeps o (err e) =
      search (call_rules, after_lost_race-Keeps, persist_failure-Keeps)

  late_success_body-Keeps :
      (o : Order) (i : ℕ) (t : Detection) → Keeps R (Webhook.late_success_body o i t)
  unfolding Webhook.late_success_body
  late_success_body-Keeps o i t = search (call_rules, emit_failed-Keeps)

  handle_late_success-Keeps :
      (o : Order) (i : ℕ) (t : Detection) → Keeps R (Webhook.handle_late_success o i t)
  unfolding Webhook.handle_late_success
  handle_late_success-Keeps o i t =
      search (call_rules, late_success_body-Keeps, late_success_result-Keeps) depth 8

  success_body-Keeps : (o : Order) (i : ℕ) → Keeps R (Webhook.success_body o i)
  unfolding Webhook.success_body
  success_body-Keeps o i = search call_rules

  success_result-Keeps :
      (o : Order) (i : ℕ) (r : Result (Unit {0})) → Keeps R (Webhook.success_result o i r)
  unfolding Webhook.success_result
  success_result-Keeps o i (ok _) = search call_rules
  success_result-Keeps o i (err e) =
      search (call_rules, handle_late_success-Keeps, after_lost_race-Keeps, persist_failure-Keeps)
        depth 7

  handle_success-Keeps : (o : Order) (i : ℕ) → Keeps R (Webhook.handle_success o i)
  unfolding Webhook.handle_success Webhook.pay_in_time
  handle_success-Keeps o i =
      search (call_rules, handle_late_success-Keeps, success_body-Keeps, success_result-Keeps) depth
        9

  failure_body-Keeps : (o : Order) (t : Text) → Keeps R (Webhook.failure_body o t)
  unfolding Webhook.failure_body
  failure_body-Keeps o t = search (call_rules, emit_failed-Keeps)

  failure_result-Keeps : (o : Order) (r : Result (Unit {0})) → Keeps R (Webhook.failure_result o r)
  unfolding Webhook.failure_result
  failure_result-Keeps o (ok _) = search call_rules
  failure_result-Keeps o (err e) = search (call_rules, after_lost_race-Keeps, persist_failure-Keeps)

  handle_failure-Keeps : (o : Order) (t : Text) → Keeps R (Webhook.handle_failure o t)
  unfolding Webhook.handle_failure
  handle_failure-Keeps o t = search (call_rules, failure_body-Keeps, failure_result-Keeps) depth 8

  dispatch-Keeps :
      (t : Webhook.IntentEvent) (env : Webhook.Envelope) (o : Order)
      → Keeps R (Webhook.dispatch t env o)
  unfolding Webhook.dispatch
  dispatch-Keeps Webhook.IntentEvent.intent_succeeded env o = handle_success-Keeps o env.intent_id
  dispatch-Keeps Webhook.IntentEvent.intent_payment_failed env o = handle_failure-Keeps o _
  dispatch-Keeps Webhook.IntentEvent.other_type env o = search call_rules

  route-Keeps :
      (env : Webhook.Envelope) (s : Webhook.Source) (o : Order) → Keeps R (Webhook.route env s o)
  unfolding Webhook.route
  route-Keeps env s o = search (call_rules, handle_late_success-Keeps, dispatch-Keeps) depth 10

  fallback_result-Keeps : (r : Result Order) → Keeps R (Webhook.fallback_result r)
  unfolding Webhook.fallback_result
  fallback_result-Keeps (ok o) = search call_rules
  fallback_result-Keeps (err e) = search call_rules

  resolve_by_intent-Keeps : (i : ℕ) → Keeps R (Webhook.resolve_by_intent i)
  unfolding Webhook.resolve_by_intent
  resolve_by_intent-Keeps i = search (call_rules, fallback_result-Keeps)

  resolve_order_id-Keeps :
      (parse : Text → Option ℕ) (env : Webhook.Envelope)
      → Keeps R (Webhook.resolve_order_id parse env)
  unfolding Webhook.resolve_order_id
  resolve_order_id-Keeps parse env =
      elim (Option-cases (Webhook.parsed_metadata parse env.order_id_metadata)) [
        | inl none' ↦ rw (none', Webhook.resolve_order_id) (resolve_by_intent-Keeps env.intent_id)
        | inr (id, some') ↦ rw (some', Webhook.resolve_order_id) (search call_rules)
      ]

  pub handle_webhook-Keeps :
      (parse : Text → Option ℕ) (live : Bool) (env : Webhook.Envelope)
      → Keeps R (Webhook.handle_webhook parse live env)
  unfolding Webhook.handle_webhook
  handle_webhook-Keeps parse live env =
      search (call_rules, resolve_order_id-Keeps, route-Keeps) depth 9

  charge-Keeps : (g : Gateway) (o : Order) → Keeps R (charge g o)
  unfolding charge
  charge-Keeps g o = search call_rules

  pub create_payment_intent-Keeps : (g : Gateway) (id : ℕ) → Keeps R (create_payment_intent g id)
  unfolding create_payment_intent
  create_payment_intent-Keeps g id = search (call_rules, charge-Keeps) depth 12
