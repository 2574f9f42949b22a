-- ===== src/Payment/Webhook.antt =====
-- internal/application/payment/webhook_service.go and webhook_dto.go: the gateway's callback.
-- `uuid.Parse` is the parameter `parse_uuid`. Log lines are left out.
use booking_monitor.Prelude.{
  ℕ, Bool, true, false, not, ◌&&◌, Option, none, some, [], ◌∷◌, ◌++◌, ltb, ◌==◌, if◌then◌else◌,
}
use booking_monitor.Domain.Status.{
  OrderStatus, awaiting_payment, paid, payment_failed, compensated, expired, same,
}
use booking_monitor.Domain.Errors.{
  Error, Result, ok, err, webhook_unknown_intent, webhook_intent_mismatch,
  webhook_unexpected_status, is_order_not_found, is_invalid_transition, is_reservation_expired,
}
use booking_monitor.Domain.Currency.{Text}
use booking_monitor.Domain.Order.{Order}
use booking_monitor.Application.Events.{
  Detection, service_check, sql_predicate, post_terminal, Reason, late_success_after_expiry,
  payment_failed_reason, new_order_failed_event,
}
use booking_monitor.Application.Metrics.{
  succeeded, failed, unsupported, unexpected_status, persist_failed, cross_env_livemode, not_found,
  webhook_received, webhook_duplicate, webhook_unknown_intent_seen, webhook_mismatch_seen,
  webhook_late_success, webhook_unsupported_type,
}
use booking_monitor.Store.Exec.{M, pure, raise, attempt, emit, ◌>>=◌, ◌>>◌, pool, tx, do_uow, clock}
use booking_monitor.Store.Orders.{
  get_by_id, find_by_payment_intent_id, set_payment_intent_id, mark_paid, mark_expired,
  mark_payment_failed,
}
use booking_monitor.Store.Outbox

pub data IntentEvent : Type 0 where
  intent_succeeded intent_payment_failed other_type : IntentEvent

pub record LastError : Type 0 where
  pub code : Text
  pub message : Text

-- The part of the envelope that the service reads. `order_id_metadata` is the entry of the metadata
-- under the key `order_id`.
pub record Envelope : Type 0 where
  pub event_type : IntentEvent
  pub live_mode : Bool
  pub intent_id : ℕ
  pub order_id_metadata : Option Text
  pub last_payment_error : Option LastError

pub data Source : Type 0 where
  metadata fallback : Source

abbrev pub is_terminal_for_webhook : OrderStatus → Bool
is_terminal_for_webhook paid = true
is_terminal_for_webhook payment_failed = true
is_terminal_for_webhook compensated = true
is_terminal_for_webhook expired = true
is_terminal_for_webhook _ = false

abbrev pub is_failure_terminal_after_pay : OrderStatus → Bool
is_failure_terminal_after_pay expired = true
is_failure_terminal_after_pay payment_failed = true
is_failure_terminal_after_pay compensated = true
is_failure_terminal_after_pay _ = false

-- `formatLastError`: "code: message", or the one of the two that is not empty.
join_error : Text → Text → Text
join_error [] message = message
join_error (c ∷ cs) [] = c ∷ cs
join_error (c ∷ cs) (m ∷ ms) = (c ∷ cs) ++ (b':' ∷ b' ' ∷ m ∷ ms)

unfoldable pub format_last_error : LastError → Text
unfolding join_error
format_last_error e = join_error e.code e.message

-- "unknown"
abbrev unknown_text : Text
unknown_text = b'u' ∷ b'n' ∷ b'k' ∷ b'n' ∷ b'o' ∷ b'w' ∷ b'n' ∷ []

-- Every handler's closure: the transition, then the `order.failed` row.
unfoldable pub emit_failed : Order → Reason → M (Unit {0})
emit_failed order reason = do
  now ← clock
  row ← Outbox.build (new_order_failed_event now order reason)
  Outbox.create tx row

-- `Received("persist_failed")`, and the error to the caller.
unfoldable pub persist_failure : Error → M (Unit {0})
persist_failure e = do emit (webhook_received persist_failed); raise e

-- After `ErrInvalidTransition`: a second read tells a lost race from a bug. `benign` is what the
-- handler counts for a race.
unfoldable pub after_lost_race : Order → Error → (OrderStatus → M (Unit {0})) → M (Unit {0})
after_lost_race order e benign = do
  cur ← get_by_id pool order.id
  if is_terminal_for_webhook cur.status then benign cur.status else persist_failure e

unfoldable pub late_success_result : Order → Result (Unit {0}) → M (Unit {0})
late_success_result order (ok _) = pure tt
late_success_result order (err e) =
    if is_invalid_transition e then after_lost_race order e (λ _. pure tt) else persist_failure e

unfoldable pub late_success_body : Order → ℕ → Detection → M (Unit {0})
late_success_body order intent detected = do
  mark_expired tx order.id
  emit_failed order (late_success_after_expiry intent detected)

unfoldable pub handle_late_success : Order → ℕ → Detection → M (Unit {0})
handle_late_success order intent detected = do
  emit (webhook_late_success detected)
  r ← attempt (do_uow (late_success_body order intent detected))
  late_success_result order r

unfoldable pub success_body : Order → ℕ → M (Unit {0})
success_body order intent = do
  if order.payment_intent_id == 0 then set_payment_intent_id tx order.id intent else pure tt
  mark_paid tx order.id

unfoldable pub success_result : Order → ℕ → Result (Unit {0}) → M (Unit {0})
success_result order intent (ok _) = emit (webhook_received succeeded)
success_result order intent (err e) =
    if is_reservation_expired e
    then handle_late_success order intent sql_predicate
    else if is_invalid_transition e
    then after_lost_race order e (λ s. emit (webhook_duplicate s))
    else persist_failure e

-- The reservation has not run out by the service's clock.
unfoldable pub pay_in_time : Order → ℕ → M (Unit {0})
pay_in_time order intent = do
  r ← attempt (do_uow (success_body order intent))
  success_result order intent r

unfoldable pub handle_success : Order → ℕ → M (Unit {0})
handle_success order intent = do
  now ← clock
  if not (ltb now order.reserved_until)
      then handle_late_success order intent service_check
      else pay_in_time order intent

unfoldable pub failure_body : Order → Text → M (Unit {0})
failure_body order reason = do
  mark_payment_failed tx order.id
  emit_failed order (payment_failed_reason reason)

unfoldable pub failure_result : Order → Result (Unit {0}) → M (Unit {0})
failure_result order (ok _) = emit (webhook_received failed)
failure_result order (err e) =
    if is_invalid_transition e
    then after_lost_race order e (λ s. emit (webhook_duplicate s))
    else persist_failure e

unfoldable pub handle_failure : Order → Text → M (Unit {0})
handle_failure order reason = do
  r ← attempt (do_uow (failure_body order reason))
  failure_result order r

-- `switch env.Type`.
unfoldable pub dispatch : IntentEvent → Envelope → Order → M (Unit {0})
dispatch intent_succeeded env order = handle_success order env.intent_id
dispatch intent_payment_failed env order =
    handle_failure order
      (elim env.last_payment_error [ none ↦ unknown_text | some e ↦ format_last_error e ])
dispatch other_type env order = do
  emit webhook_unsupported_type
  emit (webhook_received unsupported)

-- The fallback lookup by intent id, once it has answered.
unfoldable pub fallback_result : Result Order → M (ℕ × Source)
fallback_result (ok o) = pure (o.id, fallback)
fallback_result (err e) =
    if is_order_not_found e
    then (do emit (webhook_unknown_intent_seen not_found); raise webhook_unknown_intent)
    else raise e

unfoldable pub resolve_by_intent : ℕ → M (ℕ × Source)
resolve_by_intent intent = do r ← attempt (find_by_payment_intent_id pool intent); fallback_result r

abbrev is_succeeded : IntentEvent → Bool
is_succeeded intent_succeeded = true
is_succeeded _ = false

abbrev is_metadata : Source → Bool
is_metadata metadata = true
is_metadata fallback = false

-- Go's `!=` on two truth values.
abbrev differs : Bool → Bool → Bool
differs true b = not b
differs false b = b

-- The steps after the order is loaded.
unfoldable pub route : Envelope → Source → Order → M (Unit {0})
route env source order =
    if (is_metadata source
      && not (order.payment_intent_id == 0)
      && not (order.payment_intent_id == env.intent_id))
    then (do emit webhook_mismatch_seen; raise webhook_intent_mismatch)
    else if is_terminal_for_webhook order.status
    then if (is_succeeded env.event_type && is_failure_terminal_after_pay order.status)
      then handle_late_success order env.intent_id post_terminal
      else emit (webhook_duplicate order.status)
    else if not (same order.status awaiting_payment)
    then (do emit (webhook_received unexpected_status); raise webhook_unexpected_status)
    else dispatch env.event_type env order

module _ (parse_uuid : Text → Option ℕ) where
  unfoldable pub parsed_metadata : Option Text → Option ℕ
  parsed_metadata none = none
  parsed_metadata (some raw) = elim (parse_uuid raw) [
    | none ↦ none
    | some id ↦ if id == 0 then none else some id
  ]

  unfoldable pub resolve_order_id : Envelope → M (ℕ × Source)
  resolve_order_id env = elim (parsed_metadata env.order_id_metadata) [
    | some id ↦ pure (id, metadata)
    | none ↦ resolve_by_intent env.intent_id
  ]

  unfoldable pub handle_webhook : Bool → Envelope → M (Unit {0})
  handle_webhook expected_live_mode env =
      if differs env.live_mode expected_live_mode
      then emit (webhook_unknown_intent_seen cross_env_livemode)
      else do
        (order_id, source) ← resolve_order_id env
        order ← get_by_id pool order_id
        route env source order
