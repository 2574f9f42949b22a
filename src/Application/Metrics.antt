-- ===== src/Application/Metrics.antt =====
-- The counters and gauges that the modelled services set, with their labels. Histograms
-- of durations are left out. `published_order_created` is the message on the admin bus, and
-- `offset_committed` the commit of an offset of a Kafka partition.
use booking_monitor.Prelude.{ℕ, Bool}
use booking_monitor.Domain.Status.{OrderStatus}
use booking_monitor.Domain.Errors.{Step}
use booking_monitor.Application.Events.{Detection}

-- `WebhookMetrics.Received(result)`.
pub data WebhookResult : Type 0 where
  succeeded failed unsupported unexpected_status persist_failed : WebhookResult

-- `WebhookMetrics.UnknownIntent(reason)`.
pub data UnknownReason : Type 0 where
  cross_env_livemode not_found : UnknownReason

-- The outcomes of internal/application/expiry/metrics.go.
pub data ExpiryOutcome : Type 0 where
  expired expired_overaged already_terminal : ExpiryOutcome
  getbyid_error marshal_error transition_error outbox_error : ExpiryOutcome

-- The outcomes that `HandleOrderFailed` records.
pub data SagaOutcome : Type 0 where
  unmarshal_error : SagaOutcome
  step_error : Step → SagaOutcome
  context_error uow_infra_error : SagaOutcome
  already_compensated path_c_skipped compensated : SagaOutcome
  redis_revert_error already_compensated_redis_error : SagaOutcome
  compensated_redis_mark_failed already_compensated_redis_mark_failed : SagaOutcome

-- The `dlqReason…` labels of internal/infrastructure/cache/redis_queue.go.
pub data DlqReason : Type 0 where
  malformed_classified exhausted_retries : DlqReason
  malformed_reverted_legacy malformed_unrecoverable : DlqReason

-- The outcomes of internal/application/recon/metrics.go, and its other counters.
pub data ReconOutcome : Type 0 where
  charged declined not_found unknown max_age_exceeded transition_lost : ReconOutcome

-- The outcomes of the watchdog in internal/application/saga/metrics.go.
pub data WatchdogOutcome : Type 0 where
  max_age_exceeded getbyid_error already_compensated compensator_error compensated : WatchdogOutcome

-- The labels of `DriftMetrics.IncDriftDetected`.
pub data Direction : Type 0 where
  cache_missing cache_high cache_low_excess : Direction

-- The labels of `IdempotencyReplaysTotal`.
pub data Replay : Type 0 where
  legacy_match matched mismatch : Replay

pub data Metric : Type 0 where
  webhook_received : WebhookResult → Metric
  webhook_duplicate : OrderStatus → Metric
  webhook_unknown_intent_seen : UnknownReason → Metric
  webhook_mismatch_seen : Metric
  webhook_late_success : Detection → Metric
  webhook_unsupported_type : Metric
  expiry_resolved : ExpiryOutcome → Metric
  expiry_max_age_exceeded expiry_find_expired_error : Metric
  saga_processed : SagaOutcome → Metric
  saga_was_reverted_error saga_mark_reverted_error : Metric
  rollback_failure : Metric
  expiry_backlog : ℕ → ℕ → Metric
  published_order_created : ℕ → Metric
  recon_resolved : ReconOutcome → Metric
  stuck_charging_orders : ℕ → Metric
  recon_find_stuck_error null_intent_id_skipped gateway_error mark_error : Metric
  watchdog_resolved : WatchdogOutcome → Metric
  stuck_failed_orders : ℕ → Metric
  watchdog_find_stuck_error : Metric
  publish_failure : Bool → Metric
  dlq_routed : DlqReason → Metric
  revert_failure xack_failure xadd_failure : Metric
  pel_recovery_failure consumer_group_recreated : Metric
  drifted_events : ℕ → Metric
  drift_detected : Direction → Metric
  list_events_error cache_read_error auto_rehydrated auto_rehydrate_error : Metric
  offset_committed : ℕ → ℕ → Metric
  intake_revert_failure inventory_rehydrate_drift kafka_consumer_retry saga_poison_message
        saga_dlq_message :
      Metric
  saga_consumer_lag : ℕ → Metric
  idempotency_replay : Replay → Metric
