-- ===== src/Settings.antt =====
-- internal/infrastructure/config/config.go: `Validate`, on the fields that it reads. A problem stands for
-- the text of its line in the message. A duration is a number of nanoseconds; `strings.TrimSpace` and
-- `strings.ToLower` are parameters.
pub mod Sound
use booking_monitor.Prelude.{
  ℕ, Bool, true, false, not, ◌&&◌, ◌||◌, List, [], ◌∷◌, ◌++◌, ltb, length, if◌then◌else◌,
}
use booking_monitor.Prelude.Int.{ℤ, pos, nonpositive, leb_ℤ, ltb_ℤ}
use booking_monitor.Domain.Currency.{Text, same_text}
use booking_monitor.Domain.TicketType.{is_empty}

pub record Strings : Type 0 where
  pub trim_space : Text → Text
  pub to_lower : Text → Text

pub record StripeConfig : Type 0 where
  pub api_key : Text
  pub webhook_secret : Text
  pub allow_test_key : Bool

pub record PaymentConfig : Type 0 where
  pub provider : Text
  pub webhook_secret : Text
  pub stripe : StripeConfig

pub record WorkerConfig : Type 0 where
  pub max_retries : ℤ
  pub retry_base_delay : ℤ
  pub stream_read_count : ℤ
  pub stream_block_timeout : ℤ
  pub failure_timeout : ℤ
  pub pending_block_timeout : ℤ
  pub read_error_backoff : ℤ

pub record ReconConfig : Type 0 where
  pub sweep_interval : ℤ
  pub charging_threshold : ℤ
  pub gateway_timeout : ℤ
  pub max_charging_age : ℤ
  pub batch_size : ℤ

pub record SagaConfig : Type 0 where
  pub watchdog_interval : ℤ
  pub stuck_threshold : ℤ
  pub max_failed_age : ℤ
  pub batch_size : ℤ

pub record Config : Type 0 where
  pub env : Text
  pub dsn : Text
  pub port : Text
  pub enable_test_endpoints : Bool
  pub redis_addr : Text
  pub kafka_brokers : List Text
  pub max_consecutive_read_errors : ℤ
  pub dlq_retention : ℤ
  pub payment : PaymentConfig
  pub worker : WorkerConfig
  pub recon : ReconConfig
  pub saga : SagaConfig
  pub drift_sweep_interval : ℤ
  pub drift_absolute_tolerance : ℤ
  pub jwt_secret : Text
  pub jwt_max_ttl : ℤ

pub data Problem : Type 0 where
  no_dsn no_port localhost_redis localhost_kafka test_endpoints mock_provider : Problem
  unknown_provider stray_credentials no_api_key test_key publishable_key no_webhook_secret : Problem
  bad_max_retries bad_retry_base_delay bad_stream_read_count bad_stream_block_timeout : Problem
  bad_failure_timeout bad_pending_block_timeout bad_read_error_backoff : Problem
  bad_max_consecutive_read_errors bad_dlq_retention : Problem
  bad_recon_sweep_interval bad_charging_threshold bad_gateway_timeout bad_max_charging_age : Problem
  bad_recon_batch_size charging_age_below_threshold : Problem
  bad_watchdog_interval bad_stuck_threshold bad_max_failed_age bad_saga_batch_size : Problem
  failed_age_below_threshold bad_drift_sweep_interval bad_drift_tolerance : Problem
  no_jwt_secret short_jwt_secret bad_jwt_max_ttl : Problem

abbrev pub production : Text
production = b'p' ∷ b'r' ∷ b'o' ∷ b'd' ∷ b'u' ∷ b'c' ∷ b't' ∷ b'i' ∷ b'o' ∷ b'n' ∷ []

abbrev pub mock : Text
mock = b'm' ∷ b'o' ∷ b'c' ∷ b'k' ∷ []

abbrev pub stripe : Text
stripe = b's' ∷ b't' ∷ b'r' ∷ b'i' ∷ b'p' ∷ b'e' ∷ []

abbrev pub sk_test : Text
sk_test = b's' ∷ b'k' ∷ b'_' ∷ b't' ∷ b'e' ∷ b's' ∷ b't' ∷ b'_' ∷ []

abbrev pub rk_test : Text
rk_test = b'r' ∷ b'k' ∷ b'_' ∷ b't' ∷ b'e' ∷ b's' ∷ b't' ∷ b'_' ∷ []

abbrev pub pk_test : Text
pk_test = b'p' ∷ b'k' ∷ b'_' ∷ b't' ∷ b'e' ∷ b's' ∷ b't' ∷ b'_' ∷ []

abbrev pub pk_live : Text
pk_live = b'p' ∷ b'k' ∷ b'_' ∷ b'l' ∷ b'i' ∷ b'v' ∷ b'e' ∷ b'_' ∷ []

abbrev pub local_redis : Text
local_redis =
    b'l' ∷ b'o' ∷ b'c' ∷ b'a' ∷ b'l' ∷ b'h' ∷ b'o' ∷ b's' ∷ b't' ∷ b':' ∷ b'6' ∷ b'3' ∷ b'7' ∷ b'9'
    ∷ []

abbrev pub local_kafka : Text
local_kafka =
    b'l' ∷ b'o' ∷ b'c' ∷ b'a' ∷ b'l' ∷ b'h' ∷ b'o' ∷ b's' ∷ b't' ∷ b':' ∷ b'9' ∷ b'0' ∷ b'9' ∷ b'2'
    ∷ []

unfoldable pub has_prefix : Text → Text → Bool
has_prefix s [] = true
has_prefix [] (p ∷ ps) = false
has_prefix (c ∷ cs) (p ∷ ps) = same_text (c ∷ []) (p ∷ []) && has_prefix cs ps

-- `normalizedAppEnv(env) == "production"`.
unfoldable pub is_production : Strings → Text → Bool
is_production str env =
    let e : Text = str.to_lower (str.trim_space env) in is_empty e || same_text e production

unfoldable pub is_localhost_brokers : Strings → List Text → Bool
is_localhost_brokers str (broker ∷ []) = same_text (str.trim_space broker) local_kafka
is_localhost_brokers str _ = false

-- What is appended to `missing`, part by part.
unfoldable pub flatten : List (List Problem) → List Problem
flatten [] = []
flatten (part ∷ parts) = part ++ flatten parts

-- `if bad { missing = append(missing, problem) }`.
abbrev pub when : Bool → Problem → List Problem
when true problem = problem ∷ []
when false problem = []

unfoldable pub production_problems : Strings → Config → List Problem
unfolding is_localhost_brokers
production_problems str c =
    if not (is_production str c.env)
    then []
    else flatten (
        (when (same_text (str.trim_space c.redis_addr) local_redis) localhost_redis)
        ∷ when (is_localhost_brokers str c.kafka_brokers) localhost_kafka
        ∷ when c.enable_test_endpoints test_endpoints
        ∷ when (same_text c.payment.provider mock || is_empty c.payment.provider) mock_provider
        ∷ [])

unfoldable pub stripe_problems : Strings → Config → List Problem
stripe_problems str c =
    if not (same_text c.payment.provider stripe)
    then []
    else flatten (
        (if is_empty c.payment.stripe.api_key
          then no_api_key ∷ []
          else (when
                (is_production str c.env
                  && (has_prefix c.payment.stripe.api_key sk_test
                      || has_prefix c.payment.stripe.api_key rk_test
                      || has_prefix c.payment.stripe.api_key pk_test)
                  && not c.payment.stripe.allow_test_key)
                test_key
              ++ when (is_production str c.env && has_prefix c.payment.stripe.api_key pk_live)
                  publishable_key))
        ∷ when (is_empty c.payment.stripe.webhook_secret && is_empty c.payment.webhook_secret)
            no_webhook_secret
        ∷ [])

unfoldable pub provider_problems : Config → List Problem
provider_problems c = flatten (
    when
      (not (
        same_text c.payment.provider mock
        || same_text c.payment.provider stripe
        || is_empty c.payment.provider))
      unknown_provider
    ∷ when
        ((same_text c.payment.provider mock || is_empty c.payment.provider)
          && (not (is_empty c.payment.stripe.api_key)
              || not (is_empty c.payment.stripe.webhook_secret)))
        stray_credentials
    ∷ [])

unfoldable pub worker_problems : WorkerConfig → List Problem
worker_problems c = flatten (
    (when (nonpositive c.max_retries) bad_max_retries)
    ∷ (when (nonpositive c.retry_base_delay) bad_retry_base_delay)
    ∷ (when (nonpositive c.stream_read_count) bad_stream_read_count)
    ∷ (when (nonpositive c.stream_block_timeout) bad_stream_block_timeout)
    ∷ (when (nonpositive c.failure_timeout) bad_failure_timeout)
    ∷ (when (nonpositive c.pending_block_timeout) bad_pending_block_timeout)
    ∷ (when (nonpositive c.read_error_backoff) bad_read_error_backoff)
    ∷ [])

unfoldable pub recon_problems : ReconConfig → List Problem
recon_problems c = flatten (
    (when (nonpositive c.sweep_interval) bad_recon_sweep_interval)
    ∷ (when (nonpositive c.charging_threshold) bad_charging_threshold)
    ∷ (when (nonpositive c.gateway_timeout) bad_gateway_timeout)
    ∷ (when (nonpositive c.max_charging_age) bad_max_charging_age)
    ∷ (when (nonpositive c.batch_size) bad_recon_batch_size)
    ∷ (when
        (not (nonpositive c.max_charging_age)
          && not (nonpositive c.charging_threshold)
          && leb_ℤ c.max_charging_age c.charging_threshold)
        charging_age_below_threshold)
    ∷ [])

unfoldable pub saga_problems : SagaConfig → List Problem
saga_problems c = flatten (
    (when (nonpositive c.watchdog_interval) bad_watchdog_interval)
    ∷ (when (nonpositive c.stuck_threshold) bad_stuck_threshold)
    ∷ (when (nonpositive c.max_failed_age) bad_max_failed_age)
    ∷ (when (nonpositive c.batch_size) bad_saga_batch_size)
    ∷ (when
        (not (nonpositive c.max_failed_age)
          && not (nonpositive c.stuck_threshold)
          && leb_ℤ c.max_failed_age c.stuck_threshold)
        failed_age_below_threshold)
    ∷ [])

unfoldable pub admin_problems : Strings → Config → List Problem
admin_problems str c = flatten (
    when (is_production str c.env && is_empty c.jwt_secret) no_jwt_secret
    ∷ when (not (is_empty c.jwt_secret) && ltb (length c.jwt_secret) 32) short_jwt_secret
    ∷ when (not (is_empty c.jwt_secret) && nonpositive c.jwt_max_ttl) bad_jwt_max_ttl
    ∷ [])

-- The problems in their order; the configuration is refused where there is one.
unfoldable pub validate : Strings → Config → List Problem
validate str c = flatten (
    when (is_empty (str.trim_space c.dsn)) no_dsn
    ∷ when (is_empty (str.trim_space c.port)) no_port
    ∷ production_problems str c
    ∷ provider_problems c
    ∷ stripe_problems str c
    ∷ worker_problems c.worker
    ∷ when (nonpositive c.max_consecutive_read_errors) bad_max_consecutive_read_errors
    ∷ when (nonpositive c.dlq_retention) bad_dlq_retention
    ∷ recon_problems c.recon
    ∷ saga_problems c.saga
    ∷ when (nonpositive c.drift_sweep_interval) bad_drift_sweep_interval
    ∷ when (ltb_ℤ c.drift_absolute_tolerance (pos 0)) bad_drift_tolerance
    ∷ admin_problems str c
    ∷ [])
