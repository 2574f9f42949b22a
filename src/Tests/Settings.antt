-- ===== src/Tests/Settings.antt =====
-- A configuration for production that is accepted.
use booking_monitor.Prelude.{◌≡◌, refl, false, [], ◌∷◌, ◌++◌}
use booking_monitor.Prelude.Int.{pos}
use booking_monitor.Domain.Currency.{Text, same_text}
use booking_monitor.Settings.{
  Strings, Config, production, stripe, has_prefix, is_production, is_localhost_brokers, flatten,
  production_problems, provider_problems, stripe_problems, worker_problems, recon_problems,
  saga_problems, admin_problems, validate,
}
use booking_monitor.Settings.Sound.{IsSound, validate-IsSound}

abbrev plain : Strings
plain = record { trim_space = λ text. text; to_lower = λ text. text }

-- Sixteen bytes.
abbrev half_secret : Text
half_secret =
    b'0' ∷ b'1' ∷ b'2' ∷ b'3' ∷ b'4' ∷ b'5' ∷ b'6' ∷ b'7' ∷ b'8' ∷ b'9' ∷ b'a' ∷ b'b' ∷ b'c' ∷ b'd'
    ∷ b'e' ∷ b'f' ∷ []

abbrev in_production : Config
in_production = record {
  env = production;
  dsn = b'd' ∷ [];
  port = b'8' ∷ [];
  enable_test_endpoints = false;
  redis_addr = b'r' ∷ [];
  kafka_brokers = (b'k' ∷ []) ∷ [];
  max_consecutive_read_errors = pos 30;
  dlq_retention = pos 720;
  payment = record {
    provider = stripe;
    webhook_secret = [];
    stripe = record {
      api_key = b's' ∷ b'k' ∷ b'_' ∷ b'l' ∷ b'i' ∷ b'v' ∷ b'e' ∷ b'_' ∷ [];
      webhook_secret = b'w' ∷ [];
      allow_test_key = false;
    };
  };
  worker = record {
    max_retries = pos 3;
    retry_base_delay = pos 100;
    stream_read_count = pos 10;
    stream_block_timeout = pos 2000;
    failure_timeout = pos 5000;
    pending_block_timeout = pos 100;
    read_error_backoff = pos 1000;
  };
  recon = record {
    sweep_interval = pos 120;
    charging_threshold = pos 120;
    gateway_timeout = pos 10;
    max_charging_age = pos 86400;
    batch_size = pos 100;
  };
  saga = record {
    watchdog_interval = pos 60;
    stuck_threshold = pos 60;
    max_failed_age = pos 86400;
    batch_size = pos 100;
  };
  drift_sweep_interval = pos 60;
  drift_absolute_tolerance = pos 100;
  jwt_secret = half_secret ++ half_secret;
  jwt_max_ttl = pos 3600;
}

accepted : validate plain in_production ≡ []
unfolding validate flatten production_problems provider_problems stripe_problems worker_problems
    recon_problems saga_problems admin_problems is_production is_localhost_brokers has_prefix
    same_text
accepted = refl

validate-IsSound_example : IsSound plain in_production
validate-IsSound_example = validate-IsSound plain in_production accepted
