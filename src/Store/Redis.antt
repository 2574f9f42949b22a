-- ===== src/Store/Redis.antt =====
-- The Redis keys of internal/infrastructure/cache (redis.go, redis_queue.go and the scripts under
-- lua/): `ticket_type_qty:{id}`, the hash `ticket_type_meta:{id}`, `saga:reverted:{id}`, the streams
-- `orders:stream` and `orders:dlq`, the entries that the consumer group has not acknowledged, and the
-- counters `saga:retry:p{partition}:o{offset}` (0 for no key), and the strings
-- `idempotency:{key}`.
--
-- An entry holds the eight fields that the program reads; `none` is a field that is missing or no
-- text. The times to live are not kept: a key that goes is a step of another process.
use booking_monitor.Prelude.{ℕ, Option, List}
use booking_monitor.Prelude.Int.{ℤ}
use booking_monitor.Domain.Currency.{Text}

pub record Metadata : Type 0 where
  pub event_id : Option Text
  pub price_cents : Option Text
  pub currency : Option Text

pub record Values : Type 0 where
  pub order_id : Option Text
  pub user_id : Option Text
  pub event_id : Option Text
  pub quantity : Option Text
  pub reserved_until : Option Text
  pub ticket_type_id : Option Text
  pub amount_cents : Option Text
  pub currency : Option Text

-- `redis.XMessage`. Redis numbers the entries upwards.
pub record Entry : Type 0 where
  pub id : ℕ
  pub values : Values

pub record Redis : Type 0 where
  pub quantity : ℕ → Option ℤ
  pub metadata : ℕ → Metadata
  pub reverted : List ℕ
  pub stream : List Entry
  pub last_entry : ℕ
  pub pending : List ℕ
  pub dlq : List Entry
  pub retries : ℕ → ℕ → ℕ
  pub idempotency_entries : Text → Option Text
