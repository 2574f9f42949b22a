-- ===== src/Http/Replay.antt =====
-- A second request with the same key through internal/infrastructure/api/middleware/idempotency.go.
use booking_monitor.Prelude.{ℕ, ◌≡◌, ◌⊎◌, true, false, []}
use booking_monitor.Domain.Errors.{Result, ok}
use booking_monitor.Domain.Currency.{Text, same_text}
use booking_monitor.Domain.TicketType.{is_empty}
use booking_monitor.Store.Redis.{Redis}
use booking_monitor.Store.Exec.{Schedule, done}
use booking_monitor.Http.Idempotency.{Response, IdempotencyRecord, Codec}

-- JSON gives a record back, and the hash of a body is not the empty text.
pub record IsSound (codec : Codec) : Type 0 where
  pub writes : (entry : IdempotencyRecord) → (text : Text) × (codec.marshal entry ≡ ok text)
  pub reads :
      (entry : IdempotencyRecord) (text : Text)
      → codec.marshal entry ≡ ok text
      → codec.unmarshal text ≡ ok entry
  pub hashes : (body : Text) → is_empty (codec.sha256_hex body) ≡ false

-- Redis answers, and no other process touches the key.
pub record Owns (key : Text) (s : Schedule) : Type 0 where
  pub answered : (n : ℕ) → (s n).outcome ≡ done
  pub own :
      (n : ℕ) (c : Redis)
      → ((s n).interferes_cache c).idempotency_entries key ≡ c.idempotency_entries key

abbrev pub entry_of : Codec → Text → Response → IdempotencyRecord
entry_of codec body r = record {
  status_code = r.status;
  body = r.body;
  fingerprint = codec.sha256_hex body;
}

-- The answer to a request whose hash is `fp`, where the entry has the hash `kept`.
abbrev pub Repeated : Text → Text → ℕ → Text → Result Response → Type 0
Repeated kept fp status body answer =
    ((same_text kept fp ≡ true)
      × (answer ≡ ok (record { status = status; body = body; replayed = true })))
    ⊎ ((same_text kept fp ≡ false)
        × (answer ≡ ok (record { status = 409; body = []; replayed = false })))
