-- ===== src/Http/Idempotency.antt =====
-- internal/infrastructure/api/middleware/idempotency.go, and its store in
-- internal/infrastructure/cache/idempotency.go.
--
-- The hash of a body and the JSON of an entry are parameters. The texts of the error bodies are not
-- kept. A handler is an action on the body; what it answers is the response.
use booking_monitor.Prelude.{
  ℕ, Bool, true, false, Option, none, some, [], ◌∷◌, not, ◌&&◌, ◌||◌, leb, ltb, length,
  if◌then◌else◌,
}
use booking_monitor.Domain.Errors.{Result, ok, err}
use booking_monitor.Domain.Currency.{Text, same_text}
use booking_monitor.Domain.TicketType.{is_empty}
use booking_monitor.Application.Metrics.{idempotency_replay, legacy_match, matched, mismatch}
use booking_monitor.Store.Redis.{Redis}
use booking_monitor.Store.Exec.{M, pure, attempt, of_result, emit, ◌>>=◌, ◌>>◌, run_script}

pub record Response : Type 0 where
  pub status : ℕ
  pub body : Text
  pub replayed : Bool

-- What `GetRawData` gives: the body, or one of two errors.
pub data Body : Type 0 where
  read : Text → Body
  too_large unreadable : Body

-- `key` is empty where the header is missing.
pub record Request : Type 0 where
  pub key : Text
  pub body : Body

-- `idempotencyRecord`, whose first two fields are the `domain.IdempotencyResult`.
pub record IdempotencyRecord : Type 0 where
  pub status_code : ℕ
  pub body : Text
  pub fingerprint : Text

pub record Codec : Type 0 where
  pub marshal : IdempotencyRecord → Result Text
  pub unmarshal : Text → Result IdempotencyRecord
  pub sha256_hex : Text → Text

abbrev parsed : Codec → Option Text → M (Option IdempotencyRecord)
parsed codec none = pure none
parsed codec (some text) = of_result (codec.unmarshal text) >>= λ entry. pure (some entry)

unfoldable pub get : Codec → Text → M (Option IdempotencyRecord)
get codec key = run_script (λ c. (ok (c.idempotency_entries key), c)) >>= parsed codec

unfoldable pub put : Text → Text → Redis → Redis
put key value c = record c {
  idempotency_entries = λ k. if same_text k key then some value else c.idempotency_entries k;
}

unfoldable pub set : Codec → Text → IdempotencyRecord → M (Unit {0})
unfolding put
set codec key entry =
    of_result (codec.marshal entry) >>= λ data_text. run_script (λ c. (ok tt, put key data_text c))

abbrev pub max_idempotency_key_len : ℕ
max_idempotency_key_len = 128

are_printable : Text → Bool
are_printable [] = true
are_printable (b ∷ bs) = leb 32 b && leb b 126 && are_printable bs

unfoldable pub is_valid_idempotency_key : Text → Bool
unfolding are_printable
is_valid_idempotency_key key = leb (length key) max_idempotency_key_len && are_printable key

unfoldable pub should_cache_status : ℕ → Bool
should_cache_status status = leb 200 status && ltb status 300

abbrev pub refusal : ℕ → M Response
refusal status = pure (record { status = status; body = []; replayed = false })

unfoldable pub replay_cached : IdempotencyRecord → M Response
replay_cached entry =
    pure (record { status = entry.status_code; body = entry.body; replayed = true })

abbrev pub Handler : Type 0
Handler = Body → M Response

-- A cached entry: one without a fingerprint is given it, one with another is a conflict.
unfoldable pub cached : Codec → Text → Text → IdempotencyRecord → M Response
cached codec key fp entry =
    if is_empty entry.fingerprint
    then (emit (idempotency_replay legacy_match)
        >> attempt (set codec key (record entry { fingerprint = fp }))
        >> replay_cached entry)
    else if same_text entry.fingerprint fp
    then (emit (idempotency_replay matched) >> replay_cached entry)
    else (emit (idempotency_replay mismatch) >> refusal 409)

-- After the handler: only a 2xx answer is kept, and none where the lookup has failed.
unfoldable pub keep : Codec → Text → Text → Bool → Response → M Response
keep codec key fp get_failed response =
    if not (should_cache_status response.status) || get_failed
    then pure response
    else (attempt (
          set codec key
            (record { status_code = response.status; body = response.body; fingerprint = fp }))
        >> pure response)

unfoldable pub run_handler : Codec → Handler → Text → Text → Bool → M Response
run_handler codec next key body get_failed =
    next (read body) >>= keep codec key (codec.sha256_hex body) get_failed

unfoldable pub looked_up :
    Codec → Handler → Text → Text → Result (Option IdempotencyRecord) → M Response
looked_up codec next key body (ok none) = run_handler codec next key body false
looked_up codec next key body (ok (some entry)) = cached codec key (codec.sha256_hex body) entry
looked_up codec next key body (err e) = run_handler codec next key body true

unfoldable pub with_body : Codec → Handler → Text → Body → M Response
with_body codec next key (read body) = attempt (get codec key) >>= looked_up codec next key body
with_body codec next key too_large = refusal 413
with_body codec next key unreadable = refusal 400

unfoldable pub idempotency : Codec → Handler → Request → M Response
idempotency codec next request =
    if is_empty request.key
    then next request.body
    else if not (is_valid_idempotency_key request.key)
    then refusal 400
    else with_body codec next request.key request.body
