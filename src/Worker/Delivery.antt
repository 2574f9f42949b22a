-- ===== src/Worker/Delivery.antt =====
-- The consumer of internal/infrastructure/cache/redis_queue.go with the handler of
-- internal/application/worker/message_processor.go.
use booking_monitor.Prelude.{◌≡◌, refl, ℕ, suc, ◌⊎◌, Bool, subst, sym}
use booking_monitor.Domain.Errors.{Error, Result, ok, err}
use booking_monitor.Domain.Currency.{Text}
use booking_monitor.Store.Redis.{Redis, Entry}
use booking_monitor.Store.Exec.{Schedule, World}
use booking_monitor.Store.Triples.{Triple}
use booking_monitor.Cache.Deduct.{Formats}
use booking_monitor.Cache.Given.{Later, now}
use booking_monitor.Worker.Processor.{Message, process}
use booking_monitor.Worker.Wire.{parse_message}
use booking_monitor.Worker.Queue.{Consumer, process_entry}
use booking_monitor.Worker.Compensation.{LeavesAlone, Held, Accounted, Then}
use booking_monitor.Worker.Settled.{process_entry-Triple}
use booking_monitor.Worker.Stored.{Stored, process-Stored, process-Spares}

-- The worker's consumer: `Process` under a retry policy.
abbrev pub worker : Formats → (Text → Text) → (Error → Bool) → ℕ → Consumer
worker fmt lower policy retries = record {
  formats = fmt;
  handler = process lower;
  retry_policy = policy;
  max_retries = retries;
}

process-Triple :
    (s : Schedule) (lower : Text → Text) (m : Message) (P : Redis → Type 0)
    → Triple s (λ c d. P c) (process lower m) (Then (λ c d. P c) (λ c d. Stored m d))
process-Triple s lower m P = record { at = λ w h. answer w ((process lower m s w).0) refl h }
  where
    answer :
        (w : World) (r : Result (Unit {0}))
        → (process lower m s w).0 ≡ r
        → P w.cache
        → Then
            (λ c d. P c)
            (λ c d. Stored m d)
            r
            (process lower m s w).1.cache
            (process lower m s w).1.db
    answer w (ok _) eq h = process-Stored lower m s w eq
    answer w (err x) eq h = subst P (sym ((process-Spares lower m).at s w)) h

-- No entry is acknowledged with its tickets unaccounted for. Whatever fails on the way, after the
-- consumer has dealt with a pending entry it is still pending, or it was read and the database has
-- the order of its message (its id, user, ticket type and quantity), or it is on the dead-letter
-- stream and the count that it tells was given back to Redis (the revert script met its mark, and did
-- nothing, or it raised the key of the ticket type by that count, if there is one, and set the mark),
-- unless the entry does not tell the ticket type and the quantity. At least one attempt is
-- configured, and meanwhile no other process acknowledges the entry or trims it from the dead-letter
-- stream.
pub process_entry-Accounted :
    (fmt : Formats) (lower : Text → Text) (policy : Error → Bool) (retries : ℕ) (e : Entry)
    (s : Schedule) (w : World)
    → LeavesAlone e s
    → Held e w.cache
    → let w' = (process_entry (worker fmt lower policy (suc retries)) e s w).1 in
      Held e w'.cache
      ⊎ (((m : Message) × (parse_message fmt e ≡ ok m) × Stored m w'.db)
          ⊎ Accounted s fmt e w.cache w'.cache)
process_entry-Accounted fmt lower policy retries e s w calm held =
    (process_entry-Triple Stored (worker fmt lower policy (suc retries)) e calm w.cache retries refl
        (λ m eq. process-Triple s lower m (λ c. Held e c × Later s w.cache c))).at
      w (held, now)
