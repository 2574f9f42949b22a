-- ===== src/Worker/Settled.antt =====
-- The consumer of internal/infrastructure/cache/redis_queue.go and the list of pending entries.
use booking_monitor.Prelude.{
  ℕ, zero, suc, ◌≡◌, refl, ◌⊎◌, inl, inr, Bool, true, false, Option, none, some, Bool-cases,
  if◌then◌else◌,
}
use booking_monitor.Domain.Errors.{Error, Result, ok, err}
use booking_monitor.Application.Metrics.{DlqReason}
use booking_monitor.Store.Db.{Db}
use booking_monitor.Store.Redis.{Redis, Entry}
use booking_monitor.Store.Exec.{Schedule, M, pure, ◌>>=◌}
use booking_monitor.Store.Triples.{
  Pre, Post, Kept, Triple, Triple-pure, Triple-try, Triple-run_script, Triple-bind, Triple-emit,
  Triple-is_cancelled,
}
use booking_monitor.Worker.Processor.{Message}
use booking_monitor.Cache.Given.{GaveBack-others, GaveBack-later}
use booking_monitor.Worker.Wire.{parse_message}
use booking_monitor.Worker.Compensation.{
  LeavesAlone, Held, Accounted, Pending, Holding, Closed, Then, Told, Reasoned,
  handle_failure-Triple, handle_parse_failure-Triple,
}
use booking_monitor.Worker.Queue.{
  Handler, Handled, success, shutdown, failed, acknowledge, ack_or_log, ack_result, after_attempt,
  process_with_retry, Consumer, process_entry, sleep_ctx, count_and_ack, after_failure,
  after_handling, after_parse,
}

ack_result-Triple :
    {s : Schedule} {P : Pre} (r : Result (Unit {0})) → Triple s P (ack_result r) (λ r c d. P c d)
ack_result-Triple (ok _) = Triple-pure tt (λ c d p. p)
ack_result-Triple (err x) = Triple-emit _

-- Whatever the list of pending entries does not matter to, an acknowledgement keeps.
ack_or_log-Triple :
    {s : Schedule} (P : Pre) (id : ℕ)
    → Kept s P
    → ((c : Redis) (d : Db) → P c d → P (acknowledge id c) d)
    → Triple s P (ack_or_log id) (λ r c d. P c d)
unfolding ack_or_log
ack_or_log-Triple P id k h =
    Triple-try (Triple-run_script {Q = λ r c d. P c d} _ k h (λ x c d p. h c d p) (λ x c d p. p))
      (λ r. ack_result-Triple r)

sleep_ctx-Triple : {s : Schedule} {P : Pre} → Triple s P sleep_ctx (λ r c d. P c d)
unfolding sleep_ctx
sleep_ctx-Triple =
    Triple-bind Triple-is_cancelled (λ stop. Triple-pure _ (λ c d p. p)) (λ x c d p. p)

-- A message that was handled without an error, and one that was not.
abbrev Retried : Pre → Pre → Post Handled
Retried P R (ok success) c d = R c d
Retried P R (ok shutdown) c d = P c d
Retried P R (ok (failed x b)) c d = P c d
Retried P R (err x) c d = P c d

module _ {s : Schedule} {P R : Pre} (handler : Handler) (policy : Error → Bool) (m : Message)
    (handles : Triple s P (handler m) (Then P R)) where
  awake-Triple :
      (again : M Handled)
      → Triple s P again (Retried P R)
      → (awake : Bool) → Triple s P (if awake then again else pure shutdown) (Retried P R)
  awake-Triple again t true = t
  awake-Triple again t false = Triple-pure shutdown (λ c d p. p)

  after_sleep-Triple :
      (again : M Handled)
      → Triple s P again (Retried P R)
      → Triple s P (sleep_ctx >>= λ awake. if awake then again else pure shutdown) (Retried P R)
  after_sleep-Triple again t =
      Triple-bind sleep_ctx-Triple (λ awake. awake-Triple again t awake) (λ x c d p. p)

  after_attempt-Triple :
      (again : Error → M Handled)
      → ((e : Error) → Triple s P (again e) (Retried P R))
      → (r : Result (Unit {0}))
      → Triple s
          (λ c d. Then P R r c d)
          (after_attempt handler policy (pure shutdown) again r)
          (Retried P R)
  after_attempt-Triple again t (ok _) = Triple-pure success (λ c d p. p)
  after_attempt-Triple again t (err x) = elim (Bool-cases (policy x)) [
    | inl b ↦ rw b (after_sleep-Triple (again x) (t x))
    | inr b ↦ rw b (Triple-pure _ (λ c d p. p))
  ]

  -- After an error, with `attempts` rounds left.
  retry-Triple :
      (attempts : ℕ) (x : Error)
      → Triple s P (process_with_retry handler policy attempts (some x) m) (Retried P R)
  unfolding process_with_retry
  retry-Triple zero x = Triple-pure _ (λ c d p. p)
  retry-Triple (suc n) x = Triple-try handles (after_attempt-Triple _ (λ y. retry-Triple n y))

  process_with_retry-Triple :
      (attempts : ℕ)
      → Triple s P (process_with_retry handler policy (suc attempts) none m) (Retried P R)
  unfolding process_with_retry
  process_with_retry-Triple n = Triple-try handles (after_attempt-Triple _ (λ y. retry-Triple n y))

-- The entry is still pending, or it was handled, or its compensation is complete.
abbrev Answered : Schedule → (Message → Db → Type 0) → Consumer → Entry → Redis → Pre
Answered s H q e c0 c d =
    Held e c
    ⊎ (((m : Message) × (parse_message q.formats e ≡ ok m) × H m d) ⊎ Accounted s q.formats e c0 c)

module _ {s : Schedule} (H : Message → Db → Type 0) (q : Consumer) (e : Entry)
    (calm : LeavesAlone e s) (c0 : Redis) where
  abbrev Settles : {A : Type 0} → Post A
  Settles r c d = Answered s H q e c0 c d

  abbrev Open : Pre
  Open = Holding q.formats e calm c0

  abbrev Waiting : Pre
  Waiting = Pending q.formats e calm c0

  abbrev Shut : Pre
  Shut = Closed q.formats e calm c0

  Shut-Kept : Kept s Shut
  Shut-Kept n c d (b, inl h) = (calm.buried n c b, inl h)
  Shut-Kept n c d (b, inr g) = (calm.buried n c b, inr (g.0, g.1, g.2, GaveBack-others s n g.3))

  acknowledge-Shut : (c : Redis) (d : Db) → Shut c d → Shut (acknowledge e.id c) d
  unfolding acknowledge
  acknowledge-Shut c d (b, inl h) = (b, inl h)
  acknowledge-Shut c d (b, inr g) = (b, inr (g.0, g.1, g.2, GaveBack-later s g.3 refl refl))

  count_and_ack-Triple :
      (r : Option DlqReason)
      → Triple s (λ c d. Reasoned Waiting Shut (ok r) c d) (count_and_ack e.id r) Settles
  unfolding count_and_ack
  count_and_ack-Triple none = Triple-pure false (λ c d p. inl p)
  count_and_ack-Triple (some r) =
      Triple-bind (Triple-emit _)
        (λ _.
          Triple-bind (ack_or_log-Triple Shut e.id Shut-Kept acknowledge-Shut)
            (λ _. Triple-pure false (λ c d p. inr (inr p))) (λ x c d p. inr (inr p)))
        (λ x c d p. inr (inr p))

  Told-Settles : (x : Error) (c : Redis) (d : Db) → Waiting c d → Answered s H q e c0 c d
  Told-Settles x c d p = inl p

  after_failure-Triple :
      (malformed b : Bool)
      → Triple s (λ c d. Told Waiting Shut (ok b) c d) (after_failure e.id malformed b) Settles
  unfolding after_failure
  after_failure-Triple malformed true = count_and_ack-Triple (some _)
  after_failure-Triple malformed false = count_and_ack-Triple none

  after_handling-Triple :
      (m : Message)
      → parse_message q.formats e ≡ ok m
      → (h : Handled)
      → Triple s (λ c d. Retried Open (λ _ d. H m d) (ok h) c d) (after_handling m e h) Settles
  unfolding after_handling
  after_handling-Triple m eq success =
      Triple-bind (ack_or_log-Triple (λ _ d. H m d) e.id (λ n c d h. h) (λ c d h. h))
        (λ _. Triple-pure false (λ c d h. inr (inl (m, eq, h)))) (λ x c d h. inr (inl (m, eq, h)))
  after_handling-Triple m eq shutdown = Triple-pure true (λ c d h. inl h.0)
  after_handling-Triple m eq (failed x malformed) =
      Triple-bind (handle_failure-Triple q.formats e calm c0 m eq) (after_failure-Triple malformed)
        Told-Settles

  module _ (n : ℕ) (retries : q.max_retries ≡ suc n)
      (handles : (m : Message)
        → parse_message q.formats e ≡ ok m
        → Triple s Open (q.handler m) (Then Open (λ _ d. H m d))) where
    after_parse-Triple :
        (r : Result Message)
        → parse_message q.formats e ≡ r
        → Triple s Open (after_parse q e r) Settles
    unfolding after_parse
    after_parse-Triple (err x) eq =
        Triple-bind (handle_parse_failure-Triple q.formats e calm c0) count_and_ack-Triple
          Told-Settles
    after_parse-Triple (ok m) eq = rw retries (
        Triple-bind (process_with_retry-Triple q.handler q.retry_policy m (handles m eq) n)
          (after_handling-Triple m eq) (λ x c d p. inl p.0))

    pub process_entry-Triple : Triple s Open (process_entry q e) Settles
    unfolding process_entry
    process_entry-Triple = after_parse-Triple (parse_message q.formats e) refl
