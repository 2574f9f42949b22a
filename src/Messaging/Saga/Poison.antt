-- ===== src/Messaging/Saga/Poison.antt =====
-- The attempts of internal/infrastructure/messaging/saga_consumer.go on a message that always fails.
use booking_monitor.Prelude.{
  ℕ, zero, suc, ◌≡◌, refl, ap, ◌∙◌, Bool, true, false, ◌&&◌, ◌==◌, leb, arith, if◌then◌else◌, ◌-◌,
  ◌∷◌, inl, inr, Bool-cases,
}
use booking_monitor.Domain.Errors.{Error, Result, ok, err}
use booking_monitor.Application.Metrics.{
  Metric, saga_dlq_message, saga_poison_message, saga_consumer_lag,
}
use booking_monitor.Store.Redis.{Redis}
use booking_monitor.Store.Tally.{tally}
use booking_monitor.Store.Exec.{
  Schedule, World, done, M, pure, attempt, emit, ◌>>=◌, ◌>>◌, run_script, ask, clock,
}
use booking_monitor.Messaging.{KafkaMessage, commit_or_log, is_commit}
use booking_monitor.Messaging.Saga.{
  Consumer, DeadLetter, saga_max_retries, set_retries, incr_retry, clear_retry, write_dlq,
  settle_message, was_written, dead_lettered, counted, handled, receive,
}

abbrev pub is_dead_letter : Metric → Bool
is_dead_letter saga_dlq_message = true
is_dead_letter _ = false

-- The counter of the message, the dead letters and the commits.
pub record Seen : Type 0 where
  pub attempts : ℕ
  pub letters : ℕ
  pub commits : ℕ

abbrev pub seen_of : KafkaMessage → World → Seen
seen_of msg w = record {
  attempts = w.cache.retries msg.partition msg.offset;
  letters = tally is_dead_letter w.metrics;
  commits = tally is_commit w.metrics;
}

-- Redis answers and Kafka takes a commit, the topic of dead letters answers `answer` to the message, and
-- no other process touches the counter of the message.
pub record Healthy (q : Consumer) (msg : KafkaMessage) (answer : Result (Unit {0})) (s : Schedule)
    : Type 0 where
  pub answered : (n : ℕ) → (s n).outcome ≡ done
  pub own :
      (n : ℕ) (c : Redis)
      → ((s n).interferes_cache c).retries msg.partition msg.offset
        ≡ c.retries msg.partition msg.offset
  pub taken : (l : DeadLetter) (n : ℕ) → l.message ≡ msg → q.write l n ≡ answer
  pub committed : (n : ℕ) → q.reader.commit msg n ≡ ok tt

-- The compensator fails on the message each time, and leaves its counter to the consumer.
abbrev pub IsPoison : Consumer → KafkaMessage → Schedule → Type 0
IsPoison q msg s =
    (w : World)
    → (e : Error) × ((q.handler msg.value msg.time s w).0 ≡ err e)
      × (seen_of msg (q.handler msg.value msg.time s w).1 ≡ seen_of msg w)

-- Kafka hands the message out, as long as its offset is not committed.
unfoldable pub deliveries : Consumer → KafkaMessage → ℕ → M (Unit {0})
deliveries q msg zero = pure tt
deliveries q msg (suc n) = receive q msg >> deliveries q msg n

-- What is left of the message past its attempts: a dead letter that was taken ends it.
abbrev pub after_letter : Result (Unit {0}) → Seen → Seen
after_letter (ok _) v = record { attempts = 0; letters = suc v.letters; commits = suc v.commits }
after_letter (err e) v = v

-- What one delivery of such a message does.
attempted : Result (Unit {0}) → Seen → Seen
attempted answer v =
    if leb (suc v.attempts) saga_max_retries
    then record v { attempts = suc v.attempts }
    else after_letter answer (record v { attempts = suc v.attempts })

module _ (q : Consumer) (msg : KafkaMessage) (answer : Result (Unit {0})) (s : Schedule)
    (healthy : Healthy q msg answer s) where
  mine : (msg.partition == msg.partition && msg.offset == msg.offset) ≡ true
  mine = ground arith

  incr_retry-seen :
      (w : World)
      → ((incr_retry msg s w).0 ≡ ok (suc (seen_of msg w).attempts))
        × (seen_of msg (incr_retry msg s w).1
            ≡ record (seen_of msg w) { attempts = suc (seen_of msg w).attempts })
  unfolding incr_retry run_script set_retries
  incr_retry-seen w = rw (healthy.answered w.tick, mine, healthy.own w.tick w.cache) (refl, refl)

  clear_retry-seen :
      (w : World) → seen_of msg (clear_retry msg s w).1 ≡ record (seen_of msg w) { attempts = 0 }
  unfolding clear_retry run_script set_retries
  clear_retry-seen w = rw (healthy.answered w.tick, mine) refl

  commit_or_log-seen :
      (w : World)
      → seen_of msg (commit_or_log q.reader msg s w).1
        ≡ record (seen_of msg w) { commits = suc (seen_of msg w).commits }
  unfolding commit_or_log attempt ask emit ◌>>=◌ tally
  commit_or_log-seen w = rw (healthy.committed w.tick) refl

  commit_or_log-ok : (w : World) → (commit_or_log q.reader msg s w).0 ≡ ok tt
  unfolding commit_or_log attempt ask emit ◌>>=◌
  commit_or_log-ok w = rw (healthy.committed w.tick) refl

  -- The message is settled: no counter, and one commit more.
  settled : Seen → Seen
  settled v = record { attempts = 0; letters = v.letters; commits = suc v.commits }

  settle_message-seen :
      (w : World)
      → ((settle_message q msg s w).0 ≡ ok tt)
        × (seen_of msg (settle_message q msg s w).1 ≡ settled (seen_of msg w))
  unfolding settle_message attempt ◌>>=◌ settled
  settle_message-seen w =
      let w' : World = (clear_retry msg s w).1 in
      (
        commit_or_log-ok w',
        commit_or_log-seen w'
            ∙ ap (λ (v : Seen). record v { commits = suc v.commits }) (clear_retry-seen w),
      )

  dead_lettered-seen :
      (w : World)
      → ((dead_lettered q msg true s w).0 ≡ ok tt)
        × (seen_of msg (dead_lettered q msg true s w).1 ≡ after_letter (ok tt) (seen_of msg w))
  unfolding dead_lettered emit ◌>>=◌ tally settled
  dead_lettered-seen w =
      settle_message-seen
        (record w { metrics = saga_dlq_message ∷ saga_poison_message ∷ w.metrics })

  -- What follows on the answer to the dead letter.
  answered-seen :
      (r : Result (Unit {0})) (w : World)
      → (((was_written r >>= dead_lettered q msg) s w).0 ≡ ok tt)
        × (seen_of msg ((was_written r >>= dead_lettered q msg) s w).1
            ≡ after_letter r (seen_of msg w))
  unfolding ◌>>=◌ pure
  answered-seen (ok _) w = dead_lettered-seen w
  answered-seen (err e) w = unfold dead_lettered in unfold pure in (refl, refl)

  written-seen :
      (e : Error) (w : World)
      → (((write_dlq q msg e >>= dead_lettered q msg) s w).0 ≡ ok tt)
        × (seen_of msg ((write_dlq q msg e >>= dead_lettered q msg) s w).1
            ≡ after_letter answer (seen_of msg w))
  unfolding write_dlq attempt ask ◌>>=◌
  written-seen e w =
      rw (healthy.taken (record { message = msg; cause = e }) w.tick refl)
        (unfold ◌>>=◌ in answered-seen answer (record w { tick = suc w.tick }))

  counted-seen :
      (e : Error) (n : ℕ) (w : World)
      → ((counted q msg e (ok n) s w).0 ≡ ok tt)
        × (seen_of msg (counted q msg e (ok n) s w).1 ≡ (
            if leb n saga_max_retries then seen_of msg w else after_letter answer (seen_of msg w)))
  unfolding counted
  counted-seen e n w = elim (Bool-cases (leb n saga_max_retries)) [
    | inl few ↦ rw few (unfold pure in (refl, refl))
    | inr many ↦ rw many (written-seen e w)
  ]

  repeated : ℕ → Seen → Seen
  repeated zero v = v
  repeated (suc n) v = repeated n (attempted answer v)

  module _ (poison : IsPoison q msg s) where
    handled-seen :
        (e : Error) (w : World)
        → ((handled q msg (err e) s w).0 ≡ ok tt)
          × (seen_of msg (handled q msg (err e) s w).1 ≡ attempted answer (seen_of msg w))
    unfolding handled attempt ◌>>=◌ attempted
    handled-seen e w =
        let (count, raised) = incr_retry-seen w in
        let w' : World = (incr_retry msg s w).1 in
        rw count (
          let (fine, after) = counted-seen e (suc (seen_of msg w).attempts) w' in
          (
            fine,
            after
                ∙ ap
                    (λ v.
                      if leb (suc (seen_of msg w).attempts) saga_max_retries
                      then v
                      else after_letter answer v)
                    raised,
          ))

    receive-seen :
        (w : World)
        → ((receive q msg s w).0 ≡ ok tt)
          × (seen_of msg (receive q msg s w).1 ≡ attempted answer (seen_of msg w))
    unfolding receive clock emit attempt ◌>>=◌ tally
    receive-seen w =
        let w' : World = record w {
          tick = suc w.tick;
          metrics = saga_consumer_lag ((s w.tick).app_now - msg.time) ∷ w.metrics;
        } in
        let (e, failed, same) = poison w' in
        let w'' : World = (q.handler msg.value msg.time s w').1 in
        rw failed
          (let (fine, after) = handled-seen e w'' in (fine, after ∙ ap (attempted answer) same))

    repeated-seen :
        (n : ℕ) (w : World) → seen_of msg (deliveries q msg n s w).1 ≡ repeated n (seen_of msg w)
    unfolding deliveries repeated ◌>>=◌ pure
    repeated-seen zero w = refl
    repeated-seen (suc n) w =
        let (fine, after) = receive-seen w in
        rw fine (repeated-seen n (receive q msg s w).1 ∙ ap (repeated n) after)

-- A poison message does not come back for ever, is not given up early, and is not given up without a
-- dead letter: while Redis and Kafka answer and only the consumer counts its attempts, a message on
-- which the compensator fails each time is neither counted as a dead letter nor committed after
-- `saga_max_retries` deliveries. With the next one its dead letter is written: where the topic takes
-- it, the message is counted as one dead letter, its offset is committed once, and its counter is
-- gone; where the topic refuses it, nothing is counted or committed but one attempt more.
pub deliveries-seen :
    (q : Consumer) (msg : KafkaMessage) (answer : Result (Unit {0})) (s : Schedule)
    → Healthy q msg answer s
    → IsPoison q msg s
    → (w : World) → (seen_of msg w).attempts ≡ 0
    → (seen_of msg (deliveries q msg saga_max_retries s w).1
        ≡ record (seen_of msg w) { attempts = saga_max_retries })
      × (seen_of msg (deliveries q msg (suc saga_max_retries) s w).1
          ≡ after_letter answer (record (seen_of msg w) { attempts = suc saga_max_retries }))
unfolding attempted repeated
deliveries-seen q msg answer s healthy poison w fresh =
    let start : seen_of msg w ≡ record (seen_of msg w) { attempts = 0 } =
      ap (λ n. record (seen_of msg w) { attempts = n }) fresh in
    (
      repeated-seen q msg answer s healthy poison saga_max_retries w
          ∙ ap (repeated q msg answer s healthy saga_max_retries) start,
      repeated-seen q msg answer s healthy poison (suc saga_max_retries) w
          ∙ ap (repeated q msg answer s healthy (suc saga_max_retries)) start,
    )
