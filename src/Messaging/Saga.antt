-- ===== src/Messaging/Saga.antt =====
-- internal/infrastructure/messaging/saga_consumer.go: the messages of order.failed go to the saga
-- compensator. A counter in Redis bounds the attempts, and what is past it goes to the topic of dead
-- letters.
pub mod Poison
use booking_monitor.Prelude.{ℕ, zero, suc, ◌-◌, Bool, true, false, ◌&&◌, leb, ◌==◌, if◌then◌else◌}
use booking_monitor.Domain.Errors.{Error, Result, ok, err}
use booking_monitor.Domain.Currency.{Text}
use booking_monitor.Application.Metrics.{
  kafka_consumer_retry, saga_poison_message, saga_dlq_message, saga_consumer_lag,
}
use booking_monitor.Store.Redis.{Redis}
use booking_monitor.Store.Exec.{
  M, pure, attempt, emit, ◌>>=◌, ◌>>◌, run_script, is_cancelled, ask, clock,
}
use booking_monitor.Worker.Queue.{sleep_ctx}
use booking_monitor.Messaging.{
  KafkaMessage, Reader, Consumed, running, finished, commit_or_log, should_reset_lag,
}

-- The message with the headers of its provenance. The topic and the reason are constants.
pub record DeadLetter : Type 0 where
  pub message : KafkaMessage
  pub cause : Error

-- `handler` is the `saga.Compensator`, on the payload and the time of the message.
pub record Consumer : Type 0 where
  pub reader : Reader
  pub handler : Text → ℕ → M (Unit {0})
  pub write : DeadLetter → ℕ → Result (Unit {0})

abbrev pub saga_max_retries : ℕ
saga_max_retries = 3

-- 30 seconds.
abbrev pub idle_reset_threshold : ℕ
idle_reset_threshold = 30000000000

unfoldable pub set_retries : ℕ → ℕ → ℕ → Redis → Redis
set_retries partition offset n c = record c {
  retries = λ p o. if p == partition && o == offset then n else c.retries p o;
}

-- `INCR` and `EXPIRE` in one transaction.
unfoldable pub incr_retry : KafkaMessage → M ℕ
incr_retry msg = run_script (λ c.
    let n : ℕ = suc (c.retries msg.partition msg.offset) in
    (ok n, set_retries msg.partition msg.offset n c))

unfoldable pub clear_retry : KafkaMessage → M (Unit {0})
clear_retry msg = run_script (λ c. (ok tt, set_retries msg.partition msg.offset 0 c))

abbrev pub was_written : Result (Unit {0}) → M Bool
was_written (ok _) = pure true
was_written (err e) = pure false

unfoldable pub write_dlq : Consumer → KafkaMessage → Error → M Bool
write_dlq q msg cause =
    attempt (ask (q.write (record { message = msg; cause = cause }))) >>= was_written

-- The end of a message: its counter goes, and its offset is committed.
unfoldable pub settle_message : Consumer → KafkaMessage → M (Unit {0})
settle_message q msg = attempt (clear_retry msg) >> commit_or_log q.reader msg

unfoldable pub dead_lettered : Consumer → KafkaMessage → Bool → M (Unit {0})
dead_lettered q msg false = pure tt
dead_lettered q msg true =
    emit saga_poison_message >> (emit saga_dlq_message >> settle_message q msg)

unfoldable pub counted : Consumer → KafkaMessage → Error → Result ℕ → M (Unit {0})
counted q msg cause (err e) = emit kafka_consumer_retry
counted q msg cause (ok count) =
    if leb count saga_max_retries then pure tt else (write_dlq q msg cause >>= dead_lettered q msg)

unfoldable pub handled : Consumer → KafkaMessage → Result (Unit {0}) → M (Unit {0})
handled q msg (ok _) = settle_message q msg
handled q msg (err cause) = attempt (incr_retry msg) >>= counted q msg cause

-- The body of the loop of `Start`, on one message. Its lag is 0 where the clocks disagree.
unfoldable pub receive : Consumer → KafkaMessage → M (Unit {0})
receive q msg = clock >>= λ now.
    emit (saga_consumer_lag (now - msg.time))
    >> (attempt (q.handler msg.value msg.time) >>= handled q msg)

abbrev fetched : Consumer → M Consumed → Result KafkaMessage → M Consumed
fetched q again (ok msg) = receive q msg >> again
fetched q again (err e) = is_cancelled >>= λ stop.
    if stop then pure finished else (sleep_ctx >>= λ awake. if awake then again else pure finished)

-- The loop has no bound, and runs for a number of rounds.
unfoldable pub start : Consumer → ℕ → M Consumed
start q zero = pure running
start q (suc rounds) = attempt (ask q.reader.fetch) >>= fetched q (start q rounds)

-- One tick of `runIdleReset`, which runs beside the loop: `last` is the time of the last message.
unfoldable pub idle_reset : ℕ → M (Unit {0})
idle_reset last = clock >>= λ now.
    if should_reset_lag last now idle_reset_threshold then emit (saga_consumer_lag 0) else pure tt
