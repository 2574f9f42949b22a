-- ===== src/Worker/Queue.antt =====
-- internal/infrastructure/cache/redis_queue.go: what the consumer does with one entry of
-- `orders:stream`. The trimming of `orders:dlq` by age is a step of another process.
use booking_monitor.Prelude.{
  ℕ, zero, suc, Bool, true, false, not, Option, none, some, List, [], ◌∷◌, ◌==◌, if◌then◌else◌,
}
use booking_monitor.Prelude.Int.{ℤ}
use booking_monitor.Domain.Errors.{Error, Result, ok, err, infra}
use booking_monitor.Application.Metrics.{
  DlqReason, malformed_classified, exhausted_retries, malformed_reverted_legacy,
  malformed_unrecoverable, dlq_routed, revert_failure, xack_failure, xadd_failure,
}
use booking_monitor.Store.Redis.{Redis, Entry}
use booking_monitor.Store.Exec.{
  M, pure, raise, attempt, emit, ◌>>=◌, ◌>>◌, run_script, clock, is_cancelled,
}
use booking_monitor.Cache.Deduct.{Formats}
use booking_monitor.Cache.Revert.{revert_inventory, message_compensation}
use booking_monitor.Worker.Processor.{Message}
use booking_monitor.Worker.Wire.{parse_message, parse_revert_hints}

-- Whether the context is still alive after the sleep.
unfoldable pub sleep_ctx : M Bool
sleep_ctx = is_cancelled >>= λ stop. pure (not stop)

-- What `processWithRetry` returns: no error, `errShutdownDuringBackoff`, or the error and whether the
-- policy called it malformed.
pub data Handled : Type 0 where
  success shutdown : Handled
  failed : Error → Bool → Handled

abbrev exhausted : Option Error → Handled
exhausted none = success
exhausted (some e) = failed e false

abbrev pub Handler : Type 0
Handler = Message → M (Unit {0})

module _ (handler : Handler) (retry_policy : Error → Bool) where
  abbrev pub after_attempt : M Handled → (Error → M Handled) → Result (Unit {0}) → M Handled
  after_attempt stop again (ok _) = pure success
  after_attempt stop again (err e) =
      if retry_policy e
      then (sleep_ctx >>= λ awake. if awake then again e else stop)
      else pure (failed e true)

  -- `attempts` rounds are left, and `last_err` is the error of the round before.
  unfoldable pub process_with_retry : ℕ → Option Error → Message → M Handled
  process_with_retry zero last_err msg = pure (exhausted last_err)
  process_with_retry (suc attempts) last_err msg = attempt (handler msg) >>= λ r.
      after_attempt (pure shutdown) (λ e. process_with_retry attempts (some e) msg) r

-- The entry with its fields, on the dead-letter stream.
unfoldable pub add_dead : Entry → Redis → Redis
add_dead msg c = record c { dlq = msg ∷ c.dlq }

abbrev pub dlq_result : Result (Unit {0}) → M (Unit {0})
dlq_result (ok _) = pure tt
dlq_result (err e) = emit xadd_failure >> raise infra

-- The clock is read for the entry's time and for the cutoff.
unfoldable pub move_to_dlq : Entry → M (Unit {0})
unfolding add_dead
move_to_dlq msg = do
  failed_at ← clock
  cutoff ← clock
  r ← attempt (run_script (λ c. (ok tt, add_dead msg c)))
  dlq_result r

abbrev pub routed : DlqReason → Result (Unit {0}) → M (Option DlqReason)
routed reason (ok _) = pure (some reason)
routed reason (err e) = pure none

abbrev pub after_hint_revert : Entry → Result (Unit {0}) → M (Option DlqReason)
after_hint_revert msg (ok _) = attempt (move_to_dlq msg) >>= routed malformed_reverted_legacy
after_hint_revert msg (err e) = emit revert_failure >> pure none

abbrev pub with_hints : Entry → Result (ℕ × ℤ) → M (Option DlqReason)
with_hints msg (err e) = attempt (move_to_dlq msg) >>= routed malformed_unrecoverable
with_hints msg (ok (ticket_type_id, quantity)) =
    attempt (revert_inventory ticket_type_id quantity (message_compensation msg.id))
    >>= after_hint_revert msg

-- The reason where the compensation is complete, `none` where the entry stays pending.
unfoldable pub handle_parse_failure : Formats → Entry → M (Option DlqReason)
handle_parse_failure fmt msg = with_hints msg (parse_revert_hints fmt msg)

abbrev pub moved : Result (Unit {0}) → M Bool
moved (ok _) = pure true
moved (err e) = pure false

abbrev pub after_revert : Entry → Result (Unit {0}) → M Bool
after_revert msg (ok _) = attempt (move_to_dlq msg) >>= moved
after_revert msg (err e) = emit revert_failure >> pure false

unfoldable pub handle_failure : Message → Entry → M Bool
handle_failure order_msg msg =
    attempt
      (revert_inventory order_msg.ticket_type_id order_msg.quantity (message_compensation msg.id))
    >>= after_revert msg

unfoldable pub drop : ℕ → List ℕ → List ℕ
drop id [] = []
drop id (k ∷ ks) = if k == id then drop id ks else k ∷ drop id ks

-- `XACK`.
unfoldable pub acknowledge : ℕ → Redis → Redis
unfolding drop
acknowledge id c = record c { pending = drop id c.pending }

abbrev pub ack_result : Result (Unit {0}) → M (Unit {0})
ack_result (ok _) = pure tt
ack_result (err e) = emit xack_failure

unfoldable pub ack_or_log : ℕ → M (Unit {0})
unfolding acknowledge
ack_or_log id = attempt (run_script (λ c. (ok tt, acknowledge id c))) >>= ack_result

-- What an entry is read with: the formats, the handler, the retry policy and the retries.
pub record Consumer : Type 0 where
  pub formats : Formats
  pub handler : Handler
  pub retry_policy : Error → Bool
  pub max_retries : ℕ

-- Whether the shutdown came in the middle of a backoff.
unfoldable pub count_and_ack : ℕ → Option DlqReason → M Bool
count_and_ack id none = pure false
count_and_ack id (some reason) = emit (dlq_routed reason) >> (ack_or_log id >> pure false)

unfoldable pub reason_of : Bool → DlqReason
reason_of malformed = if malformed then malformed_classified else exhausted_retries

unfoldable pub after_failure : ℕ → Bool → Bool → M Bool
after_failure id malformed true = count_and_ack id (some (reason_of malformed))
after_failure id malformed false = count_and_ack id none

unfoldable pub after_handling : Message → Entry → Handled → M Bool
after_handling order_msg msg success = ack_or_log msg.id >> pure false
after_handling order_msg msg shutdown = pure true
after_handling order_msg msg (failed e malformed) =
    handle_failure order_msg msg >>= after_failure msg.id malformed

unfoldable pub after_parse : Consumer → Entry → Result Message → M Bool
after_parse q msg (err e) = handle_parse_failure q.formats msg >>= count_and_ack msg.id
after_parse q msg (ok order_msg) =
    process_with_retry q.handler q.retry_policy q.max_retries none order_msg
    >>= after_handling order_msg msg

unfoldable pub process_entry : Consumer → Entry → M Bool
process_entry q msg = after_parse q msg (parse_message q.formats msg)
