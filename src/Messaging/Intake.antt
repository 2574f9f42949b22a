-- ===== src/Messaging/Intake.antt =====
-- internal/infrastructure/messaging/kafka_intake_consumer.go and kafka_intake_message.go: each message
-- of the intake topic goes to the worker's processor.
--
-- `json.Unmarshal` is a parameter. Whether the worker's error is final decides about the commit of the
-- offset.
pub mod Settled
use booking_monitor.Prelude.{ℕ, zero, suc, Bool, true, false, ◌||◌, ◌==◌, if◌then◌else◌}
use booking_monitor.Domain.Errors.{
  Error, Result, ok, err, infra, is_malformed_order_input, sold_out, ticket_type_sold_out,
  user_already_bought, step_failed, joined,
}
use booking_monitor.Domain.Currency.{Text}
use booking_monitor.Application.Metrics.{intake_revert_failure}
use booking_monitor.Store.Exec.{M, pure, attempt, emit, ◌>>=◌, ◌>>◌, is_cancelled, ask}
use booking_monitor.Cache.Revert.{revert_inventory, order_compensation}
use booking_monitor.Worker.Processor.{Message, process}
use booking_monitor.Worker.Wire.{from_unix}
use booking_monitor.Worker.Queue.{sleep_ctx}
use booking_monitor.Booking.Intake.{IntakeMessage}
use booking_monitor.Messaging.{KafkaMessage, Reader, Consumed, running, finished, commit_or_log}

-- `message_id` is the number of the text "p<partition>/o<offset>".
pub record Config : Type 0 where
  pub reader : Reader
  pub unmarshal : Text → Result IntakeMessage
  pub message_id : ℕ → ℕ → ℕ
  pub lower : Text → Text

abbrev has_order_id : IntakeMessage → Result IntakeMessage
has_order_id m = if m.order_id == 0 then err infra else ok m

abbrev pub checked : Result IntakeMessage → Result IntakeMessage
checked (ok m) = has_order_id m
checked (err e) = err e

unfoldable pub decode_intake_message : Config → Text → Result IntakeMessage
decode_intake_message cfg value = checked (cfg.unmarshal value)

unfoldable pub intake_to_queued : Config → KafkaMessage → IntakeMessage → Message
intake_to_queued cfg msg im = record {
  message_id = cfg.message_id msg.partition msg.offset;
  order_id = im.order_id;
  user_id = im.user_id;
  event_id = im.event_id;
  ticket_type_id = im.ticket_type_id;
  quantity = im.quantity;
  reserved_until = from_unix im.reserved_until;
  amount_cents = im.amount_cents;
  currency = im.currency;
}

-- The sentinels that this consumer adds to the malformed input.
is_refusal : Error → Bool
is_refusal sold_out = true
is_refusal ticket_type_sold_out = true
is_refusal user_already_bought = true
is_refusal (step_failed s e) = is_refusal e
is_refusal (joined a b) = is_refusal a || is_refusal b
is_refusal _ = false

unfoldable pub is_terminal_process_error : Error → Bool
unfolding is_refusal
is_terminal_process_error e = is_malformed_order_input e || is_refusal e

unfoldable pub compensated : Result (Unit {0}) → M (Unit {0})
compensated (ok _) = pure tt
compensated (err e) = emit intake_revert_failure

unfoldable pub compensate_leaked_inventory : IntakeMessage → M (Unit {0})
compensate_leaked_inventory im =
    attempt (revert_inventory im.ticket_type_id im.quantity (order_compensation im.order_id))
    >>= compensated

unfoldable pub processed : Config → KafkaMessage → IntakeMessage → Result (Unit {0}) → M (Unit {0})
processed cfg msg im (ok _) = commit_or_log cfg.reader msg
processed cfg msg im (err e) =
    if is_terminal_process_error e
    then (compensate_leaked_inventory im >> commit_or_log cfg.reader msg)
    else pure tt

unfoldable pub decoded : Config → KafkaMessage → Result IntakeMessage → M (Unit {0})
decoded cfg msg (err e) = commit_or_log cfg.reader msg
decoded cfg msg (ok im) =
    attempt (process cfg.lower (intake_to_queued cfg msg im)) >>= processed cfg msg im

unfoldable pub handle_message : Config → KafkaMessage → M (Unit {0})
handle_message cfg msg = decoded cfg msg (decode_intake_message cfg msg.value)

-- One round of `Start` after the fetch.
abbrev fetched : Config → M Consumed → Result KafkaMessage → M Consumed
fetched cfg again (ok msg) = handle_message cfg msg >> again
fetched cfg again (err e) = is_cancelled >>= λ stop.
    if stop then pure finished else (sleep_ctx >>= λ awake. if awake then again else pure finished)

-- The loop has no bound, and runs for a number of rounds.
unfoldable pub start : Config → ℕ → M Consumed
start cfg zero = pure running
start cfg (suc rounds) = attempt (ask cfg.reader.fetch) >>= fetched cfg (start cfg rounds)
