-- ===== src/Messaging/Intake/Settled.antt =====
-- What stands behind a committed offset of internal/infrastructure/messaging/kafka_intake_consumer.go.
use booking_monitor.Prelude.{
  ℕ, suc, ◌+◌, ◌≡◌, refl, sym, ap, subst, ◌∙◌, ◌⊎◌, inl, inr, Bool, true, false, Bool-cases, arith,
}
use booking_monitor.Prelude.Int.{ℤ}
use booking_monitor.Domain.Errors.{Error, Result, ok, err}
use booking_monitor.Domain.Currency.{Text}
use booking_monitor.Application.Metrics.{
  Metric, intake_revert_failure, rollback_failure, published_order_created,
}
use booking_monitor.Domain.Order.{Order}
use booking_monitor.Store.Orders
use booking_monitor.Store.TicketTypes.{decrement_ticket}
use booking_monitor.Store.Tally.{tally, Counts}
use booking_monitor.Store.Silent.{silent_calls}
use booking_monitor.Store.Exec.{Schedule, World, pure, attempt, emit, ◌>>=◌, run_script, ask, tx}
use booking_monitor.Cache.Revert.{revert_inventory, order_compensation}
use booking_monitor.Cache.Given.{GaveBack, settle-GaveBack}
use booking_monitor.Worker.Processor.{Message, process, process_body, publish}
use booking_monitor.Worker.Stored.{Stored, process-Stored, process-Spares}
use booking_monitor.Booking.Intake.{IntakeMessage}
use booking_monitor.Messaging.{KafkaMessage, Reader, commit_or_log, commit_result, is_commit}
use booking_monitor.Messaging.Intake.{
  Config, decode_intake_message, intake_to_queued, is_terminal_process_error, compensated,
  compensate_leaked_inventory, processed, decoded, handle_message,
}

abbrev pub is_revert_failure : Metric → Bool
is_revert_failure intake_revert_failure = true
is_revert_failure _ = false

-- The order is stored, or its count went back to Redis, or the failure of that was counted.
abbrev pub Answered : Schedule → Config → KafkaMessage → IntakeMessage → World → World → Type 0
Answered s cfg msg im w w' =
    Stored (intake_to_queued cfg msg im) w'.db
    ⊎ (GaveBack s im.ticket_type_id im.quantity (order_compensation im.order_id) w.cache w'.cache
        ⊎ (tally is_revert_failure w'.metrics ≡ suc (tally is_revert_failure w.metrics)))

commit_or_log-same :
    (reader : Reader) (msg : KafkaMessage) (s : Schedule) (w : World)
    → let w' = (commit_or_log reader msg s w).1 in
      (w'.db ≡ w.db)
      × (w'.cache ≡ w.cache)
      × (tally is_revert_failure w'.metrics ≡ tally is_revert_failure w.metrics)
unfolding commit_or_log attempt ask ◌>>=◌
commit_or_log-same reader msg s w = logged (reader.commit msg w.tick)
  where
    logged :
        (r : Result (Unit {0}))
        → let w' = (commit_result msg r s (record w { tick = suc w.tick })).1 in
          (w'.db ≡ w.db)
          × (w'.cache ≡ w.cache)
          × (tally is_revert_failure w'.metrics ≡ tally is_revert_failure w.metrics)
    logged (ok _) = unfold emit tally in (refl, refl, refl)
    logged (err e) = unfold pure in (refl, refl, refl)

-- The processor makes no count of a kind `p` that is neither a failed rollback nor the message on the
-- admin bus.
module _ {p : Metric → Bool} (no_rollback : p rollback_failure ≡ false)
    (no_message : (n : ℕ) → p (published_order_created n) ≡ false) where
  create-silent : (o : Order) → Counts p 0 (Orders.create tx o)
  unfolding Orders.create
  create-silent o = search silent_calls

  decrement_ticket-silent : (id : ℕ) (n : ℤ) → Counts p 0 (decrement_ticket tx id n)
  unfolding decrement_ticket
  decrement_ticket-silent id n = search silent_calls

  process_body-silent : (m : Message) (o : Order) → Counts p 0 (process_body m o)
  unfolding process_body
  process_body-silent m o = search (silent_calls, create-silent, decrement_ticket-silent)

  publish-silent : (o : Order) (r : Result ℕ) → Counts p 0 (publish o r)
  unfolding publish
  publish-silent o (ok _) = search (silent_calls, no_message)
  publish-silent o (err _) = search silent_calls

  process-silent : (lower : Text → Text) (m : Message) → Counts p 0 (process lower m)
  unfolding process
  process-silent lower m =
      search (silent_calls, process_body-silent, publish-silent, no_rollback) depth 9

module _ (cfg : Config) (msg : KafkaMessage) (im : IntakeMessage) (s : Schedule) where
  -- After the attempt to give the count back.
  Tried : World → World → Type 0
  Tried w w' =
      GaveBack s im.ticket_type_id im.quantity (order_compensation im.order_id) w.cache w'.cache
      ⊎ (tally is_revert_failure w'.metrics ≡ suc (tally is_revert_failure w.metrics))

  compensated-Tried :
      (r : Result (Unit {0})) (w w1 : World)
      → tally is_revert_failure w1.metrics ≡ tally is_revert_failure w.metrics
      → ((r ≡ ok tt)
          → GaveBack s im.ticket_type_id im.quantity
              (order_compensation im.order_id)
              w.cache
              w1.cache)
      → ((compensated r s w1).0 ≡ ok tt) × Tried w (compensated r s w1).1
  unfolding compensated emit pure tally Tried
  compensated-Tried (ok _) w w1 same h = (refl, inl (h refl))
  compensated-Tried (err e) w w1 same h = (refl, inr (ap suc same))

  compensate-Tried :
      (w : World)
      → ((compensate_leaked_inventory im s w).0 ≡ ok tt)
        × Tried w (compensate_leaked_inventory im s w).1
  unfolding compensate_leaked_inventory revert_inventory run_script attempt ◌>>=◌ Tried
  compensate-Tried w = compensated-Tried _ w _ refl (
      settle-GaveBack s w.tick im.ticket_type_id im.quantity (order_compensation im.order_id)
        w.cache)

  -- A commit changes nothing of it.
  kept_by_commit : (w w' : World) → Tried w w' → Tried w (commit_or_log cfg.reader msg s w').1
  unfolding Tried
  kept_by_commit w w' h =
      let (db, cache, failures) = commit_or_log-same cfg.reader msg s w' in
      elim h [
        | inl back ↦ inl (
            subst
              (GaveBack s im.ticket_type_id im.quantity (order_compensation im.order_id) w.cache)
              (sym cache) back)
        | inr counted ↦ inr (failures ∙ counted)
      ]

  -- The end of a message of which the processor has answered `r`.
  processed-Answered :
      (r : Result (Unit {0})) (w : World)
      → ((r ≡ ok tt) → Stored (intake_to_queued cfg msg im) w.db)
      → let w' = (processed cfg msg im r s w).1 in
        (tally is_commit w'.metrics ≡ tally is_commit w.metrics) ⊎ Answered s cfg msg im w w'
  unfolding processed
  processed-Answered (ok _) w h = inr (
      inl (
        subst (Stored (intake_to_queued cfg msg im))
          (sym ((commit_or_log-same cfg.reader msg s w).0)) (h refl)))
  processed-Answered (err e) w h = elim (Bool-cases (is_terminal_process_error e)) [
    | inl final ↦
        let (fine, back) = compensate-Tried w in
        let w' : World = (compensate_leaked_inventory im s w).1 in
        rw final (unfold ◌>>=◌ in rw fine (inr (inr (unfold Tried in kept_by_commit w w' back))))
    | inr transient ↦ rw transient (inl (unfold pure in refl))
  ]

-- No reservation is dropped with a committed offset: whatever fails, after the consumer has handled a
-- message of the intake topic no offset was committed, or the payload is not a message, or its order
-- is in the database (its id, user, ticket type and quantity), or its count went back to Redis: the
-- revert script met its mark, and did nothing, or it raised the key of the ticket type by the
-- quantity, if there is one, and set the mark; or the failure of that was counted.
pub handle_message-Answered :
    (cfg : Config) (msg : KafkaMessage) (s : Schedule) (w : World)
    → let w' = (handle_message cfg msg s w).1 in
      (tally is_commit w'.metrics ≡ tally is_commit w.metrics)
      ⊎ (((e : Error) × (decode_intake_message cfg msg.value ≡ err e))
          ⊎ ((im : IntakeMessage) × (decode_intake_message cfg msg.value ≡ ok im)
              × Answered s cfg msg im w w'))
unfolding handle_message decoded attempt ◌>>=◌
handle_message-Answered cfg msg s w = by_payload (decode_intake_message cfg msg.value) refl
  where
    by_payload :
        (r : Result IntakeMessage)
        → decode_intake_message cfg msg.value ≡ r
        → let w' = (decoded cfg msg r s w).1 in
          (tally is_commit w'.metrics ≡ tally is_commit w.metrics)
          ⊎ (((e : Error) × (decode_intake_message cfg msg.value ≡ err e))
              ⊎ ((im : IntakeMessage) × (decode_intake_message cfg msg.value ≡ ok im)
                  × Answered s cfg msg im w w'))
    by_payload (err e) eq = inr (inl (e, eq))
    by_payload (ok im) eq =
        let m : Message = intake_to_queued cfg msg im in
        let w1 : World = (process cfg.lower m s w).1 in
        let commits : tally is_commit w1.metrics ≡ 0 + tally is_commit w.metrics =
          (process-silent refl (λ n. refl) cfg.lower m).at s w in
        let failures : tally is_revert_failure w1.metrics ≡ 0 + tally is_revert_failure w.metrics =
          (process-silent refl (λ n. refl) cfg.lower m).at s w in
        elim (processed-Answered cfg msg im s (process cfg.lower m s w).0 w1
          (process-Stored cfg.lower m s w)) [
            | inl none_new ↦ inl (
                unfold decoded in
                unfold ◌>>=◌ in unfold attempt in omega (arith, none_new, commits))
            | inr answered ↦ inr (
                inr (
                  im,
                  eq,
                  elim answered [
                    | inl stored ↦ inl stored
                    | inr other ↦ elim other [
                      | inl back ↦ inr (
                          inl (
                            subst
                              (λ c.
                                GaveBack s im.ticket_type_id im.quantity
                                  (order_compensation im.order_id) c
                                  (processed cfg msg im (process cfg.lower m s w).0 s w1).1.cache)
                              ((process-Spares cfg.lower m).at s w) back))
                      | inr counted ↦ inr (inr (omega (arith, counted, failures)))
                    ]
                  ],
                ))
          ]
