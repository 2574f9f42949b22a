-- ===== src/Domain/Errors.antt =====
-- The sentinel errors of internal/domain. Wrapping by `fmt.Errorf("…: %w", err)` keeps the sentinel
-- that `errors.Is` finds, so an error is modelled by its sentinel. `context_done` is a cancelled or
-- expired context, and `infra` stands for every other error (database, network). The sentinels and
-- the `stepError` wrapper of the application layer are here too. `joined` is `errors.Join`.
use booking_monitor.Prelude.{Bool, true, false, ◌||◌}

-- The steps that the saga compensator tags its errors with.
pub data Step : Type 0 where
  getbyid list_ticket_type incrementticket markcompensated record_completion : Step

pub data Error : Type 0 where
  order_not_found invalid_transition reservation_expired : Error
  invalid_order_id invalid_user_id invalid_event_id invalid_quantity invalid_reserved_until : Error
  invalid_amount_cents invalid_currency invalid_order_ticket_type_id : Error
  event_not_found sold_out user_already_bought invalid_event_name invalid_total_tickets : Error
  ticket_type_not_found ticket_type_name_taken ticket_type_sold_out : Error
  invalid_ticket_type_id invalid_ticket_type_event_id invalid_ticket_type_name : Error
  invalid_ticket_type_price invalid_ticket_type_currency invalid_ticket_type_total : Error
  invalid_ticket_type_sale_window invalid_ticket_type_per_user : Error
  runtime_metadata_missing : Error
  webhook_unknown_intent webhook_intent_mismatch webhook_unexpected_status : Error
  order_not_awaiting_payment order_missing_price_snapshot : Error
  outbox_create_failed publish_failed : Error
  invalid_event_quantity increment_exceeds_total not_reverted_row : Error
  unmarshal compensate_not_eligible : Error
  step_failed : Step → Error → Error
  joined : Error → Error → Error
  context_done infra : Error

pub data Result {ℓ} (A : Type ℓ) : Type ℓ where
  ok : A → Result A
  err : Error → Result A

-- The call that follows an `if err != nil { return …, err }`.
module _ {ℓ} {B : Type ℓ} where
  infixl 5 ◌>>=◌ ◌>>◌
  abbrev pub ◌>>=◌ {κ} : {A : Type κ} → Result A → (A → Result B) → Result B
  err failure >>= next_call = err failure
  ok answer >>= next_call = next_call answer

  abbrev pub ◌>>◌ : Result (Unit {0}) → Result B → Result B
  checked >> rest = checked >>= λ _. rest

-- `if bad { return …, e }`.
abbrev pub fail_if : Bool → Error → Result (Unit {0})
fail_if true e = err e
fail_if false e = ok tt

-- The invariant violations of the order factories.
unfoldable pub is_malformed_order_input : Error → Bool
is_malformed_order_input invalid_order_id = true
is_malformed_order_input invalid_user_id = true
is_malformed_order_input invalid_event_id = true
is_malformed_order_input invalid_quantity = true
is_malformed_order_input invalid_reserved_until = true
is_malformed_order_input invalid_amount_cents = true
is_malformed_order_input invalid_currency = true
is_malformed_order_input invalid_order_ticket_type_id = true
is_malformed_order_input _ = false

-- `errors.Is(err, …)`, which looks through the wrapper.
abbrev pub is_order_not_found : Error → Bool
is_order_not_found order_not_found = true
is_order_not_found (step_failed s e) = is_order_not_found e
is_order_not_found (joined a b) = is_order_not_found a || is_order_not_found b
is_order_not_found _ = false

abbrev pub is_invalid_transition : Error → Bool
is_invalid_transition invalid_transition = true
is_invalid_transition (step_failed s e) = is_invalid_transition e
is_invalid_transition (joined a b) = is_invalid_transition a || is_invalid_transition b
is_invalid_transition _ = false

abbrev pub is_reservation_expired : Error → Bool
is_reservation_expired reservation_expired = true
is_reservation_expired (step_failed s e) = is_reservation_expired e
is_reservation_expired (joined a b) = is_reservation_expired a || is_reservation_expired b
is_reservation_expired _ = false

abbrev pub is_outbox_create_failed : Error → Bool
is_outbox_create_failed outbox_create_failed = true
is_outbox_create_failed (step_failed s e) = is_outbox_create_failed e
is_outbox_create_failed (joined a b) = is_outbox_create_failed a || is_outbox_create_failed b
is_outbox_create_failed _ = false

abbrev pub is_context_done : Error → Bool
is_context_done context_done = true
is_context_done (step_failed s e) = is_context_done e
is_context_done (joined a b) = is_context_done a || is_context_done b
is_context_done _ = false
