-- ===== src/Booking/Returned.antt =====
-- The tickets that internal/application/booking/service_kafka_intake.go has taken, where the message
-- does not go out.
use booking_monitor.Prelude.{ℕ, suc, ◌≡◌, refl, ap, ◌⊎◌, inl, inr, Bool, true, false, not}
use booking_monitor.Domain.Errors.{Result, ok, err}
use booking_monitor.Application.Metrics.{Metric, publish_failure}
use booking_monitor.Store.Tally.{tally}
use booking_monitor.Store.Exec.{Schedule, World, raise, attempt, emit, ◌>>=◌, run_script, ask}
use booking_monitor.Cache.Deduct.{DeductInventoryResult}
use booking_monitor.Cache.Revert.{revert_inventory, intake_compensation}
use booking_monitor.Cache.Given.{GaveBack, settle-GaveBack}
use booking_monitor.Booking.Service.{Config, Request}
use booking_monitor.Booking.Intake.{
  Publisher, intake_message, revert_result, publish_result, publish_intake,
}

-- The counter of the failures without a revert.
abbrev pub is_drift_failure : Metric → Bool
is_drift_failure (publish_failure reverted) = not reverted
is_drift_failure _ = false

-- The message went out, or the count is given back, or the drift is counted.
abbrev pub Returned :
    Schedule → Publisher → Request → DeductInventoryResult → World → World → Type 0
Returned s publisher r result w w' =
    ((n : ℕ) × (publisher (intake_message r result) n ≡ ok tt))
    ⊎ (GaveBack s r.ticket_type_id r.quantity (intake_compensation r.order_id) w.cache w'.cache
        ⊎ (tally is_drift_failure w'.metrics ≡ suc (tally is_drift_failure w.metrics)))

module _ (publisher : Publisher) (cfg : Config) (r : Request) (s : Schedule) where
  revert_result-Returned :
      (result : DeductInventoryResult) (answer : Result (Unit {0})) (w w1 : World)
      → tally is_drift_failure w1.metrics ≡ tally is_drift_failure w.metrics
      → ((answer ≡ ok tt)
          → GaveBack s r.ticket_type_id r.quantity
              (intake_compensation r.order_id)
              w.cache
              w1.cache)
      → Returned s publisher r result w (revert_result answer s w1).1
  unfolding revert_result emit raise ◌>>=◌ tally
  revert_result-Returned result (ok _) w w1 same h = inr (inl (h refl))
  revert_result-Returned result (err e) w w1 same h = inr (inr (ap suc same))

  publish_result-Returned :
      (result : DeductInventoryResult) (n : ℕ) (answer : Result (Unit {0}))
      → publisher (intake_message r result) n ≡ answer
      → (w : World) → Returned s publisher r result w (publish_result cfg r result answer s w).1
  unfolding publish_result revert_inventory run_script attempt ◌>>=◌
  publish_result-Returned result n (ok _) eq w = inl (n, eq)
  publish_result-Returned result n (err e) eq w = revert_result-Returned result _ w _ refl (
      settle-GaveBack s w.tick r.ticket_type_id r.quantity (intake_compensation r.order_id) w.cache)

-- Tickets that were taken do not vanish: whatever fails on the way and whatever the other processes do,
-- after a deduction that was accepted the message of the booking has gone out, or its count was
-- given back to Redis: the revert script met its mark, and did nothing, or it raised the key of the
-- ticket type by the quantity, if there is one, and set the mark; or the drift was counted.
pub publish_intake-Returned :
    (publisher : Publisher) (cfg : Config) (r : Request) (result : DeductInventoryResult)
    → result.is_accepted ≡ true
    → (s : Schedule) (w : World)
    → Returned s publisher r result w (publish_intake publisher cfg r result s w).1
unfolding publish_intake attempt ask ◌>>=◌ intake_message publish_result
publish_intake-Returned publisher cfg r result accepted s w = rw accepted (
    publish_result-Returned publisher cfg r s result w.tick _ refl (record w { tick = suc w.tick }))
