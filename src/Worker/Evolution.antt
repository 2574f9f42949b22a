-- ===== src/Worker/Evolution.antt =====
-- The calls of internal/application/worker/message_processor.go, one lemma for each function.
use booking_monitor.Prelude.{ℕ}
use booking_monitor.Domain.Errors.{Result, ok, err}
use booking_monitor.Domain.Currency.{Text}
use booking_monitor.Domain.Order.{Order}
use booking_monitor.Store.Keeps.{Keeps}
use booking_monitor.Store.Evolves.{Evolves}
use booking_monitor.Store.Calls.Bookings.{booking_rules}
use booking_monitor.Worker.Processor

publish-Keeps : (o : Order) (r : Result ℕ) → Keeps Evolves (Processor.publish o r)
unfolding Processor.publish
publish-Keeps o (ok _) = search booking_rules
publish-Keeps o (err _) = search booking_rules

process_body-Keeps :
    (msg : Processor.Message) (o : Order) → Keeps Evolves (Processor.process_body msg o)
unfolding Processor.process_body
process_body-Keeps msg o = search booking_rules

pub process-Keeps :
    (lower : Text → Text) (msg : Processor.Message) → Keeps Evolves (Processor.process lower msg)
unfolding Processor.process
process-Keeps lower msg = search (booking_rules, process_body-Keeps, publish-Keeps) depth 10
