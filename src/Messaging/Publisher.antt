-- ===== src/Messaging/Publisher.antt =====
-- internal/infrastructure/messaging/kafka_intake_publisher.go: `PublishIntake`. `json.Marshal` and the
-- answers of the `kafka.Writer` are parameters. The sentinel of a timeout is one of the other errors.
pub mod Delivered
use booking_monitor.Prelude.{ℕ, ◌==◌, if◌then◌else◌}
use booking_monitor.Domain.Errors.{Result, ok, err, infra}
use booking_monitor.Domain.Currency.{Text}
use booking_monitor.Booking.Intake.{IntakeMessage}

pub record Writer : Type 0 where
  pub marshal : IntakeMessage → Result Text
  pub write : Text → ℕ → Result (Unit {0})

abbrev pub written : Result (Unit {0}) → Result (Unit {0})
written (ok _) = ok tt
written (err e) = err infra

abbrev pub sent : Writer → ℕ → Result Text → Result (Unit {0})
sent q n (ok payload) = written (q.write payload n)
sent q n (err e) = err infra

unfoldable pub publish_message : Writer → IntakeMessage → ℕ → Result (Unit {0})
publish_message q msg n = if msg.order_id == 0 then err infra else sent q n (q.marshal msg)
