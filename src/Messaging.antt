-- ===== src/Messaging.antt =====
-- What the consumers of internal/infrastructure/messaging share: a message that a `kafka.Reader` has
-- fetched, the commit of its offset, and the test that resets the lag gauge.
--
-- The reader's and the writer's answers are parameters, one for each call.
pub mod Publisher
pub mod Intake
pub mod Saga
use booking_monitor.Prelude.{ℕ, ◌-◌, Bool, true, false, ltb, ◌==◌, if◌then◌else◌}
use booking_monitor.Domain.Errors.{Result, ok, err}
use booking_monitor.Domain.Currency.{Text}
use booking_monitor.Application.Metrics.{Metric, offset_committed}
use booking_monitor.Store.Exec.{M, pure, attempt, emit, ◌>>=◌, ask}

pub record KafkaMessage : Type 0 where
  pub partition : ℕ
  pub offset : ℕ
  pub value : Text
  pub time : ℕ

-- A reader: its answers to `FetchMessage` and to `CommitMessages`.
pub record Reader : Type 0 where
  pub fetch : ℕ → Result KafkaMessage
  pub commit : KafkaMessage → ℕ → Result (Unit {0})

-- How the loop of a consumer ended: it goes on, or it returned no error.
pub data Consumed : Type 0 where
  running finished : Consumed

-- An error of the commit is logged.
abbrev pub commit_result : KafkaMessage → Result (Unit {0}) → M (Unit {0})
commit_result msg (ok _) = emit (offset_committed msg.partition msg.offset)
commit_result msg (err e) = pure tt

unfoldable pub commit_or_log : Reader → KafkaMessage → M (Unit {0})
commit_or_log reader msg = attempt (ask (reader.commit msg)) >>= commit_result msg

-- `shouldResetLag` and `shouldResetLagIntake`: 0 is for no message yet.
unfoldable pub should_reset_lag : ℕ → ℕ → ℕ → Bool
should_reset_lag last now threshold = if last == 0 then true else ltb threshold (now - last)

-- The trace of a commit.
abbrev pub is_commit : Metric → Bool
is_commit (offset_committed partition offset) = true
is_commit _ = false
