-- ===== src/System.antt =====
-- The services together: any sequence of requests, messages and sweeps, run by this process while
-- the schedule's other processes run theirs.
pub mod Evolution
pub mod Inventory
use booking_monitor.Prelude.{ℕ, Bool, Option, List, [], ◌∷◌}
use booking_monitor.Domain.Errors.{Result}
use booking_monitor.Domain.Currency.{Text}
use booking_monitor.Application.Events.{OrderFailedEvent}
use booking_monitor.Store.Exec.{M, Schedule, World}
use booking_monitor.Payment.Service.{Gateway, create_payment_intent, PaymentIntent}
use booking_monitor.Payment.Webhook.{Envelope, handle_webhook}
use booking_monitor.Expiry.Sweeper
use booking_monitor.Expiry.Sweeper.{sweep}
use booking_monitor.Recon.Reconciler
use booking_monitor.Saga.Compensator.{handle_order_failed}
use booking_monitor.Worker.Processor.{Message, process}

-- What a process is given: the external functions and its configuration.
pub record Env : Type 0 where
  pub gateway : Gateway
  pub lower : Text → Text
  pub parse_uuid : Text → Option ℕ
  pub live_mode : Bool
  pub expiry : Sweeper.Config
  pub status_of : Reconciler.StatusReader
  pub recon : Reconciler.Config

pub data Call : Type 0 where
  pays : ℕ → Call
  webhook : Envelope → Call
  sweeps : Call
  reconciles : Call
  order_failed : Option OrderFailedEvent → Call
  books : Message → Call

-- The stores after a call; its answer goes to the caller.
unfoldable pub after : {A : Type 0} → M A → Schedule → World → World
after m s w = (m s w).1

unfoldable pub perform : Env → Call → Schedule → World → World
unfolding after
perform env (pays id) = after (create_payment_intent env.gateway id)
perform env (webhook e) = after (handle_webhook env.parse_uuid env.live_mode e)
perform env sweeps = after (sweep env.expiry)
perform env reconciles = after (Reconciler.sweep env.status_of env.recon)
perform env (order_failed ev) = after (handle_order_failed ev)
perform env (books msg) = after (process env.lower msg)

unfoldable pub run : Env → List Call → Schedule → World → World
run env [] s w = w
run env (c ∷ cs) s w = run env cs s (perform env c s w)
