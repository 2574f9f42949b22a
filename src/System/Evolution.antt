-- ===== src/System/Evolution.antt =====
-- The orders over any sequence of calls of the services.
use booking_monitor.Prelude.{ℕ, ◌≡◌, some, List, [], ◌∷◌}
use booking_monitor.Domain.Order.{Order}
use booking_monitor.Store.Db.{find_order}
use booking_monitor.Store.Exec.{Schedule, World}
use booking_monitor.Store.Keeps.{Keeps-Achieves, Obeys}
use booking_monitor.Store.Evolves.{Evolves, Evolves-Preorder, Later}
use booking_monitor.Store.Calls.Bookings.{Evolves-Laws}
use booking_monitor.Payment.Evolution.{create_payment_intent-Keeps, handle_webhook-Keeps}
use booking_monitor.Recon
use booking_monitor.Expiry.Evolution.{sweep-Keeps}
use booking_monitor.Saga.Evolution.{handle_order_failed-Keeps, compensation_body-Keeps}
use booking_monitor.Worker.Evolution.{process-Keeps}
use booking_monitor.System.{
  Env, Call, pays, webhook, sweeps, reconciles, order_failed, books, perform, run,
}

perform-Evolves :
    (env : Env) (c : Call) (s : Schedule)
    → Obeys Evolves s
    → (w : World) → Evolves w.db (perform env c s w).db
unfolding perform
perform-Evolves env (pays id) s o w =
    (create_payment_intent-Keeps Evolves-Laws env.gateway id).at s o w
perform-Evolves env (webhook e) s o w =
    (handle_webhook-Keeps Evolves-Laws env.parse_uuid env.live_mode e).at s o w
perform-Evolves env sweeps s o w = (sweep-Keeps Evolves-Laws env.expiry).at s o w
perform-Evolves env reconciles s o w =
    (Recon.Evolution.sweep-Keeps Evolves-Laws env.status_of env.recon).at s o w
perform-Evolves env (order_failed p) s o w =
    (handle_order_failed-Keeps Evolves-Laws p
        (λ ev e. Keeps-Achieves Evolves-Preorder _ (compensation_body-Keeps ev))).at
      s o w
perform-Evolves env (books msg) s o w = (process-Keeps env.lower msg).at s o w

run-Evolves :
    (env : Env) (cs : List Call) (s : Schedule)
    → Obeys Evolves s
    → (w : World) → Evolves w.db (run env cs s w).db
unfolding run
run-Evolves env [] s o w = Evolves-Preorder.reflexive w.db
run-Evolves env (c ∷ cs) s o w =
    Evolves-Preorder.transitive _ _ _ (perform-Evolves env c s o w)
      (run-Evolves env cs s o (perform env c s w))

-- Over any sequence of calls of the services, with any failures of the calls they make, and beside
-- any other processes that let the orders evolve in the same way, every order that was there is
-- still there, with what was booked as it was, and with a status that a path of legal transitions
-- leads to.
pub run-Later :
    (env : Env) (cs : List Call) (s : Schedule)
    → Obeys Evolves s
    → (w : World) (id : ℕ) (o : Order) → find_order id w.db ≡ some o
    → Later o (run env cs s w).db
run-Later env cs s obeys w id o found = run-Evolves env cs s obeys w id o found
