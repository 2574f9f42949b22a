-- ===== src/System/Inventory.antt =====
-- The tickets over any sequence of calls of the services.
use booking_monitor.Prelude.{ℕ, ◌≡◌, List, [], ◌∷◌, arith}
use booking_monitor.Prelude.Int.{ℤ, pos, ◌+ℤ◌, ◌≤ℤ◌, +ℤ_parts}
use booking_monitor.Store.Db.{Db}
use booking_monitor.Store.Exec.{Schedule, World}
use booking_monitor.Store.Keeps.{Obeys}
use booking_monitor.Store.Stock.{held, available, total, balance}
use booking_monitor.Payment.Evolution.{create_payment_intent-Keeps, handle_webhook-Keeps}
use booking_monitor.Recon
use booking_monitor.Expiry.Evolution.{sweep-Keeps}
use booking_monitor.Saga.Delivery.{Honest, Honest-Preorder, Honest-Laws, Genuine, delivery-Honest}
use booking_monitor.Worker.Evolution
use booking_monitor.Worker.Conservation
use booking_monitor.System.{
  Env, Call, pays, webhook, sweeps, reconciles, order_failed, books, perform, run,
}

-- What a call may be given: an `order.failed` message is about an order that is there, with its
-- ticket type and its quantity.
abbrev pub GenuineCall : Call → Db → Type 0
GenuineCall (order_failed p) d = Genuine p d
GenuineCall _ d = Unit {0}

-- Every call of the sequence is genuine at the moment of the call.
unfoldable pub AllGenuine : Env → List Call → Schedule → World → Type 0
AllGenuine env [] s w = Unit {0}
AllGenuine env (c ∷ cs) s w = GenuineCall c w.db × AllGenuine env cs s (perform env c s w)

perform-Honest :
    (env : Env) (c : Call) (s : Schedule)
    → Obeys Honest s
    → (w : World) → GenuineCall c w.db
    → Honest w.db (perform env c s w).db
unfolding perform
perform-Honest env (pays id) s o w g =
    (create_payment_intent-Keeps Honest-Laws env.gateway id).at s o w
perform-Honest env (webhook e) s o w g =
    (handle_webhook-Keeps Honest-Laws env.parse_uuid env.live_mode e).at s o w
perform-Honest env sweeps s o w g = (sweep-Keeps Honest-Laws env.expiry).at s o w
perform-Honest env reconciles s o w g =
    (Recon.Evolution.sweep-Keeps Honest-Laws env.status_of env.recon).at s o w
perform-Honest env (order_failed p) s o w g = delivery-Honest p s o w g
perform-Honest env (books msg) s o w g = (
  (Evolution.process-Keeps env.lower msg).at s (λ n d. (o n d).0) w,
  (Conservation.process-Keeps env.lower msg).at s (λ n d. (o n d).1) w,
)

run-Honest :
    (env : Env) (cs : List Call) (s : Schedule)
    → Obeys Honest s
    → (w : World) → AllGenuine env cs s w
    → Honest w.db (run env cs s w).db
unfolding run AllGenuine
run-Honest env [] s o w g = Honest-Preorder.reflexive w.db
run-Honest env (c ∷ cs) s o w g =
    Honest-Preorder.transitive _ _ _ (perform-Honest env c s o w g.0)
      (run-Honest env cs s o (perform env c s w) g.1)

within_total : (a h b n : ℤ) → pos 0 ≤ℤ a → a +ℤ h ≡ b → b ≤ℤ n → h ≤ℤ n
within_total a h b n na e le = ground (arith, +ℤ_parts a h)

-- Over any sequence of calls of the services, with any failures, beside any other processes that let
-- the orders evolve and keep every balance, and with every `order.failed` message about an order that
-- is there, with its ticket type and quantity: what is left of a ticket type and what the
-- uncompensated orders hold of it make the same sum as before.
pub run-balance :
    (env : Env) (cs : List Call) (s : Schedule)
    → Obeys Honest s
    → (w : World) → AllGenuine env cs s w
    → (t : ℕ) → balance t (run env cs s w).db ≡ balance t w.db
run-balance env cs s o w g t = (run-Honest env cs s o w g).1.same_balance t

-- Over any sequence of calls of the services, with any failures, beside any other processes that let
-- the orders evolve and keep every balance, and with every `order.failed` message about an order that
-- is there, with its ticket type and quantity: where a ticket type starts with a count that is not
-- negative and with no more left and held than its total, the uncompensated orders never hold more
-- than its total, its count does not become negative, and its total stays.
pub run-not_oversold :
    (env : Env) (cs : List Call) (s : Schedule)
    → Obeys Honest s
    → (w : World) → AllGenuine env cs s w
    → (t : ℕ) → pos 0 ≤ℤ available t w.db
    → balance t w.db ≤ℤ total t w.db
    → let d = (run env cs s w).db in
      (pos 0 ≤ℤ available t d) × (held t d.orders ≤ℤ total t d) × (total t d ≡ total t w.db)
unfolding balance
run-not_oversold env cs s o w g t left sound =
    let h = (run-Honest env cs s o w g).1 in
    let d : Db = (run env cs s w).db in
    let left' = h.nonnegative t left in
    (
      left',
      within_total (available t d) (held t d.orders) (balance t w.db) (total t d) left'
          (h.same_balance t) (rw (h.same_total t) sound),
      h.same_total t,
    )
