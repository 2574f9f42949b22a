-- ===== src/Cache/Rehydrate.antt =====
-- internal/infrastructure/cache/rehydrate.go: at the start of a process, the keys of each ticket type of
-- each available event are written where they are missing. The answers of the advisory lock are a
-- parameter. The counts of the final log line and the times to live are left out.
use booking_monitor.Prelude.{ℕ, Bool, true, false, Option, none, some, List, [], ◌∷◌, if◌then◌else◌}
use booking_monitor.Prelude.Int.{ℤ, ltb_ℤ}
use booking_monitor.Domain.Errors.{Result, ok, err}
use booking_monitor.Domain.Event.{Event}
use booking_monitor.Domain.TicketType.{TicketType}
use booking_monitor.Application.Metrics.{inventory_rehydrate_drift}
use booking_monitor.Store.Redis.{Redis}
use booking_monitor.Store.Exec.{
  M, pure, attempt, emit, of_result, ◌>>=◌, ◌>>◌, pool, run_script, ask,
}
use booking_monitor.Store.TicketTypes.{list_by_event_id}
use booking_monitor.Store.Events.{list_available}
use booking_monitor.Cache.Deduct.{Formats, set_quantity}
use booking_monitor.Cache.Inventory.{set_ticket_type_metadata}
use booking_monitor.Relay.{Lock}

-- `EXPIRE`, which leaves the value.
abbrev pub expire : M (Unit {0})
expire = run_script (λ c. (ok tt, c))

abbrev pub set_if_missing : ℕ → ℤ → Option ℤ → Redis → Result Bool × Redis
set_if_missing id n none c = (ok true, record c { quantity = set_quantity id n c.quantity })
set_if_missing id n (some x) c = (ok false, c)

-- `SETNX`: whether it has set the key.
unfoldable pub set_nx : ℕ → ℤ → M Bool
set_nx id n = run_script (λ c. set_if_missing id n (c.quantity id) c)

unfoldable pub get_count : ℕ → M (Option ℤ)
get_count id = run_script (λ c. (ok (c.quantity id), c))

-- A count above that of the row is only reported.
abbrev pub drift_check : TicketType → Result (Option ℤ) → M (Unit {0})
drift_check t (ok (some existing)) =
    if ltb_ℤ t.available_tickets existing then emit inventory_rehydrate_drift else pure tt
drift_check t (ok none) = pure tt
drift_check t (err e) = pure tt

abbrev pub already_there : TicketType → Bool → M (Unit {0})
already_there t true = pure tt
already_there t false = attempt (get_count t.id) >>= drift_check t

unfoldable pub seed_one : Formats → TicketType → M (Unit {0})
seed_one fmt t =
    set_ticket_type_metadata fmt t
    >> (expire >> (set_nx t.id t.available_tickets >>= already_there t))

unfoldable pub seed_types : Formats → List TicketType → M (Unit {0})
seed_types fmt [] = pure tt
seed_types fmt (t ∷ ts) = seed_one fmt t >> seed_types fmt ts

unfoldable pub seed_events : Formats → List Event → M (Unit {0})
seed_events fmt [] = pure tt
seed_events fmt (e ∷ es) = list_by_event_id pool e.id >>= seed_types fmt >> seed_events fmt es

unfoldable pub rehydrate_body : Formats → M (Unit {0})
rehydrate_body fmt = list_available pool >>= seed_events fmt

-- The lock is released whatever the body answers.
abbrev pub locked : Lock → M (Unit {0}) → Bool → M (Unit {0})
locked lock body false = pure tt
locked lock body true = attempt body >>= λ r. attempt (ask lock.unlock) >> of_result r

unfoldable pub rehydrate_inventory : Lock → Formats → M (Unit {0})
rehydrate_inventory lock fmt = ask lock.try_lock >>= locked lock (rehydrate_body fmt)
