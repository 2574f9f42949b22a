-- ===== src/Tests/Stock.antt =====
-- Concrete inputs for the stock in the tables and in Redis, and for the rows.
use booking_monitor.Prelude.{
  ℕ, ◌≡◌, ◌≢◌, ◌⊎◌, inl, inr, refl, true, [], ◌∷◌, ◌==◌, Bool-cases, Memᴰ, order_by, select,
  order_by_desc, arith, some,
}
use booking_monitor.Prelude.Int.{pos}
use booking_monitor.Domain.Errors.{Error, ok, err}
use booking_monitor.Store.Exec.{attempt, ◌>>=◌, pure, exec, run_script, ask, of_result}
use booking_monitor.Store.Db.{select_ticket_types, select_available}
use booking_monitor.Store.TicketTypes.{list_by_event_id}
use booking_monitor.Store.Events.{list_available}
use booking_monitor.Store.Atomicity.{opened}
use booking_monitor.Cache.Inventory.{set_ticket_type_metadata, set_metadata}
use booking_monitor.Cache.Rehydrate.{
  set_nx, get_count, seed_one, seed_types, seed_events, rehydrate_body, rehydrate_inventory,
}
use booking_monitor.Cache.Unwritten.{IsCounted, rehydrate_inventory-IsCounted}
use booking_monitor.Cache.Seeded.{types_of, IsSeeded, rehydrate_inventory-IsSeeded}
use booking_monitor.Expiry.Stage5.{compensate}
use booking_monitor.Expiry.Undone.{Abandoned}
use booking_monitor.Expiry.Abandoned.{compensate-Abandoned}
use booking_monitor.Relay.{Lock}
use booking_monitor.Domain.TicketType.{TicketType}
use booking_monitor.Domain.Currency.{normalize_currency}
use booking_monitor.Store.Rows.{
  order_to_domain, order_row_from_domain, order_to_domain-order_row_from_domain,
  ticket_type_to_domain, ticket_type_row_from_domain,
  ticket_type_to_domain-ticket_type_row_from_domain,
}
use booking_monitor.Domain.Order.{Order}
use booking_monitor.Store.Transaction.{transaction}
use booking_monitor.Booking.Sync
use booking_monitor.Booking.Sync.{booking_body}
use booking_monitor.Booking.Sync.Sold.{Sold, booking_body-Sold}
use booking_monitor.Tests.{vip, concert, reserved, start, calm}
use booking_monitor.Tests.Queue.{plain}
use booking_monitor.Tests.Drift.{on_air}

compensate-Abandoned_example :
    ((e : Error) × ((compensate 1 calm start).0 ≡ err e)
      × ((compensate 1 calm start).1.db ≡ (opened calm start).db))
    ⊎ Abandoned calm start.cache 1 (opened calm start).db (compensate 1 calm start).1
compensate-Abandoned_example = compensate-Abandoned 1 calm start

abbrev leading : Lock
leading = record { try_lock = λ n. ok true; unlock = λ n. ok tt }

rehydrate_inventory-IsCounted_example :
    IsCounted 7 (pos 8) (rehydrate_inventory leading plain calm start).1.cache
rehydrate_inventory-IsCounted_example =
    rehydrate_inventory-IsCounted leading plain 7 (pos 8) calm (λ n c d p. p) start refl

seeded : (rehydrate_inventory leading plain calm on_air).0 ≡ ok tt
unfolding rehydrate_inventory rehydrate_body list_available select_available seed_events
    list_by_event_id select_ticket_types exec seed_types seed_one set_ticket_type_metadata
    set_metadata set_nx get_count run_script ask attempt of_result pure order_by select
    order_by_desc ◌>>=◌
seeded = refl

-- No other row of the tables has the id of `vip`.
vip-Known : (y : TicketType) (k : ℕ) → Memᴰ y (types_of k on_air.db) → (y.id ≢ vip.id) ⊎ (y ≡ vip)
unfolding order_by select
vip-Known y k m = elim (Bool-cases (vip.event_id == k)) [
  | inl own ↦ only (rw own at m)
  | inr other ↦ none_there (rw other at m)
]
  where
    none_there : Memᴰ y [] → (y.id ≢ vip.id) ⊎ (y ≡ vip)
    none_there m = elim m [ ]

    only : Memᴰ y (vip ∷ []) → (y.id ≢ vip.id) ⊎ (y ≡ vip)
    only (Memᴰ.head same) = inr same
    only (Memᴰ.tail m) = none_there m

rehydrate_inventory-IsSeeded_example :
    IsSeeded plain vip on_air.cache (rehydrate_inventory leading plain calm on_air).1.cache
unfolding order_by order_by_desc select
rehydrate_inventory-IsSeeded_example =
    rehydrate_inventory-IsSeeded leading plain calm on_air vip (λ n. refl) (λ n c. refl)
      (λ n c. refl) vip-Known refl seeded concert (Memᴰ.head refl) (Memᴰ.head refl)

abbrev counter : Sync.Config
counter = record { lower = λ t. t; reservation_window = 100 }

abbrev two_seats : Sync.Request
two_seats = record { order_id = 9; user_id = pos 6; ticket_type_id = 7; quantity = pos 2 }

booking_body-Sold_example :
    let d = (opened calm start).db in
    let (answer, w') = transaction (booking_body counter two_seats) calm start in
    ((e : Error) × (answer ≡ err e) × (w'.db ≡ d))
    ⊎ ((o : Order) × ((b : Order) → answer ≡ ok b → b ≡ o) × Sold two_seats d o w'.db)
booking_body-Sold_example = booking_body-Sold counter two_seats calm start

order_to_domain-order_row_from_domain_example :
    order_to_domain (order_row_from_domain reserved) ≡ reserved
order_to_domain-order_row_from_domain_example =
    order_to_domain-order_row_from_domain reserved (ground arith)

-- A ticket type with a limit for each user.
abbrev limited : TicketType
limited = record vip { per_user_limit = some (pos 4) }

ticket_type_to_domain-ticket_type_row_from_domain_example :
    ticket_type_to_domain (λ t. t) (ticket_type_row_from_domain limited) ≡ limited
unfolding normalize_currency
ticket_type_to_domain-ticket_type_row_from_domain_example =
    ticket_type_to_domain-ticket_type_row_from_domain (λ t. t) limited refl (omega arith)
