-- ===== src/EventService/Launch.antt =====
-- What `CreateEvent` of internal/application/event/service.go leaves in the tables and in Redis.
use booking_monitor.Prelude.{
  ℕ, ◌≡◌, refl, sym, ap, subst, ==_iff, ◌∙◌, true, none, some, [], ◌∷◌, ◌==◌, arith,
}
use booking_monitor.Prelude.Int.{ℤ}
use booking_monitor.Domain.Errors.{Error, Result, ok, err}
use booking_monitor.Domain.Currency.{Text}
use booking_monitor.Domain.Event.{Event, new_event}
use booking_monitor.Domain.TicketType.{TicketType, new_ticket_type}
use booking_monitor.Store.Db.{Db}
use booking_monitor.Store.Redis.{Redis}
use booking_monitor.Store.Exec.{
  Outcome, done, refused, cancelled, lost, Schedule, World, pure, raise, attempt, of_result, ◌>>=◌,
  do_uow, run_script, settle_cache,
}
use booking_monitor.Store.Answers.{bind-ok}
use booking_monitor.Store.Atomicity.{opened, do_uow-ok}
use booking_monitor.Cache.Deduct.{set_quantity}
use booking_monitor.Cache.Inventory.{
  set_ticket_type_runtime, set_runtime, set_metadata, metadata_of,
}
use booking_monitor.EventService.{
  Config, CreateEventResult, create_body, compensate_dangling_event, compensated,
  default_ticket_type_name, runtime_result, install, create_event,
}
use booking_monitor.EventService.Rows.{BothAdded, create_body-Yields}

-- An event and its ticket type that are on sale: their rows were added together, and Redis has the
-- count and the metadata of the ticket type.
pub record OnSale (cfg : Config) (e : Event) (t : TicketType) (w : World) : Type 0 where
  pub before : Db
  pub rows : BothAdded e t before w.db
  pub counted : w.cache.quantity t.id ≡ some t.available_tickets
  pub described : w.cache.metadata t.id ≡ metadata_of cfg.formats t

module _ (cfg : Config) (e : Event) (t : TicketType) (s : Schedule) where
  compensated-fails :
      (x : Error) (r : Result (Unit {0})) (w : World) (c : CreateEventResult)
      → (compensated x r s w).0 ≡ ok c
      → ⊥
  unfolding compensated raise
  compensated-fails x (ok _) w c h = cc
  compensated-fails x (err y) w c h = cc

  runtime_written :
      (r : Result (Unit {0})) (w : World) (c : CreateEventResult)
      → (runtime_result e t r s w).0 ≡ ok c
      → (r ≡ ok tt)
        × (c ≡ record { event = e; ticket_types = t ∷ [] })
        × ((runtime_result e t r s w).1 ≡ w)
  unfolding runtime_result pure attempt ◌>>=◌
  runtime_written (ok _) w c h = (refl, ground arith, refl)
  runtime_written (err x) w c h = absurd (
      compensated-fails x (compensate_dangling_event e.id t.id s w).0
        (compensate_dangling_event e.id t.id s w).1 c h)

  runtime-OnSale :
      (o : Outcome) (r : Redis)
      → (settle_cache o r (ok tt, set_runtime cfg.formats t r)).0 ≡ ok tt
      → ((settle_cache o r (ok tt, set_runtime cfg.formats t r)).1.quantity t.id
          ≡ some t.available_tickets)
        × ((settle_cache o r (ok tt, set_runtime cfg.formats t r)).1.metadata t.id
            ≡ metadata_of cfg.formats t)
  unfolding set_runtime set_metadata set_quantity
  runtime-OnSale done r h = (rw same refl, rw same refl)
    where
      same : (t.id == t.id) ≡ true
      same = (==_iff t.id t.id).1 refl
  runtime-OnSale refused r h = absurd cc
  runtime-OnSale cancelled r h = absurd cc
  runtime-OnSale lost r h = absurd cc

  written-OnSale :
      (w : World) (d : Db)
      → BothAdded e t d w.db
      → (set_ticket_type_runtime cfg.formats t s w).0 ≡ ok tt
      → OnSale cfg e t (set_ticket_type_runtime cfg.formats t s w).1
  unfolding set_ticket_type_runtime run_script
  written-OnSale w d rows h =
      let (counted, described) =
        runtime-OnSale (s w.tick).outcome ((s w.tick).interferes_cache w.cache) h in
      record { before = d; rows = rows; counted = counted; described = described }

  install-OnSale :
      (w : World) (c : CreateEventResult) (d : Db)
      → BothAdded e t d w.db
      → (install cfg (e, t) s w).0 ≡ ok c
      → (c ≡ record { event = e; ticket_types = t ∷ [] })
        × OnSale cfg e t (install cfg (e, t) s w).1
  unfolding install attempt ◌>>=◌
  install-OnSale w c d rows h =
      let w' : World = (set_ticket_type_runtime cfg.formats t s w).1 in
      let (written, answer, same) =
        runtime_written (set_ticket_type_runtime cfg.formats t s w).0 w' c h in
      (answer, subst (λ x. OnSale cfg e t x) (sym same) (written-OnSale w d rows written))

  -- From the unit of work on.
  created-OnSale :
      (w : World) (c : CreateEventResult)
      → ((do_uow (create_body e t) >>= install cfg) s w).0 ≡ ok c
      → (c ≡ record { event = e; ticket_types = t ∷ [] })
        × OnSale cfg e t ((do_uow (create_body e t) >>= install cfg) s w).1
  created-OnSale w c h =
      let (made, succeeded, rest, same) =
        bind-ok (do_uow (create_body e t)) (install cfg) s w c h in
      let (in_body, same_db) = do_uow-ok (create_body e t) s w made succeeded in
      let (pair, rows) = (create_body-Yields e t).at s (opened s w) made in_body in
      let w' : World = (do_uow (create_body e t) s w).1 in
      let done_well =
        install-OnSale w' c (opened s w).db (same_db ∙ rows)
          (subst (λ p. (install cfg p s w').0 ≡ ok c) pair rest) in
      (
        done_well.0,
        subst (λ x. OnSale cfg e t x) (sym (same ∙ ap (λ p. (install cfg p s w').1) pair))
            done_well.1,
      )

-- `NewEvent` and `NewTicketType` of the default type.
abbrev pub Made : Config → Text → ℤ → ℤ → Text → Event → TicketType → Type 0
Made cfg name total price currency e t =
    (t.event_id ≡ e.id)
    × (e.name ≡ name)
    × (e.available_tickets ≡ total)
    × (t.available_tickets ≡ total)
    × (t.price_cents ≡ price)

new_event-facts :
    (trim : Text → Text) (new_id : Result ℕ) (name : Text) (total : ℤ) (e : Event)
    → new_event trim new_id name total ≡ ok e
    → (e.name ≡ name) × (e.available_tickets ≡ total)
unfolding new_event
new_event-facts trim (ok id) name total e h = (ground arith, ground arith)
new_event-facts trim (err x) name total e h = (ground arith, ground arith)

new_ticket_type-facts :
    (cfg : Config) (id event : ℕ) (price : ℤ) (currency : Text) (total : ℤ) (t : TicketType)
    → new_ticket_type cfg.lower cfg.trim id event default_ticket_type_name price currency total none
        none none []
      ≡ ok t
    → (t.event_id ≡ event) × (t.available_tickets ≡ total) × (t.price_cents ≡ price)
unfolding new_ticket_type
new_ticket_type-facts cfg id event price currency total t h =
    (ground arith, ground arith, ground arith)

-- Where `CreateEvent` reports success, the event and its default ticket type are on sale: the ticket
-- type is the event's, both have all the tickets that were asked for, their rows were added to the
-- tables together, and Redis has the count and the metadata of the ticket type, whatever the other
-- processes do before each call.
pub create_event-OnSale :
    (cfg : Config) (name : Text) (total price : ℤ) (currency : Text) (s : Schedule) (w : World)
    (c : CreateEventResult)
    → (create_event cfg name total price currency s w).0 ≡ ok c
    → (e : Event) × (t : TicketType) × (c ≡ record { event = e; ticket_types = t ∷ [] })
      × Made cfg name total price currency e t
      × OnSale cfg e t (create_event cfg name total price currency s w).1
unfolding create_event of_result
create_event-OnSale cfg name total price currency s w c h =
    let (new_id, drawn, h1, same1) = bind-ok _ _ s w c h in
    let (e, made_e, h2, same2) = bind-ok _ _ s _ c h1 in
    let (tt_id, drawn2, h3, same3) = bind-ok _ _ s _ c h2 in
    let (t, made_t, h4, same4) = bind-ok _ _ s _ c h3 in
    let (answer, sale) = created-OnSale cfg e t s _ c h4 in
    let (named, all) = new_event-facts cfg.trim new_id name total e made_e in
    let (owned, left, priced) =
      new_ticket_type-facts cfg tt_id e.id price currency total t made_t in
    (
      e,
      t,
      answer,
      (owned, named, all, left, priced),
      subst (λ x. OnSale cfg e t x) (sym (same1 ∙ same2 ∙ same3 ∙ same4)) sale,
    )
