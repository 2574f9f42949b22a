-- ===== src/Cache/Keeps.antt =====
-- What the steps of internal/infrastructure/cache/rehydrate.go keep.
use booking_monitor.Prelude.{
  ℕ, ◌≡◌, refl, sym, subst, Bool, true, false, Option, none, some, List, [], ◌∷◌, Memᴰ,
  if◌then◌else◌,
}
use booking_monitor.Prelude.Int.{ℤ, ltb_ℤ}
use booking_monitor.Domain.Errors.{Result, ok, err}
use booking_monitor.Domain.Event.{Event}
use booking_monitor.Domain.TicketType.{TicketType}
use booking_monitor.Application.Metrics.{inventory_rehydrate_drift}
use booking_monitor.Store.Db.{Db, Stmt, select_ticket_types, select_available}
use booking_monitor.Store.Redis.{Redis}
use booking_monitor.Store.Exec.{
  Outcome, done, refused, cancelled, lost, settle, Schedule, M, pure, emit, ◌>>=◌, pool, exec, ask,
}
use booking_monitor.Store.Triples.{
  Pre, Kept, Triple, Triple-pure, Triple-of_result, Triple-run_script, Triple-bind, Triple-try,
  Triple-emit,
}
use booking_monitor.Store.TicketTypes.{list_by_event_id}
use booking_monitor.Store.Events.{list_available}
use booking_monitor.Cache.Deduct.{Formats}
use booking_monitor.Cache.Inventory.{set_ticket_type_metadata, set_metadata}
use booking_monitor.Relay.{Lock}
use booking_monitor.Cache.Rehydrate.{
  expire, set_if_missing, set_nx, get_count, drift_check, already_there, seed_one, seed_types,
  seed_events, rehydrate_body, locked, rehydrate_inventory,
}

pub settle-reads :
    {A : Type 0} (o : Outcome) (d : Db) (p : Result A × Db) → p.1 ≡ d → (settle o d p).1 ≡ d
settle-reads done d p e = e
settle-reads refused d p e = refl
settle-reads cancelled d p e = refl
settle-reads lost d p e = e

-- What the other processes and the commands of the rehydration keep, for the ticket types of `Row`.
pub record IsStable (s : Schedule) (fmt : Formats) (Row : TicketType → Type 0) (P : Pre)
    : Type 0 where
  pub cache : Kept s P
  pub tables : (n : ℕ) (c : Redis) (d : Db) → P c d → P c ((s n).interferes d)
  pub metadata :
      (t : TicketType) → Row t → (c : Redis) (d : Db) → P c d → P (set_metadata fmt t c) d
  pub seeding :
      (t : TicketType)
      → Row t
      → (c : Redis) (d : Db) → P c d
      → P (set_if_missing t.id t.available_tickets (c.quantity t.id) c).1 d

-- Such a statement holds at the end of each step if it held at its start.
module _ (s : Schedule) (fmt : Formats) (Row : TicketType → Type 0) (P : Pre)
    (stable : IsStable s fmt Row P) where
  abbrev Holds : {A : Type 0} → M A → Type 0
  Holds m = Triple s P m (λ r c d. P c d)

  then_ :
      {A B : Type 0} {m : M A} {f : A → M B} → Holds m → ((a : A) → Holds (f a)) → Holds (m >>= f)
  then_ h k = Triple-bind h k (λ e c d p. p)

  pub metadata-Holds : (t : TicketType) → Row t → Holds (set_ticket_type_metadata fmt t)
  unfolding set_ticket_type_metadata
  metadata-Holds t row =
      Triple-run_script _ stable.cache (stable.metadata t row) (λ e. stable.metadata t row)
        (λ e c d p. p)

  pub expire-Holds : Holds expire
  expire-Holds = Triple-run_script _ stable.cache (λ c d p. p) (λ e c d p. p) (λ e c d p. p)

  pub set_nx-Holds : (t : TicketType) → Row t → Holds (set_nx t.id t.available_tickets)
  unfolding set_nx
  set_nx-Holds t row =
      Triple-run_script _ stable.cache (stable.seeding t row) (λ e. stable.seeding t row)
        (λ e c d p. p)

  drift_check-Holds : (t : TicketType) (r : Result (Option ℤ)) → Holds (drift_check t r)
  drift_check-Holds t (ok none) = Triple-pure tt (λ c d p. p)
  drift_check-Holds t (err e) = Triple-pure tt (λ c d p. p)
  drift_check-Holds t (ok (some existing)) = reported (ltb_ℤ t.available_tickets existing)
    where
      reported : (b : Bool) → Holds (if b then emit inventory_rehydrate_drift else pure tt)
      reported true = Triple-emit inventory_rehydrate_drift
      reported false = Triple-pure tt (λ c d p. p)

  get_count-Holds : (id : ℕ) → Holds (get_count id)
  unfolding get_count
  get_count-Holds id = Triple-run_script _ stable.cache (λ c d p. p) (λ e c d p. p) (λ e c d p. p)

  pub already_there-Holds : (t : TicketType) (b : Bool) → Holds (already_there t b)
  already_there-Holds t true = Triple-pure tt (λ c d p. p)
  already_there-Holds t false = Triple-try (get_count-Holds t.id) (drift_check-Holds t)

  pub seed_one-Holds : (t : TicketType) → Row t → Holds (seed_one fmt t)
  unfolding seed_one
  seed_one-Holds t row =
      then_ (metadata-Holds t row)
        (λ u. then_ expire-Holds (λ v. then_ (set_nx-Holds t row) (already_there-Holds t)))

  pub seed_types-Holds :
      (ts : List TicketType) → ((t : TicketType) → Memᴰ t ts → Row t) → Holds (seed_types fmt ts)
  unfolding seed_types
  seed_types-Holds [] rows = Triple-pure tt (λ c d p. p)
  seed_types-Holds (t ∷ ts) rows =
      then_ (seed_one-Holds t (rows t (Memᴰ.head refl)))
        (λ u. seed_types-Holds ts (λ y m. rows y (Memᴰ.tail m)))

  -- A statement that changes no table.
  exec-Holds :
      {A : Type 0} (q : Stmt A) → ((now : ℕ) (d : Db) → (q now d).1 ≡ d) → Holds (exec pool q)
  unfolding exec
  exec-Holds q reads = record {
    at = λ w p.
        subst (P w.cache)
          (sym (
            settle-reads (s w.tick).outcome _ (q (s w.tick).db_now ((s w.tick).interferes w.db))
              (reads (s w.tick).db_now _)))
          (stable.tables w.tick w.cache w.db p);
  }

  -- Where every ticket type is in `Row`.
  module _ (every : (t : TicketType) → Row t) where
    seed_event-Holds : (e : Event) → Holds (list_by_event_id pool e.id >>= seed_types fmt)
    unfolding list_by_event_id select_ticket_types
    seed_event-Holds e =
        then_ (exec-Holds (select_ticket_types e.id) (λ now d. refl))
          (λ ts. seed_types-Holds ts (λ t m. every t))

    seed_events-Holds : (es : List Event) → Holds (seed_events fmt es)
    unfolding seed_events
    seed_events-Holds [] = Triple-pure tt (λ c d p. p)
    seed_events-Holds (e ∷ es) = then_ (seed_event-Holds e) (λ u. seed_events-Holds es)

    rehydrate_body-Holds : Holds (rehydrate_body fmt)
    unfolding rehydrate_body list_available select_available
    rehydrate_body-Holds = then_ (exec-Holds select_available (λ now d. refl)) seed_events-Holds

    ask-Holds : {A : Type 0} (f : ℕ → Result A) → Holds (ask f)
    unfolding ask
    ask-Holds f = record { at = λ w p. p }

    locked-Holds : (lock : Lock) (b : Bool) → Holds (locked lock (rehydrate_body fmt) b)
    locked-Holds lock false = Triple-pure tt (λ c d p. p)
    locked-Holds lock true =
        Triple-try rehydrate_body-Holds
          (λ r. Triple-try (ask-Holds lock.unlock) (λ u. Triple-of_result r (λ c d p. p)))

    pub rehydrate_inventory-Holds : (lock : Lock) → Holds (rehydrate_inventory lock fmt)
    unfolding rehydrate_inventory
    rehydrate_inventory-Holds lock = then_ (ask-Holds lock.try_lock) (locked-Holds lock)
