-- ===== src/Recon/Drift/Untouched.antt =====
-- What the drift detector does to the counts of the tickets in Redis.
use booking_monitor.Prelude.{
  ℕ, suc, ◌≡◌, Bool, true, false, Option, List, [], ◌∷◌, if◌then◌else◌, not, ◌&&◌,
}
use booking_monitor.Prelude.Int.{ℤ, pos, ◌-ℤ◌, nonpositive, ltb_ℤ}
use booking_monitor.Domain.Errors.{Result, ok, err, context_done, is_context_done}
use booking_monitor.Domain.Event.{Event}
use booking_monitor.Domain.TicketType.{TicketType}
use booking_monitor.Application.Metrics.{
  Metric, Direction, cache_high, cache_low_excess, drifted_events, drift_detected,
  list_events_error, cache_read_error, auto_rehydrated, auto_rehydrate_error,
}
use booking_monitor.Store.Db.{Stmt, select_ticket_types, select_available}
use booking_monitor.Store.Exec.{
  Schedule, World, M, pure, raise, attempt, emit, ◌>>=◌, ◌>>◌, pool, exec,
}
use booking_monitor.Store.Triples.{
  Pre, Kept, Triple, Triple-pure, Triple-raise, Triple-run_script, Triple-bind, Triple-try,
  Triple-emit, Triple-is_cancelled,
}
use booking_monitor.Store.TicketTypes.{list_by_event_id}
use booking_monitor.Store.Events.{list_available}
use booking_monitor.Cache.Inventory.{get_inventory, set_ticket_type_metadata, set_metadata}
use booking_monitor.Recon.Drift.{
  DriftConfig, CheckOutcome, drifted, skipped, clean, rehydrate_result, auto_rehydrate, missing,
  compare, judge, check_ticket_type, worse, worst_of, listed, check_one, is_drifted, check_all,
  events_result, sweep_drift,
}

abbrev pub IsCount : ℕ → Option ℤ → Pre
IsCount id n c d = c.quantity id ≡ n

module _ (cfg : DriftConfig) (id : ℕ) (n : Option ℤ) (s : Schedule)
    (kept : Kept s (IsCount id n)) where
  abbrev Leaves : {A : Type 0} → M A → Type 0
  Leaves m = Triple s (IsCount id n) m (λ r c d. IsCount id n c d)

  then_ :
      {A B : Type 0} {m : M A} {f : A → M B}
      → Leaves m
      → ((a : A) → Leaves (f a))
      → Leaves (m >>= f)
  then_ h k = Triple-bind h k (λ e c d p. p)

  tried :
      {A B : Type 0} {m : M A} {f : Result A → M B}
      → Leaves m
      → ((r : Result A) → Leaves (f r))
      → Leaves (attempt m >>= f)
  tried h k = Triple-try h k

  gives : {A : Type 0} (a : A) → Leaves (pure a)
  gives a = Triple-pure a (λ c d p. p)

  fails : {A : Type 0} → Leaves (raise {A = A} context_done)
  fails = Triple-raise context_done (λ c d p. p)

  either : {A : Type 0} (b : Bool) (f g : M A) → Leaves f → Leaves g → Leaves (if b then f else g)
  either true f g hf hg = hf
  either false f g hf hg = hg

  flag-Leaves : (x : Metric) → Leaves (emit x >> pure drifted)
  flag-Leaves x = then_ (Triple-emit x) (λ u. gives drifted)

  skip-Leaves : (x : Metric) → Leaves (emit x >> pure skipped)
  skip-Leaves x = then_ (Triple-emit x) (λ u. gives skipped)

  metadata-Leaves : (t : TicketType) → Leaves (set_ticket_type_metadata cfg.formats t)
  unfolding set_ticket_type_metadata set_metadata
  metadata-Leaves t = Triple-run_script _ kept (λ c d p. p) (λ e c d p. p) (λ e c d p. p)

  get_inventory-Leaves : (k : ℕ) → Leaves (get_inventory k)
  unfolding get_inventory
  get_inventory-Leaves k = Triple-run_script _ kept (λ c d p. p) (λ e c d p. p) (λ e c d p. p)

  rehydrate_result-Leaves : (r : Result (Unit {0})) → Leaves (rehydrate_result r)
  unfolding rehydrate_result
  rehydrate_result-Leaves (ok _) = Triple-emit auto_rehydrated
  rehydrate_result-Leaves (err e) = Triple-emit auto_rehydrate_error

  missing-Leaves : (t : TicketType) → Leaves (missing cfg t)
  unfolding missing auto_rehydrate
  missing-Leaves t = then_ (Triple-emit (drift_detected Direction.cache_missing)) (λ u.
      then_
        (either cfg.auto_rehydrate _ _ (tried (metadata-Leaves t) rehydrate_result-Leaves)
          (gives tt))
        (λ v. gives drifted))

  compare-Leaves : (t : TicketType) (drift : ℤ) → Leaves (compare cfg t drift)
  unfolding compare
  compare-Leaves t drift =
      either (ltb_ℤ drift (pos 0)) _ _ (flag-Leaves (drift_detected cache_high)) (
        either (ltb_ℤ cfg.absolute_tolerance drift) _ _
          (flag-Leaves (drift_detected cache_low_excess)) (gives clean))

  judge-Leaves : (t : TicketType) (r : Result (ℤ × Bool)) → Leaves (judge cfg t r)
  unfolding judge
  judge-Leaves t (err e) =
      either (is_context_done e) _ _ (gives clean) (skip-Leaves cache_read_error)
  judge-Leaves t (ok (q, found)) =
      either (not found && not (nonpositive t.available_tickets)) _ _ (missing-Leaves t)
        (compare-Leaves t (t.available_tickets -ℤ q))

  worst_of-Leaves : (worst : CheckOutcome) (ts : List TicketType) → Leaves (worst_of cfg worst ts)
  unfolding worst_of check_ticket_type
  worst_of-Leaves worst [] = gives worst
  worst_of-Leaves worst (t ∷ ts) =
      then_ (tried (get_inventory-Leaves t.id) (judge-Leaves t))
        (λ outcome. worst_of-Leaves (worse worst outcome) ts)

  listed-Leaves : (r : Result (List TicketType)) → Leaves (listed cfg r)
  unfolding listed
  listed-Leaves (err e) = skip-Leaves cache_read_error
  listed-Leaves (ok ts) = worst_of-Leaves clean ts

  exec-Leaves : {A : Type 0} (q : Stmt A) → Leaves (exec pool q)
  unfolding exec
  exec-Leaves q = record { at = λ w p. p }

  check_one-Leaves : (e : Event) → Leaves (check_one cfg e)
  unfolding check_one list_by_event_id
  check_one-Leaves e = tried (exec-Leaves (select_ticket_types e.id)) listed-Leaves

  check_all-Leaves : (count : ℕ) (es : List Event) → Leaves (check_all cfg count es)
  unfolding check_all
  check_all-Leaves count [] = gives count
  check_all-Leaves count (e ∷ es) =
      let rest : Leaves (
          check_one cfg e >>= λ outcome.
          check_all cfg (if is_drifted outcome then suc count else count) es) =
        then_ (check_one-Leaves e) (λ outcome. check_all-Leaves _ es) in
      then_ Triple-is_cancelled (λ stop. either stop _ _ fails rest)

  events_result-Leaves : (r : Result (List Event)) → Leaves (events_result cfg r)
  unfolding events_result
  events_result-Leaves (err e) =
      then_ (Triple-emit (drifted_events 0))
        (λ u. then_ (Triple-emit list_events_error) (λ v. Triple-raise e (λ c d p. p)))
  events_result-Leaves (ok []) = Triple-emit (drifted_events 0)
  events_result-Leaves (ok (e ∷ es)) =
      then_ (check_all-Leaves 0 (e ∷ es)) (λ count. Triple-emit (drifted_events count))

  sweep_drift-Leaves : Leaves (sweep_drift cfg)
  unfolding sweep_drift list_available
  sweep_drift-Leaves = tried (exec-Leaves select_available) events_result-Leaves

-- The drift detector never changes a count in Redis: whatever it finds and whatever fails, with the
-- rehydration or without it, a sweep leaves the count of a ticket type, or its absence, as it was,
-- where the other processes leave that count alone.
pub sweep_drift-IsCount :
    (cfg : DriftConfig) (id : ℕ) (n : Option ℤ) (s : Schedule)
    → Kept s (IsCount id n)
    → (w : World) → IsCount id n w.cache w.db
    → IsCount id n (sweep_drift cfg s w).1.cache (sweep_drift cfg s w).1.db
sweep_drift-IsCount cfg id n s kept w p = (sweep_drift-Leaves cfg id n s kept).at w p
