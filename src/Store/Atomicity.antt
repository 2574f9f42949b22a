-- ===== src/Store/Atomicity.antt =====
-- `PostgresUnitOfWork.Do` of internal/infrastructure/persistence/postgres/uow.go, whatever its body.
use booking_monitor.Prelude.{suc, ◌≡◌, refl, ap, arith, ◌⊎◌, inl, inr}
use booking_monitor.Domain.Errors.{Result, ok, err}
use booking_monitor.Store.Db.{Db}
use booking_monitor.Store.Exec.{
  Outcome, done, refused, cancelled, lost, Turn, Schedule, World, M, ◌>>=◌, begin_tx, answers,
  continue, commit, finish, in_tx, do_uow,
}

-- The world in which the body starts: the other processes have moved, and the transaction is open.
abbrev pub opened : Schedule → World → World
opened s w = record w { db = (s w.tick).interferes w.db; tick = suc w.tick }

-- The body succeeded, and the database is as it left it.
abbrev pub Applied : {A : Type 0} → M A → Schedule → World → Db → Type 0
Applied {A} m s w d = (a : A) × ((m s (opened s w)).0 ≡ ok a) × (d ≡ (m s (opened s w)).1.db)

module _ {A : Type 0} where
  commit_cases :
      (o : Outcome) (a : A) (d : Db) (w : World)
      → ((commit o a d w).1.db ≡ d) ⊎ ((commit o a d w).1.db ≡ w.db)
  commit_cases done a d w = inr refl
  commit_cases refused a d w = inl refl
  commit_cases cancelled a d w = inl refl
  commit_cases lost a d w = inr refl

  finish_cases :
      (d : Db) (t : Turn) (p : Result A × World)
      → ((finish d t p).1.db ≡ d) ⊎ ((a : A) × (p.0 ≡ ok a) × ((finish d t p).1.db ≡ p.1.db))
  finish_cases d t (ok a, w) = elim (commit_cases t.outcome a d (record w { tick = suc w.tick })) [
    | inl undone ↦ inl undone
    | inr kept ↦ inr (a, refl, kept)
  ]
  finish_cases d t (err e, w) = inl refl

  begun_cases :
      (o : Outcome) (m : M A) (s : Schedule) (w : World)
      → let after = continue (answers o) (λ _. in_tx m) s w in
        (after.1.db ≡ w.db) ⊎ ((a : A) × ((m s w).0 ≡ ok a) × (after.1.db ≡ (m s w).1.db))
  begun_cases done m s w = finish_cases w.db (s (m s w).1.tick) (m s w)
  begun_cases refused m s w = inl refl
  begun_cases cancelled m s w = inl refl
  begun_cases lost m s w = inl refl

  -- Whatever fails, the database ends as the transaction found it, or as its successful body left it.
  pub do_uow_atomic :
      (m : M A) (s : Schedule) (w : World)
      → ((do_uow m s w).1.db ≡ (opened s w).db) ⊎ Applied m s w (do_uow m s w).1.db
  unfolding do_uow begin_tx ◌>>=◌
  do_uow_atomic m s w = begun_cases (s w.tick).outcome m s (opened s w)

  commit-ok :
      (o : Outcome) (a b : A) (d : Db) (w : World)
      → (commit o a d w).0 ≡ ok b
      → (a ≡ b) × ((commit o a d w).1.db ≡ w.db)
  commit-ok done a b d w h = (ground arith, refl)
  commit-ok refused a b d w h = cc
  commit-ok cancelled a b d w h = cc
  commit-ok lost a b d w h = cc

  finish-ok :
      (d : Db) (t : Turn) (p : Result A × World) (b : A)
      → (finish d t p).0 ≡ ok b
      → (p.0 ≡ ok b) × ((finish d t p).1.db ≡ p.1.db)
  finish-ok d t (ok a, w) b h =
      let (same, kept) = commit-ok t.outcome a b d (record w { tick = suc w.tick }) h in
      (ap ok same, kept)
  finish-ok d t (err e, w) b h = cc

  begun-ok :
      (o : Outcome) (m : M A) (s : Schedule) (w : World) (b : A)
      → let after = continue (answers o) (λ _. in_tx m) s w in
        after.0 ≡ ok b → ((m s w).0 ≡ ok b) × (after.1.db ≡ (m s w).1.db)
  begun-ok done m s w b h = finish-ok w.db (s (m s w).1.tick) (m s w) b h
  begun-ok refused m s w b h = cc
  begun-ok cancelled m s w b h = cc
  begun-ok lost m s w b h = cc

  -- Where the unit of work reports success, its body has succeeded and is applied.
  pub do_uow-ok :
      (m : M A) (s : Schedule) (w : World) (b : A)
      → (do_uow m s w).0 ≡ ok b
      → ((m s (opened s w)).0 ≡ ok b) × ((do_uow m s w).1.db ≡ (m s (opened s w)).1.db)
  unfolding do_uow begin_tx ◌>>=◌
  do_uow-ok m s w b h = begun-ok (s w.tick).outcome m s (opened s w) b h
