-- ===== src/Store/Spares.antt =====
-- Actions that leave the Redis keys alone: those on the database, the clocks and the counters.
use booking_monitor.Prelude.{◌≡◌, refl, ◌∙◌}
use booking_monitor.Domain.Errors.{Error, Result, ok, err}
use booking_monitor.Application.Metrics.{Metric}
use booking_monitor.Store.Db.{Db, Stmt}
use booking_monitor.Store.Exec.{
  Outcome, done, refused, cancelled, lost, Turn, Schedule, World, M, pure, raise, attempt,
  of_result, emit, continue, ◌>>=◌, Executor, exec, begin_tx, commit, finish, in_tx, do_uow, clock,
  new_v7,
}

pub record Spares {A : Type 0} (m : M A) : Type 0 where
  pub at : (s : Schedule) (w : World) → (m s w).1.cache ≡ w.cache

module _ {A : Type 0} where
  pub Spares-pure : (a : A) → Spares (pure a)
  unfolding pure
  Spares-pure a = record { at = λ s w. refl }

  pub Spares-raise : (e : Error) → Spares (raise {A = A} e)
  unfolding raise
  Spares-raise e = record { at = λ s w. refl }

  pub Spares-of_result : (r : Result A) → Spares (of_result r)
  unfolding of_result
  Spares-of_result r = record { at = λ s w. refl }

  pub Spares-attempt : (m : M A) → Spares m → Spares (attempt m)
  unfolding attempt
  Spares-attempt m k = record { at = k.at }

  pub Spares-exec : (e : Executor) (q : Stmt A) → Spares (exec e q)
  unfolding exec
  Spares-exec e q = record { at = λ s w. refl }

  committed : (o : Outcome) (a : A) (d : Db) (w : World) → (commit o a d w).1.cache ≡ w.cache
  committed done a d w = refl
  committed refused a d w = refl
  committed cancelled a d w = refl
  committed lost a d w = refl

  finished : (d : Db) (t : Turn) (p : Result A × World) → (finish d t p).1.cache ≡ p.1.cache
  finished d t (ok a, w) = committed t.outcome a d _
  finished d t (err e, w) = refl

  Spares-in_tx : (m : M A) → Spares m → Spares (in_tx m)
  Spares-in_tx m k = record { at = λ s w. finished w.db (s (m s w).1.tick) (m s w) ∙ k.at s w }

module _ {A B : Type 0} where
  continued :
      (r : Result A) (f : A → M B)
      → ((a : A) → Spares (f a))
      → (s : Schedule) (w : World) → (continue r f s w).1.cache ≡ w.cache
  continued (ok a) f k s w = (k a).at s w
  continued (err e) f k s w = refl

  pub Spares-bind : (m : M A) (f : A → M B) → Spares m → ((a : A) → Spares (f a)) → Spares (m >>= f)
  unfolding ◌>>=◌
  Spares-bind m f k l = record { at = λ s w. continued (m s w).0 f l s (m s w).1 ∙ k.at s w }

pub Spares-emit : (x : Metric) → Spares (emit x)
unfolding emit
Spares-emit x = record { at = λ s w. refl }

pub Spares-clock : Spares clock
unfolding clock
Spares-clock = record { at = λ s w. refl }

pub Spares-new_v7 : Spares new_v7
unfolding new_v7
Spares-new_v7 = record { at = λ s w. refl }

Spares-begin_tx : Spares begin_tx
unfolding begin_tx
Spares-begin_tx = record { at = λ s w. refl }

pub Spares-do_uow : {A : Type 0} (m : M A) → Spares m → Spares (do_uow m)
unfolding do_uow
Spares-do_uow m k = Spares-bind _ _ Spares-begin_tx (λ u. Spares-in_tx m k)

pub ruleset spares_rules = (
  Spares-pure, Spares-raise, Spares-of_result, Spares-attempt, Spares-exec, Spares-bind,
  Spares-emit, Spares-clock, Spares-new_v7, Spares-do_uow,
)
