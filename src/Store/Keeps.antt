-- ===== src/Store/Keeps.antt =====
-- What an action does to the database, whatever the schedule: rules for each way to build one.
-- `R` is a reflexive and transitive relation between database states, such as "an invariant that
-- held still holds"; the schedule's other processes are taken to move along it too.
use booking_monitor.Prelude.{ℕ, ◌≡◌, refl, Bool, true, false, if◌then◌else◌}
use booking_monitor.Domain.Errors.{Error, Result, ok, err}
use booking_monitor.Application.Metrics.{Metric}
use booking_monitor.Store.Db.{Db, Stmt}
use booking_monitor.Store.Exec.{
  Outcome, done, refused, cancelled, lost, Turn, Schedule, World, M, pure, raise, attempt,
  of_result, emit, continue, ◌>>=◌, Executor, pool, tx, settle, exec, begin_tx, commit, finish,
  in_tx, do_uow, is_cancelled, ask, clock, new_v7, run_script,
}
use booking_monitor.Store.Redis.{Redis}

pub record Preorder (R : Db → Db → Type 0) : Type 0 where
  pub reflexive : (d : Db) → R d d
  pub transitive : (a b c : Db) → R a b → R b c → R a c

-- The other processes move along `R`.
abbrev pub Obeys : (Db → Db → Type 0) → Schedule → Type 0
Obeys R s = (n : ℕ) (d : Db) → R d ((s n).interferes d)

pub record Keeps {A : Type 0} (R : Db → Db → Type 0) (m : M A) : Type 0 where
  pub at : (s : Schedule) → Obeys R s → (w : World) → R w.db (m s w).1.db

-- What an action does when it succeeds, on the way to a commit.
pub record Achieves {A : Type 0} (R : Db → Db → Type 0) (m : M A) : Type 0 where
  pub at : (s : Schedule) → Obeys R s → (w : World) (a : A) → (m s w).0 ≡ ok a → R w.db (m s w).1.db

module _ {R : Db → Db → Type 0} (P : Preorder R) where
  open P use {reflexive, transitive}

  module _ {A : Type 0} where
    pub Keeps-pure : (a : A) → Keeps R (pure a)
    unfolding pure
    Keeps-pure a = record { at = λ s o w. reflexive w.db }

    pub Keeps-raise : (e : Error) → Keeps R (raise {A = A} e)
    unfolding raise
    Keeps-raise e = record { at = λ s o w. reflexive w.db }

    pub Keeps-of_result : (r : Result A) → Keeps R (of_result r)
    unfolding of_result
    Keeps-of_result r = record { at = λ s o w. reflexive w.db }

    pub Keeps-attempt : (m : M A) → Keeps R m → Keeps R (attempt m)
    unfolding attempt
    Keeps-attempt m k = record { at = λ s o w. k.at s o w }

    pub Keeps-ask : (f : ℕ → Result A) → Keeps R (ask f)
    unfolding ask
    Keeps-ask f = record { at = λ s o w. reflexive w.db }

    pub Keeps-run_script : (q : Redis → Result A × Redis) → Keeps R (run_script q)
    unfolding run_script
    Keeps-run_script q = record { at = λ s o w. reflexive w.db }

    pub Keeps-if :
        (b : Bool) (m n : M A)
        → (b ≡ true → Keeps R m)
        → (b ≡ false → Keeps R n)
        → Keeps R (if b then m else n)
    Keeps-if true m n km kn = km refl
    Keeps-if false m n km kn = kn refl

    settle-Keeps : (o : Outcome) (d : Db) (p : Result A × Db) → R d p.1 → R d (settle o d p).1
    settle-Keeps done d p h = h
    settle-Keeps refused d p h = reflexive d
    settle-Keeps cancelled d p h = reflexive d
    settle-Keeps lost d p h = h

    -- A statement moves along `R` if its function does.
    pub Keeps-exec :
        (e : Executor) (q : Stmt A) → ((now : ℕ) (d : Db) → R d (q now d).1) → Keeps R (exec e q)
    unfolding exec
    Keeps-exec pool q h = record {
      at = λ s o w.
          transitive _ _ _ (o w.tick w.db)
            (settle-Keeps (s w.tick).outcome _ _ (h (s w.tick).db_now _));
    }
    Keeps-exec tx q h = record {
      at = λ s o w. settle-Keeps (s w.tick).outcome _ _ (h (s w.tick).db_now w.db);
    }

  Keeps-begin_tx : Keeps R begin_tx
  unfolding begin_tx
  Keeps-begin_tx = record { at = λ s o w. o w.tick w.db }

  pub Keeps-emit : (x : Metric) → Keeps R (emit x)
  unfolding emit
  Keeps-emit x = record { at = λ s o w. reflexive w.db }

  pub Keeps-clock : Keeps R clock
  unfolding clock
  Keeps-clock = record { at = λ s o w. reflexive w.db }

  pub Keeps-new_v7 : Keeps R new_v7
  unfolding new_v7
  Keeps-new_v7 = record { at = λ s o w. reflexive w.db }

  module _ {A B : Type 0} where
    continue-Keeps :
        (r : Result A) (f : A → M B) (s : Schedule)
        → Obeys R s
        → (w : World) → ((a : A) → r ≡ ok a → Keeps R (f a))
        → R w.db (continue r f s w).1.db
    continue-Keeps (ok a) f s o w k = (k a refl).at s o w
    continue-Keeps (err e) f s o w k = reflexive w.db

    pub Keeps-bind :
        (m : M A) (f : A → M B) → Keeps R m → ((a : A) → Keeps R (f a)) → Keeps R (m >>= f)
    unfolding ◌>>=◌
    Keeps-bind m f km kf = record {
      at = λ s o w.
          transitive _ _ _ (km.at s o w) (continue-Keeps (m s w).0 f s o (m s w).1 (λ a e. kf a));
    }

  -- After a computed result, the rest may use what was computed.
  pub Keeps-result_bind :
      {A B : Type 0} (r : Result A) (f : A → M B)
      → ((a : A) → r ≡ ok a → Keeps R (f a))
      → Keeps R (of_result r >>= f)
  unfolding ◌>>=◌ of_result
  Keeps-result_bind r f k = record { at = λ s o w. continue-Keeps r f s o w k }

  module _ {A : Type 0} where
    commit-Keeps : (o : Outcome) (a : A) (d : Db) (w : World) → R d w.db → R d (commit o a d w).1.db
    commit-Keeps done a d w h = h
    commit-Keeps refused a d w h = reflexive d
    commit-Keeps cancelled a d w h = reflexive d
    commit-Keeps lost a d w h = h

    finish-Keeps :
        (d : Db) (t : Turn) (p : Result A × World)
        → ((a : A) → p.0 ≡ ok a → R d p.1.db)
        → R d (finish d t p).1.db
    finish-Keeps d t (ok a, w) h = commit-Keeps t.outcome a d _ (h a refl)
    finish-Keeps d t (err e, w) h = reflexive d

    in_tx-Keeps : (m : M A) → Achieves R m → Keeps R (in_tx m)
    in_tx-Keeps m k = record {
      at = λ s o w. finish-Keeps w.db (s (m s w).1.tick) (m s w) (λ a e. k.at s o w a e);
    }

    -- A unit of work moves along `R` if its body does where it succeeds.
    pub Keeps-do_uow : (m : M A) → Achieves R m → Keeps R (do_uow m)
    unfolding do_uow
    Keeps-do_uow m k = Keeps-bind begin_tx (λ _. in_tx m) Keeps-begin_tx (λ _. in_tx-Keeps m k)

  pub Keeps-is_cancelled : Keeps R is_cancelled
  unfolding is_cancelled
  Keeps-is_cancelled = record { at = λ s o w. reflexive w.db }

  pub Keeps-Achieves : {A : Type 0} (m : M A) → Keeps R m → Achieves R m
  Keeps-Achieves m k = record { at = λ s o w a e. k.at s o w }
