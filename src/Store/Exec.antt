-- ===== src/Store/Exec.antt =====
-- Calls to the outside. An action is run against a schedule, which says for each call in turn what
-- the other processes did to the stores before it, whether it succeeds, and what the clocks and the
-- UUID generator answer. A call can fail with its effect done (`lost`: the answer was lost), so a
-- theorem over all schedules covers every interleaving and every failure.
use booking_monitor.Prelude.{ℕ, suc, Bool, true, false, Option, none, some, List, ◌∷◌}
use booking_monitor.Domain.Errors.{Error, Result, ok, err, infra, context_done}
use booking_monitor.Application.Metrics.{Metric, rollback_failure}
use booking_monitor.Store.Db.{Db, Stmt}
use booking_monitor.Store.Redis.{Redis}

pub data Outcome : Type 0 where
  done refused cancelled lost : Outcome

pub record Turn : Type 0 where
  pub interferes : Db → Db
  pub interferes_cache : Redis → Redis
  pub outcome : Outcome
  pub db_now : ℕ
  pub app_now : ℕ
  pub fresh_id : ℕ

abbrev pub Schedule : Type 0
Schedule = ℕ → Turn

pub record World : Type 0 where
  pub db : Db
  pub cache : Redis
  pub tick : ℕ
  pub metrics : List Metric

abbrev pub M : Type 0 → Type 0
M A = Schedule → World → Result A × World

module _ {A : Type 0} where
  unfoldable pub pure : A → M A
  pure a s w = (ok a, w)

  unfoldable pub raise : Error → M A
  raise e s w = (err e, w)

  -- The result of an action as a value: `err := …`, to be looked at.
  unfoldable pub attempt : M A → M (Result A)
  attempt m s w = let (r, w') = m s w in (ok r, w')

  unfoldable pub of_result : Result A → M A
  of_result r s w = (r, w)

  unfoldable pub or_fail : Option A → Error → M A
  unfolding pure raise
  or_fail none e = raise e
  or_fail (some a) e = pure a

unfoldable pub emit : Metric → M (Unit {0})
emit x s w = (ok tt, record w { metrics = x ∷ w.metrics })

module _ {A B : Type 0} where
  abbrev pub continue : Result A → (A → M B) → M B
  continue (ok a) f s w = f a s w
  continue (err e) f s w = (err e, w)

  infixl 5 ◌>>=◌ ◌>>◌
  unfoldable pub ◌>>=◌ : M A → (A → M B) → M B
  ◌>>=◌ m f s w = let (r, w') = m s w in continue r f s w'

  abbrev pub ◌>>◌ : M A → M B → M B
  m >> n = m >>= λ _. n

-- Which connection a repository runs on: the pool, or the transaction that `WithTx` bound it to.
pub data Executor : Type 0 where
  pool tx : Executor

-- Between two statements of a transaction no other one is seen: a unit of work is one step, as
-- the lock on the row that its first statement takes makes it.
abbrev pub seen : Executor → Turn → Db → Db
seen pool t d = t.interferes d
seen tx t d = d

abbrev pub settle : {A : Type 0} → Outcome → Db → Result A × Db → Result A × Db
settle done d p = p
settle refused d p = (err infra, d)
settle cancelled d p = (err context_done, d)
settle lost d p = (err infra, p.1)

module _ {A : Type 0} where
  unfoldable pub exec : Executor → Stmt A → M A
  exec e q s w =
      let t : Turn = s w.tick in
      let d : Db = seen e t w.db in
      let (r, d') = settle t.outcome d (q t.db_now d) in
      (r, record w { db = d'; tick = suc w.tick })

abbrev pub answers : Outcome → Result (Unit {0})
answers done = ok tt
answers refused = err infra
answers cancelled = err context_done
answers lost = err infra

-- `BEGIN`, on the pool.
unfoldable pub begin_tx : M (Unit {0})
begin_tx s w =
    let t : Turn = s w.tick in
    (answers t.outcome, record w { db = t.interferes w.db; tick = suc w.tick })

-- `ROLLBACK`: the server undoes the transaction also where the call fails.
abbrev pub count_rollback : Outcome → List Metric → List Metric
count_rollback done ms = ms
count_rollback refused ms = rollback_failure ∷ ms
count_rollback cancelled ms = rollback_failure ∷ ms
count_rollback lost ms = rollback_failure ∷ ms

module _ {A : Type 0} where
  abbrev pub commit : Outcome → A → Db → World → Result A × World
  commit done a before w = (ok a, w)
  commit refused a before w = (err infra, record w { db = before })
  commit cancelled a before w = (err context_done, record w { db = before })
  commit lost a before w = (err infra, w)

  abbrev pub finish : Db → Turn → Result A × World → Result A × World
  finish before t (ok a, w) = commit t.outcome a before (record w { tick = suc w.tick })
  finish before t (err e, w) = (
    err e,
    record w { db = before; tick = suc w.tick; metrics = count_rollback t.outcome w.metrics },
  )

  abbrev pub in_tx : M A → M A
  in_tx body s w = let p = body s w in finish w.db (s p.1.tick) p

  -- `PostgresUnitOfWork.Do`: begin; on an error of the body roll back and return it; else commit.
  unfoldable pub do_uow : M A → M A
  unfolding begin_tx ◌>>=◌
  do_uow body = begin_tx >>= λ _. in_tx body

-- `time.Now()`, and `uuid.NewV7()`.
unfoldable pub clock : M ℕ
clock s w = (ok (s w.tick).app_now, record w { tick = suc w.tick })

abbrev id_of : Outcome → ℕ → Result ℕ
id_of done n = ok n
id_of refused n = err infra
id_of cancelled n = err infra
id_of lost n = err infra

unfoldable pub new_v7 : M ℕ
new_v7 s w = (id_of (s w.tick).outcome (s w.tick).fresh_id, record w { tick = suc w.tick })

abbrev pub settle_cache : {A : Type 0} → Outcome → Redis → Result A × Redis → Result A × Redis
settle_cache done c p = p
settle_cache refused c p = (err infra, c)
settle_cache cancelled c p = (err context_done, c)
settle_cache lost c p = (err infra, p.1)

module _ {A : Type 0} where
  -- A command or a script that Redis runs atomically.
  unfoldable pub run_script : (Redis → Result A × Redis) → M A
  run_script q s w =
      let t : Turn = s w.tick in
      let c : Redis = t.interferes_cache w.cache in
      let (r, c') = settle_cache t.outcome c (q c) in
      (r, record w { cache = c'; tick = suc w.tick })

abbrev was_cancelled : Outcome → Bool
was_cancelled cancelled = true
was_cancelled _ = false

-- `ctx.Err() != nil`.
unfoldable pub is_cancelled : M Bool
is_cancelled s w = (ok (was_cancelled (s w.tick).outcome), record w { tick = suc w.tick })

module _ {A : Type 0} where
  -- A call of an outside service that touches neither store: its answer may differ from call to call.
  unfoldable pub ask : (ℕ → Result A) → M A
  ask f s w = (f w.tick, record w { tick = suc w.tick })
