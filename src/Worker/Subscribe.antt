-- ===== src/Worker/Subscribe.antt =====
-- The loops of internal/infrastructure/cache/redis_queue.go: `processPending` and `Subscribe`.
--
-- What Redis answers to `XREADGROUP` is a parameter, one answer for each call; the entries it hands
-- out are then pending. A loop without a bound runs for a number of rounds; `running` says that it
-- goes on after them.
use booking_monitor.Prelude.{
  ℕ, zero, suc, Bool, true, false, List, [], ◌∷◌, map, ◌++◌, leb, if◌then◌else◌,
}
use booking_monitor.Domain.Errors.{Error, Result, ok, err, infra, context_done}
use booking_monitor.Application.Metrics.{pel_recovery_failure, consumer_group_recreated}
use booking_monitor.Store.Redis.{Redis, Entry}
use booking_monitor.Store.Exec.{
  M, pure, raise, attempt, emit, ◌>>=◌, ◌>>◌, run_script, is_cancelled, ask,
}
use booking_monitor.Worker.Queue.{Consumer, process_entry, sleep_ctx}

-- The answers of `XREADGROUP`: `redis.Nil`, entries, an error with NOGROUP, any other error.
pub data Read : Type 0 where
  nothing : Read
  entries : List Entry → Read
  no_group read_error : Read

-- The answers of `XGROUP CREATE`: the group is made, it was there (BUSYGROUP), or an error.
pub data Created : Type 0 where
  made busy_group create_error : Created

pub record Group : Type 0 where
  pub consumer : Consumer
  pub pending_read : ℕ → Read
  pub new_read : ℕ → Read
  pub create : ℕ → Created
  pub max_consecutive_read_errors : ℕ

unfoldable pub deliver : List Entry → Redis → Redis
deliver es c = record c { pending = map (λ e. e.id) es ++ c.pending }

abbrev pub claimed : Read → M Read
claimed (entries es) = run_script (λ c. (ok tt, deliver es c)) >> pure (entries es)
claimed nothing = pure nothing
claimed no_group = pure no_group
claimed read_error = pure read_error

unfoldable pub read_group : (ℕ → Read) → M Read
unfolding deliver
read_group answers = ask (λ n. ok (answers n)) >>= claimed

abbrev created : Created → M (Unit {0})
created made = pure tt
created busy_group = pure tt
created create_error = raise infra

unfoldable pub ensure_group : (ℕ → Created) → M (Unit {0})
ensure_group create = ask (λ n. ok (create n)) >>= created

-- How a loop ended: it goes on, or it returned no error, or the error.
pub data Loop : Type 0 where
  running finished : Loop
  stopped : Error → Loop

-- The entries of one answer in turn; the recovery stops at a shutdown, the main loop goes on.
unfoldable pub recover_all : Consumer → List Entry → M Bool
recover_all q [] = pure false
recover_all q (e ∷ es) = process_entry q e >>= λ stop. if stop then pure true else recover_all q es

unfoldable pub process_all : Consumer → List Entry → M (Unit {0})
process_all q [] = pure tt
process_all q (e ∷ es) = process_entry q e >> process_all q es

abbrev recovered : Consumer → M Loop → Read → M Loop
recovered q again nothing = pure finished
recovered q again (entries []) = pure finished
recovered q again (entries (e ∷ es)) =
    recover_all q (e ∷ es) >>= λ stop. if stop then pure finished else again
recovered q again no_group = emit consumer_group_recreated >> pure (stopped infra)
recovered q again read_error = pure (stopped infra)

unfoldable pub process_pending : Group → ℕ → M Loop
process_pending g zero = pure running
process_pending g (suc rounds) =
    read_group g.pending_read >>= recovered g.consumer (process_pending g rounds)

-- The sleep after an error; the loop goes on unless the context ended.
abbrev pub sleep_or_stop : M Loop → M Loop
sleep_or_stop again = sleep_ctx >>= λ awake. if awake then again else pure (stopped context_done)

abbrev pub errors_after : ℕ → Result (Unit {0}) → ℕ
errors_after errors (ok _) = 0
errors_after errors (err e) = errors

-- One round after the read; `again` takes the count of consecutive errors on.
abbrev pub handled : Group → ℕ → (ℕ → M Loop) → Read → M Loop
handled g errors again nothing = again 0
handled g errors again (entries es) = process_all g.consumer es >> again 0
handled g errors again no_group =
    if leb g.max_consecutive_read_errors (suc errors)
    then pure (stopped infra)
    else (emit consumer_group_recreated
        >> (attempt (ensure_group g.create) >>= λ r.
            sleep_or_stop (again (errors_after (suc errors) r))))
handled g errors again read_error =
    if leb g.max_consecutive_read_errors (suc errors)
    then pure (stopped infra)
    else sleep_or_stop (again (suc errors))

unfoldable pub subscribe_loop : Group → ℕ → ℕ → M Loop
subscribe_loop g zero errors = pure running
subscribe_loop g (suc rounds) errors = is_cancelled >>= λ stop.
    if stop
    then pure (stopped context_done)
    else (read_group g.new_read >>= handled g errors (subscribe_loop g rounds))

-- A recovery that failed is counted, and the main loop starts all the same.
abbrev after_recovery : M Loop → Loop → M Loop
after_recovery main running = pure running
after_recovery main finished = main
after_recovery main (stopped e) = emit pel_recovery_failure >> main

unfoldable pub subscribe : Group → ℕ → M Loop
unfolding process_pending subscribe_loop
subscribe g rounds = process_pending g rounds >>= after_recovery (subscribe_loop g rounds 0)
