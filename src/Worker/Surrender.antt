-- ===== src/Worker/Surrender.antt =====
-- The end of the main loop of internal/infrastructure/cache/redis_queue.go while Redis is away.
use booking_monitor.Prelude.{
  ℕ, zero, suc, ◌+◌, ◌≤◌, ◌<◌, ◌≡◌, refl, sym, ap, subst, ◌∙◌, not, ◌⊎◌, inl, inr, arith, leb,
}
use booking_monitor.Domain.Errors.{Error, Result, ok, err, infra, context_done}
use booking_monitor.Application.Metrics.{consumer_group_recreated}
use booking_monitor.Store.Exec.{Schedule, World, M, raise, attempt, ◌>>=◌, ask}
use booking_monitor.Store.Answers.{
  Answers, Any, Answers-pure, Answers-if, Answers-bind, Answers-emit, Answers-is_cancelled,
}
use booking_monitor.Worker.Queue.{sleep_ctx}
use booking_monitor.Worker.Subscribe.{
  Read, no_group, read_error, nothing, entries, claimed, errors_after, create_error, Group,
  read_group, ensure_group, Loop, stopped, sleep_or_stop, handled, subscribe_loop,
}

-- Redis answers no read: with an error each time, or with NOGROUP while no group can be made.
abbrev pub IsAway : Group → Type 0
IsAway g =
    (n : ℕ)
    → (g.new_read n ≡ read_error)
      ⊎ ((g.new_read n ≡ no_group) × ((k : ℕ) → g.create k ≡ create_error))

abbrev IsStop : Loop → Type 0
IsStop l = (e : Error) × (l ≡ stopped e)

sleep_or-IsStop : {again : M Loop} → Answers IsStop again → Answers IsStop (sleep_or_stop again)
unfolding sleep_ctx
sleep_or-IsStop h =
    Answers-bind {P = Any}
      (Answers-bind Answers-is_cancelled (λ stop u. Answers-pure (not stop) tt))
      (λ awake u.
        Answers-if awake _ _ (λ e. h)
          (λ e. Answers-pure (stopped context_done) (context_done, refl)))

module _ (g : Group) where
  -- An answer while Redis is away.
  abbrev Lost : Read → Type 0
  Lost r = (r ≡ read_error) ⊎ ((r ≡ no_group) × ((k : ℕ) → g.create k ≡ create_error))

  asked : IsAway g → Answers Lost (ask (λ n. ok (g.new_read n)))
  unfolding ask
  asked away = record { at = λ s w. (g.new_read w.tick, refl, away w.tick) }

  read_group-Lost : IsAway g → Answers Lost (read_group g.new_read)
  unfolding read_group
  read_group-Lost away = Answers-bind {P = Lost} (asked away) (λ r lost. elim lost [
    | inl e ↦ subst (λ x. Answers Lost (claimed x)) (sym e) (Answers-pure read_error (inl refl))
    | inr (e, c) ↦
        subst (λ x. Answers Lost (claimed x)) (sym e) (Answers-pure no_group (inr (refl, c)))
  ])

  ensure_group-fails :
      ((k : ℕ) → g.create k ≡ create_error)
      → Answers (λ (r : Result (Unit {0})). r ≡ err infra) (attempt (ensure_group g.create))
  unfolding ensure_group attempt ask ◌>>=◌ raise
  ensure_group-fails c = record { at = λ s w. rw (c w.tick) (_, refl, refl) }

  module _ (again : ℕ → M Loop) (errors : ℕ) where
    again_after :
        Answers IsStop (again (suc errors))
        → (r : Result (Unit {0})) → r ≡ err infra
        → Answers IsStop (again (errors_after (suc errors) r))
    again_after h (ok _) e = absurd cc
    again_after h (err x) e = h

    handled-IsStop :
        (r : Read)
        → Lost r
        → ((suc errors < g.max_consecutive_read_errors) → Answers IsStop (again (suc errors)))
        → Answers IsStop (handled g errors again r)
    handled-IsStop nothing lost h = absurd (elim lost [ inl e ↦ cc | inr (e, c) ↦ cc ])
    handled-IsStop (entries es) lost h = absurd (elim lost [ inl e ↦ cc | inr (e, c) ↦ cc ])
    handled-IsStop read_error lost h =
        Answers-if (leb g.max_consecutive_read_errors (suc errors)) _ _
          (λ e. Answers-pure (stopped infra) (infra, refl))
          (λ e. sleep_or-IsStop (h (ground arith)))
    handled-IsStop no_group lost h = elim lost [
      | inl e ↦ absurd cc
      | inr (e, c) ↦
          Answers-if (leb g.max_consecutive_read_errors (suc errors)) _ _
            (λ x. Answers-pure (stopped infra) (infra, refl))
            (λ x. Answers-bind (Answers-emit consumer_group_recreated) (λ u v.
              Answers-bind (ensure_group-fails c)
                (λ r y. sleep_or-IsStop (again_after (h (ground arith)) r y))))
    ]

  rounds-IsStop :
      IsAway g
      → (rounds errors : ℕ) → 0 < rounds
      → g.max_consecutive_read_errors ≤ rounds + errors
      → Answers IsStop (subscribe_loop g rounds errors)
  unfolding subscribe_loop
  rounds-IsStop away zero errors h enough = absurd (omega arith)
  rounds-IsStop away (suc rounds) errors h enough = Answers-bind Answers-is_cancelled (λ stop u.
      Answers-if stop _ _ (λ e. Answers-pure (stopped context_done) (context_done, refl))
        (λ e. Answers-bind (read_group-Lost away) (λ r lost.
          handled-IsStop (subscribe_loop g rounds) errors r lost
            (λ more. rounds-IsStop away rounds (suc errors) (omega arith) (omega arith)))))

-- The consumer gives up: while Redis answers every read with an error, or with NOGROUP and no group
-- can be made, the main loop ends with an error within the configured number of consecutive read
-- errors, and after one round where that number is 0.
pub subscribe_loop-IsStop :
    (g : Group)
    → IsAway g
    → (rounds : ℕ) → 0 < rounds
    → g.max_consecutive_read_errors ≤ rounds
    → (s : Schedule) (w : World)
    → (e : Error) × ((subscribe_loop g rounds 0 s w).0 ≡ ok (stopped e))
subscribe_loop-IsStop g away rounds some_round enough s w =
    let (l, answer, (e, same)) = (rounds-IsStop g away rounds 0 some_round (omega arith)).at s w in
    (e, answer ∙ ap ok same)
