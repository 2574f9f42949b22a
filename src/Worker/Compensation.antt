-- ===== src/Worker/Compensation.antt =====
-- The compensation of a queued entry in internal/infrastructure/cache/redis_queue.go:
-- `handleFailure`, `handleParseFailure` and `moveToDLQ`.
use booking_monitor.Prelude.{
  ℕ, ◌≡◌, refl, ◌⊎◌, inl, inr, Bool, true, false, Option, none, some, List, [], ◌∷◌, Bool-cases,
}
use booking_monitor.Prelude.Int.{ℤ}
use booking_monitor.Domain.Errors.{Error, Result, ok, err}
use booking_monitor.Application.Metrics.{DlqReason}
use booking_monitor.Store.Db.{Db}
use booking_monitor.Store.Redis.{Redis, Entry}
use booking_monitor.Store.Exec.{Schedule, run_script}
use booking_monitor.Store.Triples.{
  Pre, Post, Kept, Triple, Triple-pure, Triple-raise, Triple-weaken, Triple-try, Triple-run_script,
  Triple-bind, Triple-emit, Triple-clock,
}
use booking_monitor.Cache.Deduct.{Formats}
use booking_monitor.Cache.Revert.{contains, revert_script, revert_inventory, message_compensation}
use booking_monitor.Cache.Given.{
  GaveBack, GaveBack-others, GaveBack-later, revert_script-IsRepaid, Later, now, others, own,
}
use booking_monitor.Worker.Processor.{Message}
use booking_monitor.Worker.Wire.{parse_message, parse_revert_hints}
use booking_monitor.Worker.Queue.{
  move_to_dlq, add_dead, dlq_result, handle_failure, moved, routed, after_revert, after_hint_revert,
  with_hints, handle_parse_failure,
}

abbrev pub Among : Entry → List Entry → Type 0
Among e [] = ⊥
Among e (x ∷ xs) = (x ≡ e) ⊎ Among e xs

-- The entry is pending; it is on the dead-letter stream.
abbrev pub Held : Entry → Redis → Type 0
Held e c = contains e.id c.pending ≡ true

abbrev pub Buried : Entry → Redis → Type 0
Buried e c = Among e c.dlq

-- The other processes neither acknowledge the entry nor lose what was recorded about it.
pub record LeavesAlone (e : Entry) (s : Schedule) : Type 0 where
  pub held : (n : ℕ) (c : Redis) → Held e c → Held e ((s n).interferes_cache c)
  pub buried : (n : ℕ) (c : Redis) → Buried e c → Buried e ((s n).interferes_cache c)

-- The answer `ok` comes with `R`, and any other with `P`.
abbrev pub Then : {A : Type 0} → Pre → Pre → Post A
Then P R (ok a) c d = R c d
Then P R (err e) c d = P c d

abbrev Both : Pre → Pre → Pre
Both P R c d = P c d × R c d

add_dead-Held : (e : Entry) (c : Redis) → Held e c → Held e (add_dead e c)
unfolding add_dead
add_dead-Held e c h = h

add_dead-Buried : (e : Entry) (c : Redis) → Buried e (add_dead e c)
unfolding add_dead
add_dead-Buried e c = inl refl

revert_script-Held :
    (e : Entry) (id : ℕ) (n : ℤ) (k : ℕ) (c : Redis) → Held e c → Held e (revert_script id n k c).1
unfolding revert_script
revert_script-Held e id n k c h = elim (Bool-cases (contains k c.reverted)) [
  | inl b ↦ rw b h
  | inr b ↦ rw b h
]

revert_script-ok : (id : ℕ) (n : ℤ) (k : ℕ) (c : Redis) → (revert_script id n k c).0 ≡ ok tt
unfolding revert_script
revert_script-ok id n k c = elim (Bool-cases (contains k c.reverted)) [
  | inl b ↦ rw b refl
  | inr b ↦ rw b refl
]

dlq_result-Triple :
    {s : Schedule} {P R : Pre} (r : Result (Unit {0}))
    → Triple s (λ c d. Then P R r c d) (dlq_result r) (Then P R)
dlq_result-Triple (ok _) = Triple-pure tt (λ c d p. p)
dlq_result-Triple (err x) =
    Triple-bind (Triple-emit _) (λ _. Triple-raise _ (λ c d p. p)) (λ x c d p. p)

module _ {s : Schedule} (e : Entry) where
  -- The dead-letter stream has the entry where the call succeeds.
  move_to_dlq-Triple :
      (P : Pre)
      → Kept s P
      → ((c : Redis) (d : Db) → P c d → P (add_dead e c) d)
      → Triple s P (move_to_dlq e) (Then P (Both P (λ c d. Buried e c)))
  unfolding move_to_dlq
  move_to_dlq-Triple P k h =
      let add : Triple s P (run_script (λ c. (ok tt, add_dead e c)))
          (Then P (Both P (λ c d. Buried e c))) =
        Triple-run_script _ k (λ c d p. (h c d p, add_dead-Buried e c)) (λ x c d p. h c d p)
          (λ x c d p. p) in
      Triple-bind Triple-clock
        (λ _. Triple-bind Triple-clock (λ _. Triple-try add dlq_result-Triple) (λ x c d p. p))
        (λ x c d p. p)

  -- Where the script answers, `R` holds after it.
  revert-Triple :
      (P Q R : Pre) (id : ℕ) (n : ℤ)
      → Kept s P
      → ((c : Redis) (d : Db) → P c d → R (revert_script id n (message_compensation e.id) c).1 d)
      → ((c : Redis) (d : Db) → P c d → Q (revert_script id n (message_compensation e.id) c).1 d)
      → ((c : Redis) (d : Db) → P c d → Q c d)
      → Triple s P (revert_inventory id n (message_compensation e.id)) (Then Q R)
  unfolding revert_inventory
  revert-Triple P Q R id n k done lost refused =
      Triple-run_script _ k
        (λ c d p. rw (revert_script-ok id n (message_compensation e.id) c) (done c d p))
        (λ x c d p. lost c d p) (λ x c d p. refused c d p)

-- The entry tells a ticket type and a quantity, as hints or as a message.
abbrev pub Tells : Formats → Entry → ℕ → ℤ → Type 0
Tells fmt e id n =
    (parse_revert_hints fmt e ≡ ok (id, n))
    ⊎ ((m : Message) × (parse_message fmt e ≡ ok m) × (m.ticket_type_id ≡ id) × (m.quantity ≡ n))

-- What is known of an entry whose compensation is complete: it is on the dead-letter stream, and on the
-- way from `c0` its count was given back, unless nothing tells the ticket type and the quantity.
abbrev pub Accounted : Schedule → Formats → Entry → Redis → Redis → Type 0
Accounted s fmt e c0 c =
    Buried e c
    × (((x : Error) × (parse_revert_hints fmt e ≡ err x))
        ⊎ ((id : ℕ) × (n : ℤ) × Tells fmt e id n
            × GaveBack s id n (message_compensation e.id) c0 c))

-- The answer `true`, or a reason, comes with `R`; anything else with `P`.
abbrev pub Told : Pre → Pre → Post Bool
Told P R (ok true) c d = R c d
Told P R (ok false) c d = P c d
Told P R (err x) c d = P c d

abbrev pub Reasoned : Pre → Pre → Post (Option DlqReason)
Reasoned P R (ok (some x)) c d = R c d
Reasoned P R (ok none) c d = P c d
Reasoned P R (err x) c d = P c d

module _ {s : Schedule} {P R : Pre} where
  moved-Triple : (r : Result (Unit {0})) → Triple s (λ c d. Then P R r c d) (moved r) (Told P R)
  moved-Triple (ok _) = Triple-pure true (λ c d p. p)
  moved-Triple (err x) = Triple-pure false (λ c d p. p)

  routed-Triple :
      (reason : DlqReason) (r : Result (Unit {0}))
      → Triple s (λ c d. Then P R r c d) (routed reason r) (Reasoned P R)
  routed-Triple reason (ok _) = Triple-pure (some reason) (λ c d p. p)
  routed-Triple reason (err x) = Triple-pure none (λ c d p. p)

Told-weaken :
    {P P' R R' : Pre}
    → ((c : Redis) (d : Db) → P c d → P' c d)
    → ((c : Redis) (d : Db) → R c d → R' c d)
    → (r : Result Bool) (c : Redis) (d : Db) → Told P R r c d
    → Told P' R' r c d
Told-weaken f g (ok true) c d p = g c d p
Told-weaken f g (ok false) c d p = f c d p
Told-weaken f g (err x) c d p = f c d p

Reasoned-weaken :
    {P P' R R' : Pre}
    → ((c : Redis) (d : Db) → P c d → P' c d)
    → ((c : Redis) (d : Db) → R c d → R' c d)
    → (r : Result (Option DlqReason)) (c : Redis) (d : Db) → Reasoned P R r c d
    → Reasoned P' R' r c d
Reasoned-weaken f g (ok (some x)) c d p = g c d p
Reasoned-weaken f g (ok none) c d p = f c d p
Reasoned-weaken f g (err x) c d p = f c d p

module _ {s : Schedule} (fmt : Formats) (e : Entry) (calm : LeavesAlone e s) (c0 : Redis) where
  abbrev pub Pending : Pre
  Pending c d = Held e c

  -- No count or mark was touched but by others.
  abbrev pub Holding : Pre
  Holding c d = Held e c × Later s c0 c

  abbrev Repaid : ℕ → ℤ → Pre
  Repaid id n c d = Held e c × GaveBack s id n (message_compensation e.id) c0 c

  Holding-Kept : Kept s Holding
  Holding-Kept n c d h = (calm.held n c h.0, others n h.1)

  Repaid-Kept : (id : ℕ) (n : ℤ) → Kept s (Repaid id n)
  Repaid-Kept id n t c d h = (calm.held t c h.0, GaveBack-others s t h.1)

  -- The dead-letter stream, after the count was given back.
  bury_repaid :
      (id : ℕ) (n : ℤ)
      → Triple s
          (Repaid id n)
          (move_to_dlq e)
          (Then (Repaid id n) (Both (Repaid id n) (λ c d. Buried e c)))
  bury_repaid id n = move_to_dlq-Triple e (Repaid id n) (Repaid-Kept id n) (λ c d h. (
    add_dead-Held e c h.0,
    GaveBack-later s h.1 (unfold add_dead in refl) (unfold add_dead in refl),
  ))

  add_dead-Later : (c : Redis) → Later s c0 c → Later s c0 (add_dead e c)
  unfolding add_dead
  add_dead-Later c h = own h refl refl

  bury_held : Triple s Holding (move_to_dlq e) (Then Holding (Both Holding (λ c d. Buried e c)))
  bury_held =
      move_to_dlq-Triple e Holding Holding-Kept
        (λ c d h. (add_dead-Held e c h.0, add_dead-Later c h.1))

  pay_back :
      (id : ℕ) (n : ℤ)
      → Triple s Holding
          (revert_inventory id n (message_compensation e.id))
          (Then Pending (Repaid id n))
  pay_back id n =
      let k : ℕ = message_compensation e.id in
      revert-Triple e Holding Pending (Repaid id n) id n Holding-Kept
        (λ c d h. (
          revert_script-Held e id n k c h.0,
          record {
            before = c;
            after = (revert_script id n k c).1;
            came = h.1;
            repaid = revert_script-IsRepaid id n k c;
            left = now;
          },
        ))
        (λ c d h. revert_script-Held e id n k c h.0) (λ c d h. h.0)

  abbrev pub Closed : Pre
  Closed c d = Accounted s fmt e c0 c

  closing :
      (id : ℕ) (n : ℤ)
      → Tells fmt e id n
      → (c : Redis) (d : Db) → Both (Repaid id n) (λ c d. Buried e c) c d
      → Closed c d
  closing id n told c d p = (p.1, inr (id, n, told, p.0.1))

  after_revert-Triple :
      (id : ℕ) (n : ℤ)
      → Tells fmt e id n
      → (r : Result (Unit {0}))
      → Triple s (λ c d. Then Pending (Repaid id n) r c d) (after_revert e r) (Told Pending Closed)
  after_revert-Triple id n told (ok _) =
      Triple-weaken (λ c d p. p)
        (Told-weaken {P = Repaid id n} {R = Both (Repaid id n) (λ c d. Buried e c)} (λ c d p. p.0)
          (closing id n told))
        (Triple-try (bury_repaid id n) moved-Triple)
  after_revert-Triple id n told (err x) =
      Triple-bind (Triple-emit _) (λ _. Triple-pure false (λ c d p. p)) (λ x c d p. p)

  pub handle_failure-Triple :
      (m : Message)
      → parse_message fmt e ≡ ok m
      → Triple s Holding (handle_failure m e) (Told Pending Closed)
  unfolding handle_failure
  handle_failure-Triple m eq =
      Triple-try (pay_back m.ticket_type_id m.quantity)
        (after_revert-Triple m.ticket_type_id m.quantity (inr (m, eq, refl, refl)))

  after_hint_revert-Triple :
      (id : ℕ) (n : ℤ)
      → Tells fmt e id n
      → (r : Result (Unit {0}))
      → Triple s
          (λ c d. Then Pending (Repaid id n) r c d)
          (after_hint_revert e r)
          (Reasoned Pending Closed)
  after_hint_revert-Triple id n told (ok _) =
      Triple-weaken (λ c d p. p)
        (Reasoned-weaken {P = Repaid id n} {R = Both (Repaid id n) (λ c d. Buried e c)}
          (λ c d p. p.0) (closing id n told))
        (Triple-try (bury_repaid id n) (routed-Triple _))
  after_hint_revert-Triple id n told (err x) =
      Triple-bind (Triple-emit _) (λ _. Triple-pure none (λ c d p. p)) (λ x c d p. p)

  with_hints-Triple :
      (r : Result (ℕ × ℤ))
      → parse_revert_hints fmt e ≡ r
      → Triple s Holding (with_hints e r) (Reasoned Pending Closed)
  with_hints-Triple (ok (id, n)) q =
      Triple-try (pay_back id n) (after_hint_revert-Triple id n (inl q))
  with_hints-Triple (err x) q =
      Triple-weaken (λ c d p. p) (Reasoned-weaken (λ c d p. p.0) (λ c d p. (p.1, inl (x, q))))
        (Triple-try bury_held (routed-Triple _))

  pub handle_parse_failure-Triple :
      Triple s Holding (handle_parse_failure fmt e) (Reasoned Pending Closed)
  unfolding handle_parse_failure
  handle_parse_failure-Triple = with_hints-Triple (parse_revert_hints fmt e) refl
