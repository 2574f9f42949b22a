-- ===== src/Settings/Sound.antt =====
-- What `Validate` of internal/infrastructure/config/config.go lets through.
use booking_monitor.Prelude.{
  ◌≤◌, ◌≡◌, ◌⊎◌, inl, inr, refl, Bool, true, false, not, ◌&&◌, List, [], ◌∷◌, ◌++◌, ltb, length,
  arith, Bool-cases,
}
use booking_monitor.Domain.Currency.{same_text}
use booking_monitor.Domain.TicketType.{is_empty}
use booking_monitor.Prelude.Int.{ℤ, pos, nonpositive, leb_ℤ, ltb_ℤ, ◌<ℤ◌, ◌≤ℤ◌}
use booking_monitor.Settings.{
  stripe, is_production, flatten, Strings, WorkerConfig, ReconConfig, SagaConfig, Config, Problem,
  when, production_problems, stripe_problems, provider_problems, worker_problems, recon_problems,
  saga_problems, admin_problems, validate, charging_age_below_threshold, bad_max_charging_age,
  bad_charging_threshold, failed_age_below_threshold, bad_max_failed_age, bad_stuck_threshold,
}

-- In production the payments are real, the test endpoints are off, and the admin stream has a long
-- secret and a limited lifetime.
pub record IsReal (c : Config) : Type 0 where
  pub real_gateway : same_text c.payment.provider stripe ≡ true
  pub has_key : is_empty c.payment.stripe.api_key ≡ false
  pub no_test_endpoints : c.enable_test_endpoints ≡ false
  pub long_secret : 32 ≤ length c.jwt_secret
  pub limited : pos 0 <ℤ c.jwt_max_ttl

-- Each batch, interval, timeout and count is positive, and no order is given up before it is looked at.
pub record IsSound (str : Strings) (c : Config) : Type 0 where
  pub retries : pos 0 <ℤ c.worker.max_retries
  pub retry_delay : pos 0 <ℤ c.worker.retry_base_delay
  pub read_count : pos 0 <ℤ c.worker.stream_read_count
  pub read_errors : pos 0 <ℤ c.max_consecutive_read_errors
  pub retention : pos 0 <ℤ c.dlq_retention
  pub recon_batch : pos 0 <ℤ c.recon.batch_size
  pub threshold : pos 0 <ℤ c.recon.charging_threshold
  pub charging : c.recon.charging_threshold <ℤ c.recon.max_charging_age
  pub saga_batch : pos 0 <ℤ c.saga.batch_size
  pub stuck : pos 0 <ℤ c.saga.stuck_threshold
  pub failed : c.saga.stuck_threshold <ℤ c.saga.max_failed_age
  pub tolerance : pos 0 ≤ℤ c.drift_absolute_tolerance
  pub live : (is_production str c.env ≡ false) ⊎ IsReal c

both_nil : (xs ys : List Problem) → xs ++ ys ≡ [] → (xs ≡ []) × (ys ≡ [])
both_nil [] ys h = (refl, h)
both_nil (x ∷ xs) ys h = absurd cc

abbrev AllNil : List (List Problem) → Type 0
AllNil [] = Unit
AllNil (part ∷ parts) = (part ≡ []) × AllNil parts

flatten-AllNil : (parts : List (List Problem)) → flatten parts ≡ [] → AllNil parts
unfolding flatten
flatten-AllNil [] h = tt
flatten-AllNil (part ∷ parts) h =
    let (first, rest) = both_nil part (flatten parts) h in (first, flatten-AllNil parts rest)

when_nil : (b : Bool) (p : Problem) → when b p ≡ [] → b ≡ false
when_nil true p h = absurd cc
when_nil false p h = refl

positive : (n : ℤ) (p : Problem) → when (nonpositive n) p ≡ [] → pos 0 <ℤ n
positive n p h = let good : nonpositive n ≡ false = when_nil _ _ h in ground arith

later :
    (a b : ℤ) (p : Problem)
    → pos 0 <ℤ a
    → pos 0 <ℤ b
    → when (not (nonpositive a) && not (nonpositive b) && leb_ℤ a b) p ≡ []
    → b <ℤ a
later a b p ha hb h =
    let good : (not (nonpositive a) && not (nonpositive b) && leb_ℤ a b) ≡ false = when_nil _ _ h in
    ground arith

-- The parts of the list of problems, where it is empty.
record Cleared (str : Strings) (c : Config) : Type 0 where
  in_production : production_problems str c ≡ []
  provider : provider_problems c ≡ []
  stripe_keys : stripe_problems str c ≡ []
  worker : worker_problems c.worker ≡ []
  read_errors : pos 0 <ℤ c.max_consecutive_read_errors
  retention : pos 0 <ℤ c.dlq_retention
  recon : recon_problems c.recon ≡ []
  saga : saga_problems c.saga ≡ []
  tolerance : ltb_ℤ c.drift_absolute_tolerance (pos 0) ≡ false
  admin : admin_problems str c ≡ []

validate-Cleared : (str : Strings) (c : Config) → validate str c ≡ [] → Cleared str c
unfolding validate
validate-Cleared str c h =
    let (
      dsn,
      (
        port,
        (
          in_production,
          (
            provider,
            (
              stripe_keys,
              (
                worker,
                (read_errors, (retention, (recon, (saga, (interval, (tolerance, (admin, end))))))),
              ),
            ),
          ),
        ),
      ),
    ) =
      flatten-AllNil _ h in
    record {
      in_production = in_production;
      provider = provider;
      stripe_keys = stripe_keys;
      worker = worker;
      read_errors = positive _ _ read_errors;
      retention = positive _ _ retention;
      recon = recon;
      saga = saga;
      tolerance = when_nil _ _ tolerance;
      admin = admin;
    }

worker_positive :
    (c : WorkerConfig)
    → worker_problems c ≡ []
    → (pos 0 <ℤ c.max_retries) × (pos 0 <ℤ c.retry_base_delay) × (pos 0 <ℤ c.stream_read_count)
unfolding worker_problems
worker_positive c h =
    let (retries, (delay, (count, (block, (failure, (pending, (backoff, end))))))) =
      flatten-AllNil _ h in
    (positive _ _ retries, positive _ _ delay, positive _ _ count)

recon_positive :
    (c : ReconConfig)
    → recon_problems c ≡ []
    → (pos 0 <ℤ c.batch_size)
      × (pos 0 <ℤ c.charging_threshold)
      × (c.charging_threshold <ℤ c.max_charging_age)
unfolding recon_problems
recon_positive c h =
    let (interval, (threshold, (timeout, (age, (batch, (below, end)))))) = flatten-AllNil _ h in
    (
      positive _ _ batch,
      positive _ _ threshold,
      later c.max_charging_age c.charging_threshold charging_age_below_threshold
          (positive c.max_charging_age bad_max_charging_age age)
          (positive c.charging_threshold bad_charging_threshold threshold) below,
    )

saga_positive :
    (c : SagaConfig)
    → saga_problems c ≡ []
    → (pos 0 <ℤ c.batch_size)
      × (pos 0 <ℤ c.stuck_threshold)
      × (c.stuck_threshold <ℤ c.max_failed_age)
unfolding saga_problems
saga_positive c h =
    let (interval, (threshold, (age, (batch, (below, end))))) = flatten-AllNil _ h in
    (
      positive _ _ batch,
      positive _ _ threshold,
      later c.max_failed_age c.stuck_threshold failed_age_below_threshold
          (positive c.max_failed_age bad_max_failed_age age)
          (positive c.stuck_threshold bad_stuck_threshold threshold) below,
    )

real_gateway :
    (str : Strings) (c : Config)
    → is_production str c.env ≡ true
    → production_problems str c ≡ []
    → provider_problems c ≡ []
    → same_text c.payment.provider stripe ≡ true
unfolding production_problems provider_problems flatten
real_gateway str c live here known = ground arith

no_test_endpoints :
    (str : Strings) (c : Config)
    → is_production str c.env ≡ true
    → production_problems str c ≡ []
    → c.enable_test_endpoints ≡ false
unfolding production_problems flatten
no_test_endpoints str c live here = ground arith

has_key :
    (str : Strings) (c : Config)
    → same_text c.payment.provider stripe ≡ true
    → stripe_problems str c ≡ []
    → is_empty c.payment.stripe.api_key ≡ false
unfolding stripe_problems flatten
has_key str c real keys = ground arith

locked_admin :
    (str : Strings) (c : Config)
    → is_production str c.env ≡ true
    → admin_problems str c ≡ []
    → (32 ≤ length c.jwt_secret) × (pos 0 <ℤ c.jwt_max_ttl)
unfolding admin_problems
locked_admin str c live admin =
    let (some_secret, (long, (limit, end))) = flatten-AllNil _ admin in
    let a : (is_production str c.env && is_empty c.jwt_secret) ≡ false = when_nil _ _ some_secret in
    let b : (not (is_empty c.jwt_secret) && ltb (length c.jwt_secret) 32) ≡ false =
      when_nil _ _ long in
    let d : (not (is_empty c.jwt_secret) && nonpositive c.jwt_max_ttl) ≡ false =
      when_nil _ _ limit in
    (ground arith, ground arith)

Cleared-IsReal :
    (str : Strings) (c : Config) → Cleared str c → (is_production str c.env ≡ false) ⊎ IsReal c
Cleared-IsReal str c k = elim (Bool-cases (is_production str c.env)) [
  | inr e ↦ inl e
  | inl live ↦
      let real = real_gateway str c live k.in_production k.provider in
      let (secret, limited) = locked_admin str c live k.admin in
      inr (record {
        real_gateway = real;
        has_key = has_key str c real k.stripe_keys;
        no_test_endpoints = no_test_endpoints str c live k.in_production;
        long_secret = secret;
        limited = limited;
      })
]

-- A configuration that `Validate` accepts is sound: its retries, delays, read counts, batches and
-- thresholds are positive, the tolerance is not negative, an order is given up only later than it is
-- looked at, and in production the gateway is Stripe with a key, the test endpoints are off, and the
-- admin stream has a secret of at least 32 bytes and a positive lifetime.
pub validate-IsSound : (str : Strings) (c : Config) → validate str c ≡ [] → IsSound str c
validate-IsSound str c h =
    let k = validate-Cleared str c h in
    let (retries, delay, count) = worker_positive c.worker k.worker in
    let (recon_batch, threshold, charging) = recon_positive c.recon k.recon in
    let (saga_batch, stuck, failed) = saga_positive c.saga k.saga in
    let tolerance = k.tolerance in
    record {
      retries = retries;
      retry_delay = delay;
      read_count = count;
      read_errors = k.read_errors;
      retention = k.retention;
      recon_batch = recon_batch;
      threshold = threshold;
      charging = charging;
      saga_batch = saga_batch;
      stuck = stuck;
      failed = failed;
      tolerance = ground arith;
      live = Cleared-IsReal str c k;
    }
