-- ===== src/Recon/Drift/Tolerance.antt =====
-- What the drift detector calls a drift.
use booking_monitor.Prelude.{
  ◌≡◌, ◌⊎◌, inl, inr, refl, Bool, true, false, arith, Bool-cases, ◌∙◌, if◌then◌else◌,
}
use booking_monitor.Prelude.Int.{
  ℤ, pos, ◌≤ℤ◌, ◌+ℤ◌, ◌-ℤ◌, nonpositive, ltb_ℤ, -ℤ_parts, +ℤ_parts, leb→le_ℤ,
}
use booking_monitor.Domain.Errors.{Result, ok, err}
use booking_monitor.Domain.TicketType.{TicketType}
use booking_monitor.Application.Metrics.{cache_high, cache_low_excess}
use booking_monitor.Store.Exec.{Schedule, World, pure, attempt, emit, ◌>>=◌}
use booking_monitor.Cache.Inventory.{set_ticket_type_metadata}
use booking_monitor.Recon.Drift.{
  DriftConfig, CheckOutcome, clean, drifted, flag, auto_rehydrate, missing, compare, judge,
  rehydrate_result,
}

-- The key is there or is not needed, and the count in Redis is at most that of the row, and below it
-- by at most the tolerance.
pub record InTolerance (cfg : DriftConfig) (t : TicketType) (q : ℤ) (found : Bool) : Type 0 where
  pub present : (found ≡ true) ⊎ (t.available_tickets ≤ℤ pos 0)
  pub not_high : q ≤ℤ t.available_tickets
  pub not_low : t.available_tickets ≤ℤ cfg.absolute_tolerance +ℤ q

-- The verdict on a count, and what it is about.
abbrev pub Verdict : DriftConfig → TicketType → ℤ → Bool → Result CheckOutcome → Type 0
Verdict cfg t q found r =
    ((r ≡ ok clean) × InTolerance cfg t q found)
    ⊎ ((r ≡ ok drifted) × (InTolerance cfg t q found → ⊥))

after_rehydrate :
    (r : Result (Unit {0})) (s : Schedule) (w : World)
    → ((rehydrate_result r >>= λ u. pure drifted) s w).0 ≡ ok drifted
unfolding rehydrate_result emit ◌>>=◌ pure
after_rehydrate (ok _) s w = refl
after_rehydrate (err e) s w = refl

module _ {cfg : DriftConfig} {t : TicketType} (q : ℤ) where
  too_high :
      (found : Bool)
      → ltb_ℤ (t.available_tickets -ℤ q) (pos 0) ≡ true
      → InTolerance cfg t q found
      → ⊥
  too_high found h i = ground (arith, -ℤ_parts t.available_tickets q, i.not_high)

  too_low :
      (found : Bool)
      → ltb_ℤ cfg.absolute_tolerance (t.available_tickets -ℤ q) ≡ true
      → InTolerance cfg t q found
      → ⊥
  too_low found h i =
      ground (arith, -ℤ_parts t.available_tickets q, +ℤ_parts cfg.absolute_tolerance q, i.not_low)

  within :
      (found : Bool)
      → (found ≡ true) ⊎ (t.available_tickets ≤ℤ pos 0)
      → ltb_ℤ (t.available_tickets -ℤ q) (pos 0) ≡ false
      → ltb_ℤ cfg.absolute_tolerance (t.available_tickets -ℤ q) ≡ false
      → InTolerance cfg t q found
  within found here fine near = record {
    present = here;
    not_high = ground (arith, -ℤ_parts t.available_tickets q);
    not_low = ground (arith, -ℤ_parts t.available_tickets q, +ℤ_parts cfg.absolute_tolerance q);
  }

  unneeded : nonpositive t.available_tickets ≡ false → InTolerance cfg t q false → ⊥
  unneeded h i = elim i.present [ inl e ↦ ground arith | inr e ↦ ground arith ]

module _ (cfg : DriftConfig) (t : TicketType) (s : Schedule) where
  rehydrated :
      (b : Bool) (w : World)
      → (((if b then auto_rehydrate cfg t else pure tt) >>= λ u. pure drifted) s w).0 ≡ ok drifted
  unfolding auto_rehydrate attempt ◌>>=◌ pure
  rehydrated true w =
      after_rehydrate (set_ticket_type_metadata cfg.formats t s w).0 s
        (set_ticket_type_metadata cfg.formats t s w).1
  rehydrated false w = refl

  missing-drifted : (w : World) → (missing cfg t s w).0 ≡ ok drifted
  unfolding missing emit ◌>>=◌
  missing-drifted w = rehydrated cfg.auto_rehydrate _

  verdict : Bool → Bool → CheckOutcome
  verdict high low = if high then drifted else if low then drifted else clean

  compared_by :
      (high low : Bool) (w : World)
      → ((if high then flag cache_high else if low then flag cache_low_excess else pure clean) s
          w).0
        ≡ ok (verdict high low)
  unfolding emit ◌>>=◌ pure verdict
  compared_by true low w = refl
  compared_by false true w = refl
  compared_by false false w = refl

  compared :
      (q : ℤ) (found : Bool) (w : World)
      → (found ≡ true) ⊎ (t.available_tickets ≤ℤ pos 0)
      → Verdict cfg t q found (compare cfg t (t.available_tickets -ℤ q) s w).0
  unfolding compare verdict
  compared q found w here =
      let drift : ℤ = t.available_tickets -ℤ q in
      let e : (compare cfg t drift s w).0
          ≡ ok (verdict (ltb_ℤ drift (pos 0)) (ltb_ℤ cfg.absolute_tolerance drift)) =
        compared_by (ltb_ℤ drift (pos 0)) (ltb_ℤ cfg.absolute_tolerance drift) w in
      elim (Bool-cases (ltb_ℤ drift (pos 0))) [
        | inl high ↦ inr (e ∙ rw high refl, λ i. too_high q found high i)
        | inr fine ↦ elim (Bool-cases (ltb_ℤ cfg.absolute_tolerance drift)) [
          | inl low ↦ inr (e ∙ rw fine (rw low refl), λ i. too_low q found low i)
          | inr near ↦ inl (e ∙ rw fine (rw near refl), within q found here fine near)
        ]
      ]

  -- A check that has read the count is clean exactly where the count is in tolerance, and reports a
  -- drift otherwise, with the rehydration or without it, whatever fails.
  pub judge-Verdict :
      (q : ℤ) (found : Bool) (w : World) → Verdict cfg t q found (judge cfg t (ok (q, found)) s w).0
  unfolding judge
  judge-Verdict q true w = compared q true w (inl refl)
  judge-Verdict q false w = elim (Bool-cases (nonpositive t.available_tickets)) [
    | inl none_left ↦
        rw none_left (compared q false w (inr (leb→le_ℤ t.available_tickets (pos 0) none_left)))
    | inr some_left ↦ rw some_left (inr (missing-drifted w, λ i. unneeded q some_left i))
  ]
