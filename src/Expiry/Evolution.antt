-- ===== src/Expiry/Evolution.antt =====
-- The calls of internal/application/expiry/sweeper.go, one lemma for each function of the model.
use booking_monitor.Prelude.{ℕ, Bool, true, false, List, [], ◌∷◌}
use booking_monitor.Domain.Errors.{Result, ok, err}
use booking_monitor.Domain.Order.{Order}
use booking_monitor.Application.Events.{OutboxEvent}
use booking_monitor.Store.Db.{Db, ExpiredReservation}
use booking_monitor.Store.Exec.{M, ◌>>◌, is_cancelled}
use booking_monitor.Store.Keeps.{Keeps, Keeps-bind}
use booking_monitor.Store.Calls.{Laws, call_rules}
use booking_monitor.Expiry.Sweeper

module _ {R : Db → Db → Type 0} (L : Laws R) where
  tag_create-Keeps : (r : Result (Unit {0})) → Keeps R (Sweeper.tag_create r)
  unfolding Sweeper.tag_create
  tag_create-Keeps (ok _) = search call_rules
  tag_create-Keeps (err e) = search call_rules

  expire_body-Keeps : (o : Order) (row : OutboxEvent) → Keeps R (Sweeper.expire_body o row)
  unfolding Sweeper.expire_body
  expire_body-Keeps o row = search (call_rules, tag_create-Keeps) depth 7

  expire_result-Keeps : (b : Bool) (r : Result (Unit {0})) → Keeps R (Sweeper.expire_result b r)
  unfolding Sweeper.expire_result
  expire_result-Keeps true (ok _) = search call_rules
  expire_result-Keeps false (ok _) = search call_rules
  expire_result-Keeps true (err e) = search call_rules depth 8
  expire_result-Keeps false (err e) = search call_rules depth 8

  build_result-Keeps :
      (b : Bool) (o : Order) (r : Result OutboxEvent) → Keeps R (Sweeper.build_result b o r)
  unfolding Sweeper.build_result
  build_result-Keeps b o (ok row) =
      search (call_rules, expire_body-Keeps, expire_result-Keeps) depth 8
  build_result-Keeps b o (err e) = search call_rules

  found_result-Keeps : (b : Bool) (r : Result Order) → Keeps R (Sweeper.found_result b r)
  unfolding Sweeper.found_result
  found_result-Keeps b (ok o) = search (call_rules, build_result-Keeps) depth 9
  found_result-Keeps b (err e) = search call_rules

  resolve-Keeps : (cfg : Sweeper.Config) (e : ExpiredReservation) → Keeps R (Sweeper.resolve cfg e)
  unfolding Sweeper.resolve
  resolve-Keeps cfg e = search (call_rules, found_result-Keeps) depth 7

  pub unless_cancelled-Keeps :
      (stop : Bool) (m : M (Unit {0})) → Keeps R m → Keeps R (Sweeper.unless_cancelled stop m)
  unless_cancelled-Keeps true m k = search call_rules
  unless_cancelled-Keeps false m k = k

  resolve_all-Keeps :
      (cfg : Sweeper.Config) (es : List ExpiredReservation) → Keeps R (Sweeper.resolve_all cfg es)
  unfolding Sweeper.resolve_all
  resolve_all-Keeps cfg [] = search call_rules
  resolve_all-Keeps cfg (e ∷ es) =
      let rest : Keeps R (Sweeper.resolve cfg e >> Sweeper.resolve_all cfg es) =
        Keeps-bind L.order _ _ (resolve-Keeps cfg e) (λ _. resolve_all-Keeps cfg es) in
      Keeps-bind L.order is_cancelled _ (search call_rules)
        (λ stop. unless_cancelled-Keeps stop _ rest)

  count_result-Keeps : (r : Result (ℕ × ℕ)) → Keeps R (Sweeper.count_result r)
  unfolding Sweeper.count_result
  count_result-Keeps (ok (n, m)) = search call_rules
  count_result-Keeps (err e) = search call_rules

  find_result-Keeps :
      (cfg : Sweeper.Config) (r : Result (List ExpiredReservation))
      → Keeps R (Sweeper.find_result cfg r)
  unfolding Sweeper.find_result
  find_result-Keeps cfg (ok rows) =
      search (call_rules, resolve_all-Keeps, count_result-Keeps) depth 7
  find_result-Keeps cfg (err e) = search call_rules

  pub sweep-Keeps : (cfg : Sweeper.Config) → Keeps R (Sweeper.sweep cfg)
  unfolding Sweeper.sweep
  sweep-Keeps cfg = search (call_rules, find_result-Keeps)
