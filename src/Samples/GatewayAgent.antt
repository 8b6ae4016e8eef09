-- ===== src/Samples/GatewayAgent.antt =====
-- A gateway whose backend, engine and prober answer well, and the theorems at it.
use waycloak.Prelude.{ℕ, String, true, false, [], ◌≡◌, ◌⊎◌}
use waycloak.Exec.{ok}
use waycloak.Exec.Triple.{Post}
use waycloak.PortForward.Intent.{v4}
use waycloak.GatewayAgent.{Service, Run, reconcile, round}
use waycloak.GatewayAgent.Forwarding.{Guarded, Open, Closed, all_ready, reconcile_outcome}
use waycloak.GatewayAgent.Rounds.{here, next, rounding, reachable-Truthful}

abbrev gateway : Service String ℕ
gateway = record {
  wired = true;
  config = "gateway-1";
  ensure_overlay = λ _ w. (ok tt, w);
  replace_rules = λ _ _ w. (ok tt, w);
  observe = λ w. (ok (record { tunnel_ready = true; dns_ready = true; public_ip = v4 1 }), w);
  probe = λ w. (ok tt, w);
}

abbrev start : Run String ℕ
start = record {
  world = 0;
  log = [];
  own = record { healthy = false; tunnel_ready = false; dns_ready = false };
}

reconcile_outcome_example :
    Post
      (λ _ u. (u.own ≡ all_ready) × Open u.log × Guarded u.log)
      (λ _ u.
        ((gateway.wired ≡ false) × (u ≡ start))
        ⊎ ((u.own.healthy ≡ false) × Closed u.log × Guarded u.log))
      (reconcile gateway start).0
      (reconcile gateway start).1
reconcile_outcome_example = reconcile_outcome gateway start tt

reachable-Truthful_example :
    ((round gateway true start).1.own.healthy ≡ true → Open (round gateway true start).1.log)
    × Guarded (round gateway true start).1.log
reachable-Truthful_example =
    reachable-Truthful gateway start (round gateway true start).1 (next here (rounding start true))
      ((λ up. cc), tt)
