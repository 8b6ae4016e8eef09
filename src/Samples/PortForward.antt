-- ===== src/Samples/PortForward.antt =====
-- A lease that a gateway runtime serves and withdraws, and the theorems at it.
use waycloak.Prelude.{ℕ, ◌+◌, ◌≡◌, refl, true, false, List, [], ◌∷◌, none, All, arith}
use waycloak.Prelude.Int.{pos}
use waycloak.Prelude.Assoc.{lookup, insert}
use waycloak.Exec.{ok, Exec, ◌>>=◌, own_state, set_own, call, attempt, lift, pure, read}
use waycloak.PortForward.Intent.{
  v4, fixed, Intent, WithdrawalIntent, Gateway, runtime_api_version, validate_withdrawal,
  check_protocols, check_protocols_after, normalized_protocols,
}
use waycloak.PortForward.States.{RuntimeState, GatewayRule, provider_request}
use waycloak.PortForward.Manager.{
  Backends, Run, Reply, rule_set, store_state, replace_rules, collect_rules, is_serving,
  delete_state, now, Observation,
}
use waycloak.PortForward.Reconcile.{reconcile, withdrawal_observation, observation}
use waycloak.PortForward.Withdraw.{
  withdraw, withdraw_from, admit_withdrawal, start_draining, when_rules_replaced,
  when_rules_withdrawn, when_delivery_withdrawn, finish_draining, release, release_request,
  released, reply,
}
use waycloak.PortForward.Handoff.{AllAdvance, reconcile-AllAdvance}
use waycloak.PortForward.Retirement.{Drained, Retired, withdraw_completed}
use waycloak.PortForward.Rules.{Serves, rule_set_sound}
use waycloak.PortForward.Exact.{exact_observation, exact_withdrawal, observations-Exact}

abbrev answers : {A : Type 0} → A → Exec ℕ A
answers a w = (ok a, w)

abbrev backends : Backends ℕ
backends = record {
  observe_capabilities =
      answers (record { protocols = "TCP" ∷ []; max_leases = pos 4; shared_port = true });
  ensure_lease = λ _.
      answers
        (record { public_address = v4 7; public_port = 40000; renew_after = 50; expires_at = 100 });
  release_lease = λ _. answers tt;
  replace = λ _. answers tt;
  ready = λ _. answers true;
  withdrawn = λ _ _. answers true;
  deliver = λ _ _ w. (record { delivered = true; acknowledged = true; error = ok tt }, w);
  withdraw_delivery = λ _. answers true;
  port_forward_set = true;
  rules_set = true;
  delivery_set = true;
  now = λ w. (w, w + 1);
  addr_string = λ _. "10.0.0.2";
}

abbrev gateway : Gateway
gateway = record { is_nil = false; uid = "g1" }

abbrev intent : Intent
intent = record {
  api_version = runtime_api_version;
  lease_namespace = "apps";
  lease_uid = "l1";
  gateway_uid = "g1";
  handoff_generation = pos 1;
  service_uid = "s1";
  endpoint_slice_uid = "e1";
  pod_uid = "p1";
  binding_uid = "b1";
  provider_internal_port = 50000;
  previous_public_port = 0;
  overlay_address = v4 2;
  application_address = v4 3;
  backend_port = 8080;
  target_port = 8080;
  protocols = "TCP" ∷ [];
  adapter_name = "";
  application_port_mode = fixed;
}

abbrev serving : RuntimeState
serving = record {
  intent = intent;
  mapping = record { public_address = v4 7; public_port = 40000; expires_at = 100 };
  renew_after = 50;
  draining = false;
  drained = false;
  blocked = false;
}

abbrev withdrawal : WithdrawalIntent
withdrawal = record {
  api_version = runtime_api_version;
  lease_namespace = "apps";
  lease_uid = "l1";
  gateway_uid = "g1";
  handoff_generation = pos 1;
  service_uid = "s1";
  endpoint_slice_uid = "e1";
  pod_uid = "p1";
  application_endpoint_retired = true;
  release_provider = true;
  provider_internal_port = 50000;
  previous_public_port = 0;
  protocols = "TCP" ∷ [];
  adapter_name = "";
}

abbrev running : Run ℕ
running = record { world = 10; log = []; own = ("l1", serving) ∷ [] }

abbrev retired : Reply
retired = record {
  observation = record {
    api_version = runtime_api_version;
    lease_uid = "l1";
    gateway_uid = "g1";
    handoff_generation = pos 1;
    pod_uid = "p1";
    observed_at = 10;
    provider = none;
    gateway_rules_ready = false;
    delivered = false;
    acknowledged = false;
    withdrawn = true;
  };
  error = ok tt;
}

withdraw_retired : (withdraw backends gateway withdrawal running).0 ≡ ok retired
unfolding withdraw ◌>>=◌ validate_withdrawal own_state withdraw_from admit_withdrawal lookup
    start_draining store_state set_own when_rules_replaced replace_rules rule_set collect_rules
    insert is_serving call when_rules_withdrawn attempt lift pure read check_protocols
    check_protocols_after normalized_protocols when_delivery_withdrawn finish_draining release
    release_request provider_request released delete_state reply withdrawal_observation now
withdraw_retired = refl

reconcile-AllAdvance_example :
    AllAdvance running.own (reconcile backends gateway intent running).1.own
reconcile-AllAdvance_example = reconcile-AllAdvance backends gateway intent running

withdraw_completed_example :
    Drained (lookup "l1" (withdraw backends gateway withdrawal running).1.own)
    × Retired withdrawal
        (lookup "l1" running.own)
        (withdraw backends gateway withdrawal running).1.log
withdraw_completed_example =
    withdraw_completed backends gateway withdrawal running retired withdraw_retired refl

rule_set_sound_example :
    (rules : List GatewayRule) × ((rule_set backends running).0 ≡ ok rules)
    × All (Serves backends.addr_string running.own) rules
rule_set_sound_example = rule_set_sound backends running

observations-Exact_example :
    ((o : Observation) × ((observation backends intent serving.mapping running).0 ≡ ok o)
      × (exact_observation o intent ≡ true))
    × ((o : Observation) × ((withdrawal_observation backends withdrawal true running).0 ≡ ok o)
        × (exact_withdrawal o withdrawal ≡ true))
observations-Exact_example =
    observations-Exact backends intent serving.mapping withdrawal true running (omega arith)
