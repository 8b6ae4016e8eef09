-- ===== src/Samples/Leases.antt =====
-- A lease whose status names the endpoint that it serves, and the theorems at it.
use waycloak.Prelude.{◌≤◌, true, false, ◌&&◌, [], ◌∷◌, none, some, ◌≡◌, refl, ◌⊎◌}
use waycloak.Prelude.Int.{pos}
use waycloak.Exec.{ok}
use waycloak.PortForward.Backend.{Candidate}
use waycloak.PortForward.Intent.{
  v4, Gateway, validate_runtime_intent, validate_withdrawal, normalized_protocols, check_protocols,
  check_protocols_after,
}
use waycloak.PortForward.Manager.{zero_observation}
use waycloak.PortForward.Exact.{exact_observation, exact_withdrawal}
use waycloak.PortForward.Lease.{
  Lease, intent_for, withdrawal_for, previous_port, previous_port_lem, withdrawal_for-Exact,
  accepted_withdrawal,
}
use waycloak.Samples.Dataplane.{numbers}

abbrev gateway : Gateway
gateway = record { is_nil = false; uid = "g1" }

abbrev lease : Lease
lease = record {
  namespace = "apps";
  uid = "l1";
  protocols = "TCP" ∷ [];
  adapter_name = none;
  handoff_generation = pos 3;
  active_endpoint = some (record { service_uid = "s1"; endpoint_slice_uid = "e1"; pod_uid = "p1" });
  public_port = some (pos 40000);
}

abbrev candidate : Candidate numbers
candidate = record {
  service_uid = "s1";
  endpoint_slice_uid = "e1";
  pod_name = "app";
  pod_uid = "p1";
  binding_name = "binding-1";
  binding_uid = "b1";
  overlay_address = 2;
  application_address = 5;
  target_port = 8080;
}

accepted :
    validate_runtime_intent gateway
      (record (intent_for v4 lease gateway candidate (pos 3)) { provider_internal_port = 50000 })
    ≡ ok tt
unfolding validate_runtime_intent normalized_protocols check_protocols check_protocols_after
    intent_for
accepted = refl

previous_port_lem_example :
    ((previous_port (some (pos 40000)) ≡ 0)
      ⊎ (some (pos 40000) ≡ some (pos (previous_port (some (pos 40000))))))
    × (previous_port (some (pos 40000)) ≤ 65535)
previous_port_lem_example = previous_port_lem (some (pos 40000))

withdrawal_for-Exact_example :
    exact_withdrawal (record zero_observation { withdrawn = true }) (withdrawal_for lease gateway)
    ≡ (exact_observation
          (record zero_observation { withdrawn = true })
          (intent_for v4 lease gateway candidate (pos 3))
        && true)
withdrawal_for-Exact_example =
    withdrawal_for-Exact v4 lease gateway candidate (pos 3)
      (record zero_observation { withdrawn = true }) (refl, refl)

accepted_withdrawal_example :
    (validate_withdrawal gateway (withdrawal_for lease gateway) ≡ ok tt)
    × (validate_withdrawal gateway (record (withdrawal_for lease gateway) {
      release_provider = true;
      provider_internal_port = 50000;
    })
        ≡ ok tt)
accepted_withdrawal_example =
    accepted_withdrawal v4 lease gateway candidate (pos 3) 50000 (refl, refl) accepted
