-- ===== src/Samples/NodeAgent.antt =====
-- A service with one attachment over answers that never change, and the theorems at it.
use waycloak.Prelude.{ℕ, Bool, true, false, ◌==◌, ◌≡◌, refl, [], ◌∷◌, if◌then◌else◌, some, ◌⊎◌}
use waycloak.Prelude.Int.{pos}
use waycloak.Exec.{ok, ◌>>=◌, own_state, read}
use waycloak.Exec.Triple.{Post}
use waycloak.Dataplane.{Config, validate, validate_redirects}
use waycloak.Cni.Types.{PodIdentity, ready, Attachment, validate_pod, validate_binding, binding_eq}
use waycloak.NodeAgent.Types.{Pod, WorkloadBinding, Service, Run}
use waycloak.NodeAgent.Lookup.{
  is_ready, report, report_of, binding_reference, config_from_binding, projected_config,
}
use waycloak.NodeAgent.Program.{prepare, check}
use waycloak.NodeAgent.Withdraw.{lockdown_all}
use waycloak.NodeAgent.Reconcile.{reconcile_all}
use waycloak.NodeAgent.Guard.{Guarded, Verified, Shown, LockdownAsked, configures, openings}
use waycloak.NodeAgent.Outcome.{prepare_outcome, check_outcome}
use waycloak.NodeAgent.Steps.{
  Reach, ListedIn, here, next, reconciling, reachable-Guarded, held-openings,
}
use waycloak.NodeAgent.Success.{Agreed, Accepting, prepare_succeeds}
use waycloak.NodeAgent.Capability.{Unlabelled, unready_report-Unlabelled}
use waycloak.Scheduling.{apply_report}
use waycloak.Samples.Dataplane.{numbers}
use waycloak.Samples.Scheduling.{publisher}

abbrev pod : Pod
pod = record {
  name = "app";
  namespace = "team";
  uid = "pod-1";
  node_name = "node-1";
  labels = ("networking.waycloak.io/egress-route", "route") ∷ [];
  deleting = false;
}

abbrev identity : PodIdentity
identity = record {
  namespace = "team";
  name = "app";
  uid = "pod-1";
  container_id = "c-1";
  if_name = "eth0";
  net_ns = "/run/netns/1";
}

abbrev workload : WorkloadBinding
workload = record {
  name = "binding-1";
  namespace = "team";
  uid = "b-1";
  generation = pos 2;
  deleting = false;
  pod_name = "app";
  pod_uid = "pod-1";
  gateway_uid = "g-1";
  node_name = "node-1";
  address = "10.0.1.2/32";
  overlay_cidr = "10.0.1.0/24";
  gateway_address = "10.0.1.1";
  gateway_endpoint = "192.0.2.1:4789";
  gateway_generation = pos 1;
  gateway_health_port = pos 9000;
  vni = pos 42;
  mtu = pos 1400;
  cluster_traffic_mode = "BypassCluster";
  bypass_cidrs = [];
}

-- Its record is one generation behind.
abbrev attachment : Attachment
attachment = record {
  network = "waycloak";
  pod = identity;
  namespace_identity = "net:[1]";
  phase = ready;
  binding_uid = "b-1";
  binding_generation = pos 1;
  gateway_uid = "g-1";
  updated_at = 1;
}

abbrev service : Bool → Service numbers ℕ
service held = record {
  reader_set = true;
  binding_reader_set = true;
  programmer_set = true;
  publisher_set = true;
  get_pod = λ _ _ w. (ok pod, w);
  get_binding = λ _ _ w. (ok workload, w);
  list_bindings = λ w. (ok (workload ∷ []), w);
  identity = λ _ w. (ok "net:[1]", w);
  install_lockdown = λ _ _ w. (ok tt, w);
  configure = λ _ _ w. (ok tt, w);
  verify = λ _ _ w. (ok tt, w);
  cleanup = λ _ _ w. (ok tt, w);
  list_all = λ w. (ok (attachment ∷ []), w);
  save = λ _ w. (ok tt, w);
  delete = λ _ w. (ok tt, w);
  publish = λ _ w. (ok tt, w);
  now = λ w. (w, w);
  node_name = "node-1";
  node_boot_id = "boot-1";
  instance_id = "instance-1";
  require_relay = true;
  capability_held = false;
  transition_held = held;
  capabilities = [];
  release_identity = publisher.release_identity;
  conformance_profile = "";
  short_hash = λ _. "aa";
  parse_prefix = λ text. if text == "10.0.1.0/24" then ok 256 else ok 258;
  parse_addr = λ _. ok 257;
  parse_addr_port = λ _. ok 4789;
  with_bits = λ p _. p;
}

abbrev start : Run numbers ℕ
start = record {
  world = 1000;
  log = [];
  own = record { observations = []; relay_healthy = true; backend_healthy = true };
}

prepare_outcome_example :
    Post
      (λ _ u.
        Verified identity.net_ns identity.uid (pos 2) u.log × Shown identity.uid (pos 2) true u.own)
      (λ _ u.
        ((u.own ≡ start.own) × (configures u.log ≡ 0))
        ⊎ (LockdownAsked identity.net_ns identity.uid u.log
            × Shown identity.uid (pos 2) false u.own))
      (prepare (service false) identity (binding_reference workload) start).0
      (prepare (service false) identity (binding_reference workload) start).1
prepare_outcome_example =
    prepare_outcome (service false) identity (binding_reference workload) start (λ _. ⊥) tt

check_outcome_example :
    Post
      (λ _ u.
        Verified identity.net_ns identity.uid (pos 2) u.log × Shown identity.uid (pos 2) true u.own)
      (λ _ u.
        LockdownAsked identity.net_ns identity.uid u.log
        × ((u.own ≡ start.own) ⊎ Shown identity.uid (pos 2) false u.own))
      (check (service false) identity (binding_reference workload) start).0
      (check (service false) identity (binding_reference workload) start).1
check_outcome_example =
    check_outcome (service false) identity (binding_reference workload) start (λ _. ⊥) tt

abbrev reconciled : Reach (service false) start (reconcile_all (service false) start).1
reconciled = next here (reconciling start)

reachable-Guarded_example :
    Guarded
      (ListedIn (service false) (λ _. ⊥) reconciled)
      (reconcile_all (service false) start).1.log
reachable-Guarded_example =
    reachable-Guarded (service false) start (reconcile_all (service false) start).1 (λ _. ⊥)
      reconciled tt

held-openings_example :
    (openings (prepare (service true) identity (binding_reference workload) start).1.log ≡ 0)
    × (openings (check (service true) identity (binding_reference workload) start).1.log ≡ 0)
    × (openings (lockdown_all (service true) start).1.log ≡ 0)
    × (openings (reconcile_all (service true) start).1.log ≡ 0)
held-openings_example =
    held-openings (service true) identity (binding_reference workload) start refl

reported : (report (service true) start).0 ≡ ok (report_of (service true) start.own 1000)
unfolding report ◌>>=◌ own_state read
reported = refl

unready : is_ready (service true) start.own ≡ false
unfolding is_ready
unready = refl

unready_report-Unlabelled_example :
    Unlabelled
      (apply_report publisher
        (some "node-1")
        (report_of (service true) start.own 1000).node
        (record { world = 20000000000; log = [] })).1.log
unready_report-Unlabelled_example =
    unready_report-Unlabelled (service true) start (report_of (service true) start.own 1000)
      publisher (some "node-1") (record { world = 20000000000; log = [] }) (rw unready refl)
      reported refl

abbrev config : Config numbers
config = record {
  pod_uid = "pod-1";
  allocation_generation = pos 2;
  gateway_generation = pos 1;
  address = 258;
  overlay_cidr = 256;
  gateway_address = 257;
  gateway_endpoint = 4789;
  gateway_health_port = 9000;
  vni = 42;
  mtu = pos 1400;
  cluster_traffic_mode = "Preserve";
  cluster_cidrs = [];
  underlay_interface = "";
  overlay_interface_name = "";
  redirects = [];
}

ready_to_prepare : is_ready (service false) start.own ≡ true
unfolding is_ready
ready_to_prepare = refl

configured : config_from_binding (service false) workload ≡ ok config
unfolding config_from_binding projected_config validate validate_redirects
configured = refl

agreed : Agreed (service false) identity (binding_reference workload) pod workload config
unfolding validate_pod validate_binding binding_eq
agreed = record {
  valid = refl;
  current = refl;
  complete = refl;
  answers_pod = λ w. refl;
  same_uid = refl;
  local = refl;
  answers_binding = λ w. refl;
  of_pod = refl;
  in_force = refl;
  requests = refl;
  configures = configured;
}

accepting : Accepting (service false) identity (binding_reference workload) pod workload config
accepting = record { locks = λ w. refl; configures = λ w. refl; verifies = λ w. refl }

prepare_succeeds_example :
    ((prepare (service false) identity (binding_reference workload) start).0 ≡ ok tt)
    × Shown "pod-1"
        (pos 2)
        true
        (prepare (service false) identity (binding_reference workload) start).1.own
prepare_succeeds_example =
    prepare_succeeds (service false) identity (binding_reference workload) pod workload config start
      ready_to_prepare agreed accepting
