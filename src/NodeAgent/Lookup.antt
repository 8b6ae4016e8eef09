-- ===== src/NodeAgent/Lookup.antt =====
-- What internal/nodeagent/service.go reads before it acts: the Pod, its binding and the
-- configuration, and the state of the service.
use Prim.Native.String.{◌++◌}
use waycloak.Prelude.{
  ℕ, String, Bool, true, false, ◌&&◌, ◌||◌, ◌==◌, not, List, [], ◌∷◌, Option, none, some,
  if◌then◌else◌, map, nat_eq,
}
use waycloak.Prelude.Int.{pos, ltb_ℤ, to_unsigned}
use waycloak.Prelude.Assoc.{lookup, insert, erase}
use waycloak.Exec.{
  Err, new, sentinel, wrap, join, Sentinel, not_found, binding_not_ready, pod_identity_invalid,
  pod_lookup_failed, pod_uid_mismatch, pod_node_mismatch, errors_is, Result, ok, err, reject_if,
  and_then, wrap_result, Exec, pure, lift, attempt, ◌>>=◌, ◌>>◌, call, read, own_state, set_own,
}
use waycloak.Cni.Types.{
  PodIdentity, Resolution, Binding, validate_pod, validate_binding, binding_eq,
}
use waycloak.Dataplane.{Netip, Config, validate}
use waycloak.NodeAgent.Types.{
  Pod, WorkloadBinding, Observation, Report, Service, get_pod, get_binding, State, Run,
}

abbrev pub route_label : String
route_label = "networking.waycloak.io/egress-route"

abbrev pub report_api_version : String
report_api_version = "node-observations.waycloak.io/v1"

abbrev pub is_not_found : Sentinel → Bool
is_not_found not_found = true
is_not_found _ = false

abbrev pub is_uid_mismatch : Sentinel → Bool
is_uid_mismatch pod_uid_mismatch = true
is_uid_mismatch _ = false

-- `exactPodAbsent` of an error; that of nil is false.
abbrev pub exact_pod_absent : Err → Bool
exact_pod_absent e = errors_is is_not_found e || errors_is is_uid_mismatch e

-- A label that is missing reads as the empty string.
abbrev pub label_of : Option String → String
label_of none = ""
label_of (some v) = v

-- `bindingReference`
abbrev pub binding_reference : WorkloadBinding → Binding
binding_reference b = record {
  uid = b.uid;
  generation = b.generation;
  pod_uid = b.pod_uid;
  gateway_uid = b.gateway_uid;
}

-- `fmt.Errorf("%w: %v", ErrPodIdentityInvalid, err)`
unfoldable pub valid_identity : Result (Unit {0}) → Result (Unit {0})
valid_identity (ok _) = ok tt
valid_identity (err e) = err (wrap "validate Pod identity" (sentinel pod_identity_invalid))

unfoldable pub looked_up : Result Pod → Result Pod
looked_up (ok p) = ok p
looked_up (err e) = err (join (sentinel pod_lookup_failed) e)

unfoldable pub present_binding : Result WorkloadBinding → Result WorkloadBinding
present_binding (ok b) = ok b
present_binding (err e) =
    if errors_is is_not_found e then err (sentinel binding_not_ready) else err e

module _ {n : Netip} {W : Type 0} (s : Service n W) where
  unfoldable pub is_ready : State → Bool
  is_ready t =
      not s.transition_held && t.backend_healthy && (not s.require_relay || t.relay_healthy)

  -- `s.pod`
  unfoldable pub pod_of : PodIdentity → Exec (Run n W) Pod
  pod_of i = do
    lift (valid_identity (validate_pod i))
    lift (
        reject_if (not s.reader_set || not s.programmer_set || s.node_name == "")
          (wrap "node agent dependencies are incomplete" (sentinel pod_identity_invalid)))
    found ← attempt (call (get_pod i.namespace i.name) (s.get_pod i.namespace i.name))
    pod ← lift (looked_up found)
    lift (reject_if (not (pod.uid == i.uid)) (sentinel pod_uid_mismatch))
    lift (reject_if (not (pod.node_name == s.node_name)) (sentinel pod_node_mismatch))
    pure pod

  -- `waybinding.BindingName`
  unfoldable pub binding_object : String → String
  binding_object pod_uid = "pod-" ++ s.short_hash (pod_uid ∷ [])

  -- `s.rawBinding`
  unfoldable pub raw_binding : String → String → Exec (Run n W) WorkloadBinding
  raw_binding namespace pod_uid = do
    found ← attempt (
        call (get_binding namespace (binding_object pod_uid))
          (s.get_binding namespace (binding_object pod_uid)))
    b ← lift (present_binding found)
    lift (reject_if (not (b.pod_uid == pod_uid)) (sentinel binding_not_ready))
    pure b

  -- `s.binding`
  unfoldable pub binding_of : Pod → Exec (Run n W) WorkloadBinding
  binding_of pod = do
    b ← raw_binding pod.namespace pod.uid
    lift (
        reject_if
          (b.deleting
            || not (b.pod_name == pod.name)
            || not (b.node_name == s.node_name)
            || b.uid == "")
          (sentinel binding_not_ready))
    pure b

  abbrev parse_all : List String → Result (List n.Prefix)
  parse_all [] = ok []
  parse_all (text ∷ rest) =
      and_then (wrap_result "parse projected bypass CIDR" (s.parse_prefix text))
        λ p. and_then (parse_all rest) λ ps. ok (p ∷ ps)

  -- `ConfigFromBinding` before its last step, the validation.
  unfoldable pub projected_config :
      WorkloadBinding → n.Prefix → n.Prefix → n.Addr → n.AddrPort → List n.Prefix → Config n
  projected_config b overlay allocated gateway endpoint cidrs = record {
    pod_uid = b.pod_uid;
    allocation_generation = b.generation;
    gateway_generation = b.gateway_generation;
    address = s.with_bits allocated (n.bits overlay);
    overlay_cidr = overlay;
    gateway_address = gateway;
    gateway_endpoint = endpoint;
    gateway_health_port = to_unsigned 16 b.gateway_health_port;
    vni = to_unsigned 32 b.vni;
    mtu = b.mtu;
    cluster_traffic_mode =
        if b.cluster_traffic_mode == "BypassCluster" then "Preserve" else "Gateway";
    cluster_cidrs = cidrs;
    underlay_interface = "";
    overlay_interface_name = "";
    redirects = [];
  }

  -- `ConfigFromBinding`
  unfoldable pub config_from_binding : WorkloadBinding → Result (Config n)
  config_from_binding b =
      and_then (reject_if (ltb_ℤ b.generation (pos 1)) (new "current binding is required")) λ _.
        and_then (wrap_result "parse projected overlay CIDR" (s.parse_prefix b.overlay_cidr))
          λ overlay.
            and_then (wrap_result "parse allocated address" (s.parse_prefix b.address)) λ allocated.
              and_then
                (wrap_result "parse projected gateway address" (s.parse_addr b.gateway_address))
                λ gateway.
                  and_then
                    (wrap_result "parse projected gateway endpoint"
                      (s.parse_addr_port b.gateway_endpoint))
                    λ endpoint. and_then (parse_all b.bypass_cidrs) λ cidrs.
                      and_then
                        (validate n (projected_config b overlay allocated gateway endpoint cidrs))
                        λ _. ok (projected_config b overlay allocated gateway endpoint cidrs)

  -- `s.authority`, but for the Pod, which no caller uses.
  unfoldable pub authority : PodIdentity → Binding → Exec (Run n W) (WorkloadBinding × Config n)
  authority i requested = do
    lift (validate_binding requested i.uid)
    pod ← pod_of i
    b ← binding_of pod
    lift (
        reject_if (not (binding_eq (binding_reference b) requested))
          (new "requested binding identity or generation is stale"))
    config ← lift (config_from_binding b)
    pure (b, config)

  abbrev pub observation_of : WorkloadBinding → ℕ → Bool → Observation
  observation_of b now ready = record {
    binding_namespace = b.namespace;
    binding_name = b.name;
    binding_uid = b.uid;
    generation = b.generation;
    pod_uid = b.pod_uid;
    gateway_uid = b.gateway_uid;
    node_name = s.node_name;
    node_boot_id = s.node_boot_id;
    instance_id = s.instance_id;
    observed_at = now;
    ready = ready;
  }

  -- `s.observe`
  unfoldable pub record_observation : WorkloadBinding → Bool → Exec (Run n W) Observation
  record_observation b ready = do
    now ← read s.now
    t ← own_state
    set_own
        (record t { observations = insert b.pod_uid (observation_of b now ready) t.observations })
    pure (observation_of b now ready)

  -- `s.observeNotReady`
  unfoldable pub observe_not_ready : String → String → Exec (Run n W) (Unit {0})
  observe_not_ready namespace pod_uid = do
    found ← attempt (raw_binding namespace pod_uid)
    elim found [ ok b ↦ record_observation b false >>= λ _. pure tt | err e ↦ pure tt ]

  unfoldable pub forget_observation : String → Exec (Run n W) (Unit {0})
  forget_observation pod_uid = do
    t ← own_state
    set_own (record t { observations = erase pod_uid t.observations })

  abbrev pub values : List (String × Observation) → List Observation
  values = map λ e. e.1

  abbrev pub report_of : State → ℕ → Report
  report_of t now = record {
    api_version = report_api_version;
    node = record {
      node_name = s.node_name;
      node_boot_id = s.node_boot_id;
      instance_id = s.instance_id;
      observed_at = if nat_eq now 0 then none else some now;
      ready = is_ready t && not s.capability_held;
      capabilities = s.capabilities;
      release_identity = s.release_identity;
      conformance_profile = s.conformance_profile;
    };
    observations = values t.observations;
  }

  -- `s.Report`
  unfoldable pub report : Exec (Run n W) Report
  report = do now ← read s.now; t ← own_state; pure (report_of t now)

  -- `Resolve` and `Binding`, which the CNI plugin asks for.
  unfoldable pub resolve_pod : PodIdentity → Exec (Run n W) Resolution
  resolve_pod i = do
    pod ← pod_of i
    pure (record {
      pod_uid = pod.uid;
      enrolled = not (label_of (lookup route_label pod.labels) == "");
      terminating = pod.deleting;
    })

  unfoldable pub resolve_binding : PodIdentity → Exec (Run n W) Binding
  resolve_binding i = do
    pod ← pod_of i
    lift (reject_if (label_of (lookup route_label pod.labels) == "") (sentinel binding_not_ready))
    b ← binding_of pod
    pure (binding_reference b)

  -- `SetRelayHealthy` and `SetBackendHealthy`
  unfoldable pub set_relay_healthy : Bool → Exec (Run n W) (Unit {0})
  set_relay_healthy healthy = do t ← own_state; set_own (record t { relay_healthy = healthy })

  unfoldable pub set_backend_healthy : Bool → Exec (Run n W) (Unit {0})
  set_backend_healthy healthy = do t ← own_state; set_own (record t { backend_healthy = healthy })
