-- ===== src/PortForward/Resolution.antt =====
-- `Resolve` of internal/portforward/resolver.go.
use waycloak.Prelude.{
  ℕ, String, string_lt, Bool, true, false, ◌||◌, ◌==◌, not, List, [], ◌∷◌, Option, none, some,
  if◌then◌else◌, map,
}
use waycloak.Prelude.Assoc.{lookup, insert}
use waycloak.Exec.{
  resolution_invalid, resolution_not_found, resolution_unavailable, errors_is, Result, ok, err,
  reject_if, Exec, pure, lift, attempt, ◌>>=◌, ◌>>◌, Traced, perform,
}
use waycloak.Dataplane.{Netip}
use waycloak.PortForward.Backend.{
  ServicePort, BackendService, TargetRef, Endpoint, EndpointSlice, BackendPod, PodBinding,
  LeaseBackend, GatewayIdentity, Candidate, matching_ports, target_port_for_slice, owned_by_service,
  eligible_endpoint,
}
use waycloak.PortForward.Resolver.{
  Directory, Call, get_service, list_slices, list_bindings, get_pod, refused, is_not_found,
  usable_ref, candidate_from, sort_candidates,
}

pub record Resolution (n : Netip) : Type 0 where
  pub service : BackendService
  pub candidates : List (Candidate n)
  pub unavailable_candidates : List (Candidate n)

-- The maps `byPod` and `unavailableByPod`.
pub record Found (n : Netip) : Type 0 where
  pub by_pod : List (String × Candidate n)
  pub unavailable_by_pod : List (String × Candidate n)

abbrev pub is_better : {n : Netip} → Candidate n → Option (Candidate n) → Bool
is_better c none = true
is_better c (some current) = string_lt c.endpoint_slice_uid current.endpoint_slice_uid

unfoldable pub offer :
    {n : Netip} → Candidate n → List (String × Candidate n) → List (String × Candidate n)
offer c target = if is_better c (lookup c.pod_uid target) then insert c.pod_uid c target else target

unfoldable pub add_found : {n : Netip} → Option (Candidate n × Bool) → Found n → Found n
add_found none f = f
add_found (some (c, true)) f = record f { by_pod = offer c f.by_pod }
add_found (some (c, false)) f = record f { unavailable_by_pod = offer c f.unavailable_by_pod }

-- The error of a read becomes an error of its kind.
unfoldable pub service_found : Result BackendService → Result BackendService
service_found (ok s) = ok s
service_found (err e) =
    if errors_is is_not_found e
    then err (refused resolution_not_found "Backend Service is unavailable" (some e))
    else err (refused resolution_unavailable "Backend Service observation is unavailable" (some e))

unfoldable pub listed : {A : Type 0} → String → Result A → Result A
listed message (ok a) = ok a
listed message (err e) = err (refused resolution_unavailable message (some e))

unfoldable pub ports_found : List ServicePort → Result (List ServicePort)
ports_found [] = err (refused resolution_not_found "Backend Service port is unavailable" none)
ports_found (p ∷ ports) = ok (p ∷ ports)

-- The answer about a Pod: none that counts, or the Pod.
unfoldable pub pod_found : Result BackendPod → Result (Option BackendPod)
pod_found (ok pod) = ok (some pod)
pod_found (err e) =
    if errors_is is_not_found e
    then ok none
    else err (refused resolution_unavailable "Backend Pod observation is unavailable" (some e))

abbrev pub entries : {n : Netip} → List (String × Candidate n) → List (Candidate n)
entries = map (λ e. e.1)

abbrev pub slice_port : BackendService → List ServicePort → EndpointSlice → Option ℕ
slice_port service ports slice =
    if not (owned_by_service slice service) || not (slice.address_type == "IPv4")
    then none
    else target_port_for_slice slice ports

module _ {n : Netip} {W : Type 0} (d : Directory n W) where
  unfoldable pub candidate_with :
      GatewayIdentity
      → BackendService
      → EndpointSlice
      → ℕ
      → List PodBinding
      → TargetRef
      → List String
      → Option BackendPod
      → Option (Candidate n × Bool)
  candidate_with g service slice port bindings ref addresses none = none
  candidate_with g service slice port bindings ref addresses (some pod) =
      candidate_from d g service slice port bindings ref addresses pod

  unfoldable pub candidate_at :
      LeaseBackend
      → GatewayIdentity
      → BackendService
      → EndpointSlice
      → ℕ
      → List PodBinding
      → Endpoint
      → Option TargetRef
      → Exec (Traced W Call) (Option (Candidate n × Bool))
  candidate_at lease g service slice port bindings e none = pure none
  candidate_at lease g service slice port bindings e (some ref) = do
    answer ←
        attempt (perform (get_pod lease.namespace ref.name) (d.get_pod lease.namespace ref.name))
    pod ← lift (pod_found answer)
    pure (candidate_with g service slice port bindings ref e.addresses pod)

  -- `candidate`: none where it is not observed.
  unfoldable pub candidate :
      LeaseBackend
      → GatewayIdentity
      → BackendService
      → EndpointSlice
      → ℕ
      → List PodBinding
      → Endpoint
      → Exec (Traced W Call) (Option (Candidate n × Bool))
  candidate lease g service slice port bindings e =
      candidate_at lease g service slice port bindings e (usable_ref lease.namespace e.target_ref)

  unfoldable pub endpoint_loop :
      LeaseBackend
      → GatewayIdentity
      → BackendService
      → EndpointSlice
      → ℕ
      → List PodBinding
      → List Endpoint
      → Found n
      → Exec (Traced W Call) (Found n)
  endpoint_loop lease g service slice port bindings [] f = pure f
  endpoint_loop lease g service slice port bindings (e ∷ rest) f =
      if not (eligible_endpoint e)
      then endpoint_loop lease g service slice port bindings rest f
      else do
        c ← candidate lease g service slice port bindings e
        endpoint_loop lease g service slice port bindings rest (add_found c f)

  -- One EndpointSlice, with its target port if it has one.
  unfoldable pub slice_step :
      LeaseBackend
      → GatewayIdentity
      → BackendService
      → EndpointSlice
      → Option ℕ
      → List PodBinding
      → Found n
      → Exec (Traced W Call) (Found n)
  slice_step lease g service slice none bindings f = pure f
  slice_step lease g service slice (some port) bindings f =
      endpoint_loop lease g service slice port bindings slice.endpoints f

  unfoldable pub slice_loop :
      LeaseBackend
      → GatewayIdentity
      → BackendService
      → List ServicePort
      → List PodBinding
      → List EndpointSlice
      → Found n
      → Exec (Traced W Call) (Found n)
  slice_loop lease g service ports bindings [] f = pure f
  slice_loop lease g service ports bindings (slice ∷ rest) f = do
    more ← slice_step lease g service slice (slice_port service ports slice) bindings f
    slice_loop lease g service ports bindings rest more

  -- `Resolve`, on inputs that are not nil.
  unfoldable pub resolve : LeaseBackend → GatewayIdentity → Exec (Traced W Call) (Resolution n)
  resolve lease g = do
    lift (
        reject_if (not (lease.group == "") || not (lease.kind == "Service"))
          (refused resolution_invalid "Backend must be a same-namespace core Service" none))
    answer ← attempt (
        perform (get_service lease.namespace lease.name) (d.get_service lease.namespace lease.name))
    service ← lift (service_found answer)
    lift (
        reject_if (service.kind == "ExternalName" || service.uid == "") (
          refused resolution_invalid "Backend Service does not provide Pod endpoint identity" none))
    ports ← lift (ports_found (matching_ports lease.port service.ports))
    slices_answer ← attempt (
        perform (list_slices lease.namespace service.name)
          (d.list_slices lease.namespace service.name))
    slices ← lift (listed "EndpointSlice observation is unavailable" slices_answer)
    bindings_answer ←
        attempt (perform (list_bindings lease.namespace) (d.list_bindings lease.namespace))
    bindings ← lift (listed "Workload binding observation is unavailable" bindings_answer)
    f ←
        slice_loop lease g service ports bindings slices
          (record { by_pod = []; unavailable_by_pod = [] })
    pure (record {
      service = service;
      candidates = sort_candidates (entries f.by_pod);
      unavailable_candidates = sort_candidates (entries f.unavailable_by_pod);
    })
