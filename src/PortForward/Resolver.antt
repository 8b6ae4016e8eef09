-- ===== src/PortForward/Resolver.antt =====
-- internal/portforward/resolver.go: the Pods that may serve a lease, and the choice among them.
use waycloak.Prelude.{
  ℕ, String, string_lt, Bool, true, false, ◌&&◌, ◌||◌, ◌==◌, not, List, [], ◌∷◌, Option, none, some,
  if◌then◌else◌,
}
use waycloak.Prelude.Int.{eq_ℤ}
use waycloak.Prelude.Assoc.{lookup}
use waycloak.Exec.{Err, sentinel, wrap, join, Sentinel, not_found, Result, ok, err, Exec}
use waycloak.Conditions.{Condition, current_true}
use waycloak.Dataplane.{Netip}
use waycloak.PortForward.Backend.{
  BackendService, TargetRef, EndpointSlice, BackendPod, PodBinding, GatewayIdentity, Candidate,
}

-- A `ResolutionError` of a kind, with its message and the error that it wraps.
abbrev pub refused : Sentinel → String → Option Err → Err
refused kind message none = wrap message (sentinel kind)
refused kind message (some e) = join (wrap message (sentinel kind)) e

abbrev pub is_not_found : Sentinel → Bool
is_not_found not_found = true
is_not_found _ = false

-- The reader, the parsers of net/netip and `FindStatusCondition`.
pub record Directory (n : Netip) (W : Type 0) : Type 0 where
  pub get_service : String → String → Exec W BackendService
  pub list_slices : String → String → Exec W (List EndpointSlice)
  pub list_bindings : String → Exec W (List PodBinding)
  pub get_pod : String → String → Exec W BackendPod
  pub parse_addr : String → Result n.Addr
  pub parse_prefix : String → Result n.Prefix
  pub is_4 : n.Addr → Bool
  pub addr_text : n.Addr → String
  pub find : List Condition → String → Option Condition

pub data Call : Type 0 where
  get_service : String → String → Result BackendService → Call
  list_slices : String → String → Result (List EndpointSlice) → Call
  list_bindings : String → Result (List PodBinding) → Call
  get_pod : String → String → Result BackendPod → Call

abbrev pub enrollment_label : String
enrollment_label = "networking.waycloak.io/egress-route"

abbrev pub label_text : Option String → String
label_text none = ""
label_text (some v) = v

unfoldable pub is_bound : BackendPod → GatewayIdentity → PodBinding → Bool
is_bound pod g b =
    not (
      not (b.pod_name == pod.name)
      || not (b.pod_uid == pod.uid)
      || not (b.gateway_namespace == g.namespace)
      || not (b.gateway_name == g.name)
      || not (b.gateway_uid == g.uid)
      || not (eq_ℤ b.gateway_generation g.generation)
      || b.uid == ""
      || b.deleting)
    && label_text (lookup enrollment_label pod.labels) == b.route_name

unfoldable pub bound_bindings : BackendPod → GatewayIdentity → List PodBinding → List PodBinding
bound_bindings pod g [] = []
bound_bindings pod g (b ∷ rest) =
    let more = bound_bindings pod g rest in if is_bound pod g b then b ∷ more else more

-- `len(matches) != 1`
abbrev pub the_only : {A : Type 0} → List A → Option A
the_only [] = none
the_only (x ∷ []) = some x
the_only (x ∷ y ∷ rest) = none

abbrev pub parsed : {A : Type 0} → Result A → Option A
parsed (ok a) = some a
parsed (err e) = none

abbrev pub option_then : {A B : Type 0} → Option A → (A → Option B) → Option B
option_then none f = none
option_then (some a) f = f a

abbrev pub only_if : {A : Type 0} → Bool → A → Option A
only_if true a = some a
only_if false a = none

-- `slices.SortFunc` and `sortCandidates` order by Pod UID and then by EndpointSlice UID.
unfoldable pub precedes : {n : Netip} → Candidate n → Candidate n → Bool
precedes a b =
    if a.pod_uid == b.pod_uid
    then string_lt a.endpoint_slice_uid b.endpoint_slice_uid
    else string_lt a.pod_uid b.pod_uid

unfoldable pub insert_candidate :
    {n : Netip} → Candidate n → List (Candidate n) → List (Candidate n)
insert_candidate c [] = c ∷ []
insert_candidate c (d ∷ rest) = if precedes d c then d ∷ insert_candidate c rest else c ∷ d ∷ rest

unfoldable pub sort_candidates : {n : Netip} → List (Candidate n) → List (Candidate n)
sort_candidates [] = []
sort_candidates (c ∷ rest) = insert_candidate c (sort_candidates rest)

abbrev pub first_of : {A : Type 0} → List A → Option A
first_of [] = none
first_of (x ∷ rest) = some x

abbrev pub or_else : {A : Type 0} → Option A → Option A → Option A
or_else (some a) other = some a
or_else none other = other

-- The first loop of `Select`.
unfoldable pub find_pod : {n : Netip} → String → List (Candidate n) → Option (Candidate n)
find_pod uid [] = none
find_pod uid (c ∷ rest) = if c.pod_uid == uid then some c else find_pod uid rest

-- `Select`, with the Pod UID of the current endpoint.
unfoldable pub select : {n : Netip} → List (Candidate n) → Option String → Option (Candidate n)
select candidates none = first_of (sort_candidates candidates)
select candidates (some uid) =
    or_else (find_pod uid candidates) (first_of (sort_candidates candidates))

unfoldable pub usable_ref : String → Option TargetRef → Option TargetRef
usable_ref namespace none = none
usable_ref namespace (some ref) =
    if not (ref.kind == "Pod")
      || ref.name == ""
      || ref.uid == ""
      || (not (ref.namespace == "") && not (ref.namespace == namespace))
    then none
    else some ref

module _ {n : Netip} {W : Type 0} (d : Directory n W) where
  -- The tests of `candidate` on the Pod that was read, and the address of the endpoint.
  unfoldable pub application_address : TargetRef → BackendPod → List String → Option n.Addr
  application_address ref pod addresses =
      if not (pod.uid == ref.uid) || not (pod.phase == "Running") || pod.deleting
      then none
      else option_then (the_only addresses) λ text.
        option_then (parsed (d.parse_addr text))
          λ a. only_if (d.is_4 a && not (pod.pod_ip == "") && pod.pod_ip == d.addr_text a) a

  unfoldable pub overlay_address : PodBinding → Option n.Addr
  overlay_address b =
      option_then (parsed (d.parse_prefix b.address)) λ p. only_if (d.is_4 (n.addr p)) (n.addr p)

  unfoldable pub is_eligible : PodBinding → Bool
  is_eligible b =
      current_true d.find b.conditions "Programmed" b.observed_generation b.generation
      && current_true d.find b.conditions "Ready" b.observed_generation b.generation
      && current_true d.find b.conditions "NodeReady" b.observed_generation b.generation

  abbrev pub candidate_of :
      BackendService → EndpointSlice → ℕ → BackendPod → PodBinding → n.Addr → n.Addr → Candidate n
  candidate_of service slice port pod b overlay application = record {
    service_uid = service.uid;
    endpoint_slice_uid = slice.uid;
    pod_name = pod.name;
    pod_uid = pod.uid;
    binding_name = b.name;
    binding_uid = b.uid;
    overlay_address = overlay;
    application_address = application;
    target_port = port;
  }

  -- `candidate` once the Pod was read: the candidate, and whether it is eligible.
  unfoldable pub candidate_from :
      GatewayIdentity
      → BackendService
      → EndpointSlice
      → ℕ
      → List PodBinding
      → TargetRef
      → List String
      → BackendPod
      → Option (Candidate n × Bool)
  candidate_from g service slice port bindings ref addresses pod =
      option_then (application_address ref pod addresses) λ application.
        option_then (the_only (bound_bindings pod g bindings)) λ b.
          option_then (overlay_address b) λ overlay.
            some (candidate_of service slice port pod b overlay application, is_eligible b)
