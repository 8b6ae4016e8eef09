-- ===== src/Samples/Backends.antt =====
-- A backend Service with one Pod that is enrolled, and the theorems on its resolution.
use waycloak.Prelude.{
  In, ℕ, String, string_lt, true, false, ◌≡◌, ◌≢◌, refl, sym, ◌∙◌, [], ◌∷◌, List, some, none,
  Option, inl, inr,
}
use waycloak.Prelude.Int.{pos}
use waycloak.Exec.{ok, Traced, ◌>>=◌, perform}
use waycloak.Conditions.{Condition, current, current_true}
use waycloak.Prelude.Assoc.{lookup, insert}
use waycloak.PortForward.Backend.{
  number, BackendService, EndpointSlice, Endpoint, BackendPod, PodBinding, LeaseBackend,
  GatewayIdentity, Candidate, matching_ports, is_referenced_port, owned_by_service,
  target_port_for_slice, agreed_target, target_ports, first_target, serves_port, eligible_endpoint,
}
use waycloak.PortForward.Resolver.{
  Directory, Call, select, application_address, bound_bindings, candidate_from, insert_candidate,
  is_bound, is_eligible, overlay_address, precedes, sort_candidates, usable_ref,
}
use waycloak.PortForward.Resolution.{
  Resolution, resolve, service_found, ports_found, listed, slice_loop, slice_step, endpoint_loop,
  add_found, candidate, candidate_at, candidate_with, offer, pod_found,
}
use waycloak.PortForward.Selection.{Keyed, SameMembers, select_order}
use waycloak.PortForward.Observed.{Observed, resolve-Observed}
use waycloak.PortForward.Unique.{Distinct, resolve-Distinct}
use waycloak.Samples.Dataplane.{numbers}

abbrev service : BackendService
service = record {
  name = "web";
  uid = "svc-1";
  kind = "ClusterIP";
  ports = record { name = "http"; port = pos 80; target_port = number (pos 8080) } ∷ [];
}

abbrev endpoint : Endpoint
endpoint = record {
  target_ref = some (record { kind = "Pod"; name = "app"; uid = "pod-1"; namespace = "team" });
  addresses = "10.1.0.5" ∷ [];
  ready = some true;
  serving = none;
  terminating = none;
}

abbrev slice : EndpointSlice
slice = record {
  uid = "slice-1";
  address_type = "IPv4";
  owners =
      record {
        api_version = "v1";
        kind = "Service";
        name = "web";
        uid = "svc-1";
        controller = some true;
      }
      ∷ [];
  ports = record { name = some "http"; port = some (pos 8080) } ∷ [];
  endpoints = endpoint ∷ [];
}

abbrev pod : BackendPod
pod = record {
  name = "app";
  uid = "pod-1";
  phase = "Running";
  deleting = false;
  pod_ip = "10.1.0.5";
  labels = ("networking.waycloak.io/egress-route", "route") ∷ [];
}

abbrev condition : Condition
condition = record {
  kind = "Ready";
  status = "True";
  reason = "";
  message = "";
  observed_generation = pos 1;
  last_transition_time = 1;
}

abbrev binding : PodBinding
binding = record {
  name = "binding-1";
  uid = "b-1";
  deleting = false;
  generation = pos 1;
  pod_name = "app";
  pod_uid = "pod-1";
  gateway_namespace = "gw";
  gateway_name = "gateway";
  gateway_uid = "g-1";
  gateway_generation = pos 1;
  route_name = "route";
  address = "10.9.0.2/32";
  conditions = condition ∷ [];
  observed_generation = pos 1;
}

abbrev lease : LeaseBackend
lease = record {
  namespace = "team";
  group = "";
  kind = "Service";
  name = "web";
  port = number (pos 80);
}

abbrev gateway : GatewayIdentity
gateway = record { namespace = "gw"; name = "gateway"; uid = "g-1"; generation = pos 1 }

abbrev directory : Directory numbers ℕ
directory = record {
  get_service = λ _ _ w. (ok service, w);
  list_slices = λ _ _ w. (ok (slice ∷ []), w);
  list_bindings = λ _ w. (ok (binding ∷ []), w);
  get_pod = λ _ _ w. (ok pod, w);
  parse_addr = λ _. ok 5;
  parse_prefix = λ _. ok 2;
  is_4 = λ _. true;
  addr_text = λ _. "10.1.0.5";
  find = λ _ _. some condition;
}

abbrev start : Traced ℕ Call
start = record { world = 0; log = [] }

abbrev web : String → String → Candidate numbers
web pod_uid slice_uid = record {
  service_uid = "svc-1";
  endpoint_slice_uid = slice_uid;
  pod_name = "app";
  pod_uid = pod_uid;
  binding_name = "binding-1";
  binding_uid = "b-1";
  overlay_address = 2;
  application_address = 5;
  target_port = 8080;
}

abbrev resolution : Resolution numbers
resolution = record {
  service = service;
  candidates = web "pod-1" "slice-1" ∷ [];
  unavailable_candidates = [];
}

resolved : (resolve directory lease gateway start).0 ≡ ok resolution
unfolding resolve ◌>>=◌ perform service_found ports_found matching_ports is_referenced_port listed
    slice_loop slice_step owned_by_service target_port_for_slice agreed_target target_ports
    first_target serves_port endpoint_loop eligible_endpoint current current_true add_found
    candidate candidate_at candidate_with offer pod_found application_address bound_bindings
    candidate_from insert_candidate is_bound is_eligible overlay_address precedes sort_candidates
    usable_ref insert lookup
resolved = refl

resolve-Observed_example :
    ((c : Candidate numbers)
      → In c resolution.candidates
      → Observed directory lease gateway (resolve directory lease gateway start).1.log (c, true))
    × ((c : Candidate numbers)
        → In c resolution.unavailable_candidates
        → Observed directory lease gateway (resolve directory lease gateway start).1.log (c, false))
resolve-Observed_example = resolve-Observed directory lease gateway start resolution resolved

resolve-Distinct_example :
    Distinct resolution.candidates
    × Distinct resolution.unavailable_candidates
    × ((c : Candidate numbers)
        → In c resolution.candidates
        → select resolution.candidates (some c.pod_uid) ≡ some c)
resolve-Distinct_example = resolve-Distinct directory lease gateway start resolution resolved

abbrev forward : List (Candidate numbers)
forward = web "pod-1" "slice-1" ∷ web "pod-2" "slice-1" ∷ []

abbrev backward : List (Candidate numbers)
backward = web "pod-2" "slice-1" ∷ web "pod-1" "slice-1" ∷ []

keyed : Keyed forward
keyed a b (inl p) (inl q) e = p ∙ sym q
keyed a b (inl p) (inr (inl q)) e = cc
keyed a b (inr (inl p)) (inl q) e = cc
keyed a b (inr (inl p)) (inr (inl q)) e = p ∙ sym q
keyed a b (inr (inr p)) q e = absurd p
keyed a b p (inr (inr q)) e = absurd q

same_members : SameMembers forward backward
same_members c = (
  (λ m. elim m [ inl p ↦ inr (inl p) | inr q ↦ elim q [ inl p ↦ inl p | inr r ↦ absurd r ] ]),
  (λ m. elim m [ inl p ↦ inr (inl p) | inr q ↦ elim q [ inl p ↦ inl p | inr r ↦ absurd r ] ]),
)

select_order_example :
    ((current : Option String) → select forward current ≡ select backward current)
    × ((c : Candidate numbers) → In c forward → select forward (some c.pod_uid) ≡ some c)
    × ((uid : String)
        → ((c : Candidate numbers) → In c forward → c.pod_uid ≢ uid)
        → select forward (some uid) ≡ select forward none)
    × ((c : Candidate numbers)
        → select forward none ≡ some c
        → In c forward
          × ((x : Candidate numbers) → In x forward → string_lt x.pod_uid c.pod_uid ≡ false))
select_order_example = select_order forward backward keyed same_members
