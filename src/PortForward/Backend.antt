-- ===== src/PortForward/Backend.antt =====
-- The objects that internal/portforward/resolver.go reads, and the ports and endpoints of a backend.
use waycloak.Prelude.{
  ℕ, ◌^◌, ◌%◌, String, Bool, true, false, ◌&&◌, ◌||◌, ◌==◌, not, List, [], ◌∷◌, Option, none, some,
  if◌then◌else◌, any, all,
}
use waycloak.Prelude.Int.{ℤ, pos, negsuc, ltb_ℤ, eq_ℤ}
use waycloak.Conditions.{Condition}
use waycloak.Dataplane.{Netip}

-- `intstr.IntOrString`
pub data IntOrString : Type 0 where
  number : ℤ → IntOrString
  text : String → IntOrString

pub record ServicePort : Type 0 where
  pub name : String
  pub port : ℤ
  pub target_port : IntOrString

pub record BackendService : Type 0 where
  pub name : String
  pub uid : String
  pub kind : String
  pub ports : List ServicePort

pub record EndpointPort : Type 0 where
  pub name : Option String
  pub port : Option ℤ

pub record TargetRef : Type 0 where
  pub kind : String
  pub name : String
  pub uid : String
  pub namespace : String

pub record Endpoint : Type 0 where
  pub target_ref : Option TargetRef
  pub addresses : List String
  pub ready : Option Bool
  pub serving : Option Bool
  pub terminating : Option Bool

pub record OwnerReference : Type 0 where
  pub api_version : String
  pub kind : String
  pub name : String
  pub uid : String
  pub controller : Option Bool

pub record EndpointSlice : Type 0 where
  pub uid : String
  pub address_type : String
  pub owners : List OwnerReference
  pub ports : List EndpointPort
  pub endpoints : List Endpoint

pub record BackendPod : Type 0 where
  pub name : String
  pub uid : String
  pub phase : String
  pub deleting : Bool
  pub pod_ip : String
  pub labels : List (String × String)

pub record PodBinding : Type 0 where
  pub name : String
  pub uid : String
  pub deleting : Bool
  pub generation : ℤ
  pub pod_name : String
  pub pod_uid : String
  pub gateway_namespace : String
  pub gateway_name : String
  pub gateway_uid : String
  pub gateway_generation : ℤ
  pub route_name : String
  pub address : String
  pub conditions : List Condition
  pub observed_generation : ℤ

pub record LeaseBackend : Type 0 where
  pub namespace : String
  pub group : String
  pub kind : String
  pub name : String
  pub port : IntOrString

pub record GatewayIdentity : Type 0 where
  pub namespace : String
  pub name : String
  pub uid : String
  pub generation : ℤ

pub record Candidate (n : Netip) : Type 0 where
  pub service_uid : String
  pub endpoint_slice_uid : String
  pub pod_name : String
  pub pod_uid : String
  pub binding_name : String
  pub binding_uid : String
  pub overlay_address : n.Addr
  pub application_address : n.Addr
  pub target_port : ℕ

unfoldable pub is_referenced_port : IntOrString → ServicePort → Bool
is_referenced_port (text name) p = p.name == name
is_referenced_port (number value) p = eq_ℤ p.port value

unfoldable pub matching_ports : IntOrString → List ServicePort → List ServicePort
matching_ports ref [] = []
matching_ports ref (p ∷ rest) =
    let more = matching_ports ref rest in if is_referenced_port ref p then p ∷ more else more

abbrev pub has_name : String → Option String → Bool
has_name name none = false
has_name name (some other) = other == name

-- `expected`
abbrev pub expected_port : ServicePort → IntOrString → ℤ
expected_port p (number value) = if eq_ℤ value (pos 0) then p.port else value
expected_port p (text name) = p.port

abbrev pub is_named : IntOrString → Bool
is_named (number value) = false
is_named (text name) = true

abbrev pub is_unresolvable : String → IntOrString → Bool
is_unresolvable name (number value) = false
is_unresolvable name (text target) = not (target == "") && name == ""

-- The tests of the inner loop of `targetPortForSlice`, after the one for nil.
unfoldable pub serves_port : ServicePort → Option String → ℤ → Bool
serves_port p name value =
    not (not (p.name == "") && not (has_name p.name name))
    && not (is_unresolvable p.name p.target_port)
    && not (not (eq_ℤ value (expected_port p p.target_port)) && not (is_named p.target_port))
    && not (ltb_ℤ value (pos 1) || ltb_ℤ (pos 65535) value)

-- The inner loop, up to its `break`.
unfoldable pub first_target : ServicePort → List EndpointPort → Option ℤ
first_target p [] = none
first_target p (e ∷ rest) =
    let later = first_target p rest in
    elim e.port [
      | none ↦ later
      | some value ↦ if serves_port p e.name value then some value else later
    ]

unfoldable pub target_ports : List EndpointPort → List ServicePort → List ℤ
target_ports ports [] = []
target_ports ports (p ∷ rest) =
    let more = target_ports ports rest in
    elim (first_target p ports) [ none ↦ more | some value ↦ value ∷ more ]

-- `uint16(targets[0])`
abbrev pub to_uint16 : ℤ → ℕ
to_uint16 (pos m) = m % 2 ^ 16
to_uint16 (negsuc m) = 0

unfoldable pub agreed_target : List ℤ → Option ℕ
agreed_target [] = none
agreed_target (first ∷ rest) = if all (λ t. eq_ℤ t first) rest then some (to_uint16 first) else none

-- `targetPortForSlice`
unfoldable pub target_port_for_slice : EndpointSlice → List ServicePort → Option ℕ
target_port_for_slice slice ports = agreed_target (target_ports slice.ports ports)

abbrev pub is_set_true : Option Bool → Bool
is_set_true none = false
is_set_true (some b) = b

-- `ownedByService`
unfoldable pub owned_by_service : EndpointSlice → BackendService → Bool
owned_by_service slice service =
    any
      (λ o.
        o.api_version == "v1"
        && o.kind == "Service"
        && o.name == service.name
        && o.uid == service.uid
        && is_set_true o.controller)
      slice.owners

abbrev pub is_not_false : Option Bool → Bool
is_not_false none = true
is_not_false (some b) = b

-- `eligibleEndpoint`
unfoldable pub eligible_endpoint : Endpoint → Bool
eligible_endpoint e =
    is_set_true e.ready && is_not_false e.serving && not (is_set_true e.terminating)
