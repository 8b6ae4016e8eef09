-- ===== src/PortForward/States.antt =====
-- The states of the leases in internal/portforward/manager.go, and the rules that they stand for.
use waycloak.Prelude.{ℕ, String, Bool, ◌==◌, ◌||◌, List, [], ◌∷◌, if◌then◌else◌}
use waycloak.Prelude.Int.{ℤ}
use waycloak.Exec.{new, Result, ok, err, and_then}
use waycloak.PortForward.Intent.{
  Addr, Intent, ProviderObservation, ApplicationPortMode, provider_assigned, string_leb,
}

pub record RuntimeState : Type 0 where
  pub intent : Intent
  pub mapping : ProviderObservation
  pub renew_after : ℕ
  pub draining : Bool
  pub drained : Bool
  pub blocked : Bool

-- `m.states`
abbrev pub States : Type 0
States = List (String × RuntimeState)

pub record GatewayRule : Type 0 where
  pub lease_uid : String
  pub handoff_generation : ℤ
  pub ingress_port : ℕ
  pub overlay_address : String
  pub target_port : ℕ
  pub protocols : List String

abbrev target_port_of : ApplicationPortMode → RuntimeState → ℕ
target_port_of provider_assigned s = s.mapping.public_port
target_port_of _ s = s.intent.target_port

unfoldable pub effective_target_port : RuntimeState → ℕ
effective_target_port s = target_port_of s.intent.application_port_mode s

unfoldable pub effective_intent : RuntimeState → Intent
effective_intent s = record s.intent { target_port = effective_target_port s }

-- `netip.Addr.String` is the argument.
unfoldable pub rule_for : (Addr → String) → RuntimeState → GatewayRule
rule_for addr_string s = record {
  lease_uid = s.intent.lease_uid;
  handoff_generation = s.intent.handoff_generation;
  ingress_port = s.mapping.public_port;
  overlay_address = addr_string s.intent.overlay_address;
  target_port = effective_target_port s;
  protocols = s.intent.protocols;
}

-- `sort.Slice` by lease UID, as an insertion sort.
unfoldable pub insert_rule : GatewayRule → List GatewayRule → List GatewayRule
insert_rule r [] = r ∷ []
insert_rule r (t ∷ rest) =
    if string_leb r.lease_uid t.lease_uid then r ∷ t ∷ rest else t ∷ insert_rule r rest

unfoldable pub sort_rules : List GatewayRule → List GatewayRule
unfolding insert_rule
sort_rules [] = []
sort_rules (r ∷ rest) = insert_rule r (sort_rules rest)

pub record LeaseRequest : Type 0 where
  pub identity : String
  pub internal_port : ℕ
  pub suggested_external_port : ℕ
  pub protocols : List String

-- The loop of `providerRequest`.
unfoldable pub provider_protocols : List String → Result (List String)
provider_protocols [] = ok []
provider_protocols (p ∷ rest) =
    if p == "TCP" || p == "UDP"
    then and_then (provider_protocols rest) (λ mapped. ok (p ∷ mapped))
    else err (new "unsupported transport protocol")

unfoldable pub provider_request : Intent → Result LeaseRequest
unfolding provider_protocols
provider_request i = and_then (provider_protocols i.protocols) λ mapped. ok (record {
  identity = i.lease_uid;
  internal_port = i.provider_internal_port;
  suggested_external_port = i.previous_public_port;
  protocols = mapped;
})
