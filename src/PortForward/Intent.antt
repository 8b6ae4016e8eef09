-- ===== src/PortForward/Intent.antt =====
-- The messages of internal/portforward/runtime.go, and their checks in manager.go.
use Prim.Native.String.{compare as compare_strings}
use Prim.Native.Nat.{Ordering}
use waycloak.Prelude.{
  ℕ, String, Bool, true, false, ◌&&◌, ◌||◌, ◌==◌, not, List, [], ◌∷◌, if◌then◌else◌, ltb, nat_eq,
  length,
}
use waycloak.Prelude.Int.{ℤ, pos, ltb_ℤ}
use waycloak.Exec.{new, Result, ok, reject_if, and_then}

-- `netip.Addr`: the zero value, an IPv4 address, or an IPv6 address with its zone.
pub data Addr : Type 0 where
  invalid : Addr
  v4 : ℕ → Addr
  v6 : ℕ → String → Addr

abbrev pub is_4 : Addr → Bool
is_4 (v4 a) = true
is_4 _ = false

abbrev pub addr_eq : Addr → Addr → Bool
addr_eq invalid invalid = true
addr_eq (v4 a) (v4 b) = nat_eq a b
addr_eq (v6 a z) (v6 b y) = nat_eq a b && z == y
addr_eq _ _ = false

-- `ApplicationPortMode` is a string; `other` is any that is neither constant.
pub data ApplicationPortMode : Type 0 where
  fixed provider_assigned : ApplicationPortMode
  other : String → ApplicationPortMode

abbrev pub mode_eq : ApplicationPortMode → ApplicationPortMode → Bool
mode_eq fixed fixed = true
mode_eq provider_assigned provider_assigned = true
mode_eq (other a) (other b) = a == b
mode_eq _ _ = false

abbrev pub is_known_mode : ApplicationPortMode → Bool
is_known_mode fixed = true
is_known_mode provider_assigned = true
is_known_mode (other m) = false

abbrev pub runtime_api_version : String
runtime_api_version = "port-forward-runtime.waycloak.io/v1"

abbrev pub provider_port_first : ℕ
provider_port_first = 49152

-- Ports are uint16; generations are int64; protocols are strings.
pub record Intent : Type 0 where
  pub api_version : String
  pub lease_namespace : String
  pub lease_uid : String
  pub gateway_uid : String
  pub handoff_generation : ℤ
  pub service_uid : String
  pub endpoint_slice_uid : String
  pub pod_uid : String
  pub binding_uid : String
  pub provider_internal_port : ℕ
  pub previous_public_port : ℕ
  pub overlay_address : Addr
  pub application_address : Addr
  pub backend_port : ℕ
  pub target_port : ℕ
  pub protocols : List String
  pub adapter_name : String
  pub application_port_mode : ApplicationPortMode

pub record WithdrawalIntent : Type 0 where
  pub api_version : String
  pub lease_namespace : String
  pub lease_uid : String
  pub gateway_uid : String
  pub handoff_generation : ℤ
  pub service_uid : String
  pub endpoint_slice_uid : String
  pub pod_uid : String
  pub application_endpoint_retired : Bool
  pub release_provider : Bool
  pub provider_internal_port : ℕ
  pub previous_public_port : ℕ
  pub protocols : List String
  pub adapter_name : String

pub record ProviderObservation : Type 0 where
  pub public_address : Addr
  pub public_port : ℕ
  pub expires_at : ℕ

-- `slices.Sort` on strings, and `sort.Slice` by a string: an insertion sort.
abbrev pub string_leb : String → String → Bool
string_leb a b = elim (compare_strings a b) [ Ordering.gt ↦ false | _ ↦ true ]

insert_string : String → List String → List String
insert_string a [] = a ∷ []
insert_string a (b ∷ rest) = if string_leb a b then a ∷ b ∷ rest else b ∷ insert_string a rest

unfoldable pub sort_strings : List String → List String
unfolding insert_string
sort_strings [] = []
sort_strings (a ∷ rest) = insert_string a (sort_strings rest)

-- The loop of `normalizedProtocols` over the sorted protocols, behind the one before.
unfoldable pub check_protocols_after : String → List String → Result (Unit {0})
check_protocols_after previous [] = ok tt
check_protocols_after previous (p ∷ rest) =
    and_then
      (reject_if (not (p == "TCP") && not (p == "UDP"))
        (new "port-forward runtime protocol is unsupported"))
      λ _.
        and_then (reject_if (previous == p) (new "port-forward runtime protocols must be unique"))
          λ _. check_protocols_after p rest

unfoldable pub check_protocols : List String → Result (Unit {0})
check_protocols [] = ok tt
check_protocols (p ∷ rest) =
    and_then
      (reject_if (not (p == "TCP") && not (p == "UDP"))
        (new "port-forward runtime protocol is unsupported"))
      λ _. check_protocols_after p rest

unfoldable pub normalized_protocols : List String → Result (List String)
unfolding sort_strings check_protocols check_protocols_after
normalized_protocols protocols =
    and_then
      (reject_if (nat_eq (length protocols) 0 || ltb 2 (length protocols))
        (new "port-forward runtime requires one or two transport protocols"))
      λ _. and_then (check_protocols (sort_strings protocols)) (λ _. ok (sort_strings protocols))

-- The gateway is nil, or has a UID.
pub record Gateway : Type 0 where
  pub is_nil : Bool
  pub uid : String

unfoldable pub validate_runtime_intent : Gateway → Intent → Result (Unit {0})
unfolding normalized_protocols
validate_runtime_intent g i =
    and_then
      (reject_if
        (g.is_nil
          || g.uid == ""
          || not (i.api_version == runtime_api_version)
          || i.lease_namespace == ""
          || i.lease_uid == ""
          || not (i.gateway_uid == g.uid)
          || ltb_ℤ i.handoff_generation (pos 1)
          || i.service_uid == ""
          || i.endpoint_slice_uid == ""
          || i.pod_uid == ""
          || i.binding_uid == ""
          || ltb i.provider_internal_port provider_port_first
          || nat_eq i.backend_port 0
          || nat_eq i.target_port 0
          || not (is_4 i.overlay_address)
          || not (is_4 i.application_address)
          || nat_eq (length i.protocols) 0
          || not (is_known_mode i.application_port_mode))
        (new "port-forward runtime intent is invalid"))
      λ _. and_then (normalized_protocols i.protocols) (λ _. ok tt)

unfoldable pub validate_withdrawal : Gateway → WithdrawalIntent → Result (Unit {0})
unfolding normalized_protocols
validate_withdrawal g i =
    and_then
      (reject_if
        (g.is_nil
          || g.uid == ""
          || not (i.api_version == runtime_api_version)
          || i.lease_namespace == ""
          || i.lease_uid == ""
          || not (i.gateway_uid == g.uid)
          || ltb_ℤ i.handoff_generation (pos 1)
          || i.pod_uid == ""
          || i.release_provider
            && (ltb i.provider_internal_port provider_port_first || nat_eq (length i.protocols) 0))
        (new "port-forward withdrawal intent is invalid"))
      λ _.
        if i.release_provider
        then and_then (normalized_protocols i.protocols) (λ _. ok tt)
        else ok tt

strings_eq : List String → List String → Bool
strings_eq [] [] = true
strings_eq (a ∷ xs) (b ∷ ys) = a == b && strings_eq xs ys
strings_eq _ _ = false

-- `aErr == nil && bErr == nil && slices.Equal(aProtocols, bProtocols)`
abbrev same_protocols : Result (List String) → Result (List String) → Bool
same_protocols (ok a) (ok b) = strings_eq a b
same_protocols _ _ = false

unfoldable pub same_runtime_target : Intent → Intent → Bool
unfolding normalized_protocols strings_eq
same_runtime_target a b =
    a.lease_uid == b.lease_uid
    && a.gateway_uid == b.gateway_uid
    && a.service_uid == b.service_uid
    && a.pod_uid == b.pod_uid
    && a.binding_uid == b.binding_uid
    && nat_eq a.provider_internal_port b.provider_internal_port
    && addr_eq a.overlay_address b.overlay_address
    && addr_eq a.application_address b.application_address
    && nat_eq a.backend_port b.backend_port
    && nat_eq a.target_port b.target_port
    && mode_eq a.application_port_mode b.application_port_mode
    && same_protocols (normalized_protocols a.protocols) (normalized_protocols b.protocols)
    && a.adapter_name == b.adapter_name
