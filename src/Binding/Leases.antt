-- ===== src/Binding/Leases.antt =====
-- The reservations of internal/binding/allocation.go, as Kubernetes Lease objects.
use waycloak.Prelude.{ℕ, ◌-◌, ◌^◌, ◌%◌, String, Bool, false, ◌&&◌, ◌==◌, List, Option, none, some}
use waycloak.Prelude.Assoc.{lookup}

-- `netip.Prefix`: the zero value, an IPv4 prefix (a uint32 address) or an IPv6 one.
pub data Prefix : Type 0 where
  invalid : Prefix
  v4 : ℕ → ℕ → Prefix
  v6 : ℕ → ℕ → Prefix

-- `Prefix.Masked` on an IPv4 prefix clears the host bits.
abbrev pub masked_address : ℕ → ℕ → ℕ
masked_address addr bits = addr - addr % 2 ^ (32 - bits)

abbrev pub gateway_uid_annotation : String
gateway_uid_annotation = "networking.waycloak.io/gateway-uid"

abbrev pub pod_uid_annotation : String
pod_uid_annotation = "networking.waycloak.io/pod-uid"

abbrev pub address_annotation : String
address_annotation = "networking.waycloak.io/address"

abbrev pub state_annotation : String
state_annotation = "networking.waycloak.io/reservation-state"

abbrev pub state_active : String
state_active = "Active"

abbrev pub state_quarantined : String
state_quarantined = "Quarantined"

-- The part of a Lease object that the allocator reads and writes. `deleting` says that the deletion
-- timestamp is set; `holder` is none for a nil pointer.
pub record Lease : Type 0 where
  pub name : String
  pub namespace : String
  pub labels : List (String × String)
  pub annotations : List (String × String)
  pub owner : String × String
  pub holder : Option String
  pub acquired_at : ℕ
  pub deleting : Bool

-- A missing key of a Go map of strings reads as the empty string.
abbrev pub or_empty : Option String → String
or_empty none = ""
or_empty (some v) = v

unfoldable pub annotation : Lease → String → String
annotation l k = or_empty (lookup k l.annotations)

abbrev pub holder_is : Option String → String → Bool
holder_is none identity = false
holder_is (some h) identity = h == identity

-- `reservationMatches` and `quarantineMatches` differ in the state that they want.
abbrev matches_in : String → Lease → String → String → String → String → Bool
matches_in state l gateway_uid pod_uid identity address =
    holder_is l.holder identity
    && annotation l gateway_uid_annotation == gateway_uid
    && annotation l pod_uid_annotation == pod_uid
    && annotation l address_annotation == address
    && annotation l state_annotation == state

unfoldable pub reservation_matches : Lease → String → String → String → String → Bool
reservation_matches = matches_in state_active

unfoldable pub quarantine_matches : Lease → String → String → String → String → Bool
quarantine_matches = matches_in state_quarantined

-- The test of `Reserve` for a quarantined reservation of the same identity.
unfoldable pub is_quarantine_of : Lease → String → String → String → Bool
is_quarantine_of l gateway_uid pod_uid identity =
    annotation l gateway_uid_annotation == gateway_uid
    && annotation l pod_uid_annotation == pod_uid
    && holder_is l.holder identity
    && annotation l state_annotation == state_quarantined
