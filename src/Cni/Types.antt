-- ===== src/Cni/Types.antt =====
-- internal/cni/types.go: the identities, records and messages of the CNI plugin.
use waycloak.Prelude.{String, Bool, true, false, ◌&&◌, ◌||◌, ◌==◌, not, ℕ}
use waycloak.Prelude.Int.{ℤ, pos, ltb_ℤ, eq_ℤ}
use waycloak.Exec.{new, Result, ok, err, reject_if, and_then}

pub record PodIdentity : Type 0 where
  pub namespace : String
  pub name : String
  pub uid : String
  pub container_id : String
  pub if_name : String
  pub net_ns : String

-- Go's `==` on the struct.
unfoldable pub pod_eq : PodIdentity → PodIdentity → Bool
pod_eq a b =
    a.namespace == b.namespace
    && a.name == b.name
    && a.uid == b.uid
    && a.container_id == b.container_id
    && a.if_name == b.if_name
    && a.net_ns == b.net_ns

unfoldable pub validate_pod : PodIdentity → Result (Unit {0})
validate_pod p =
    and_then
      (reject_if (p.namespace == "" || p.name == "" || p.uid == "")
        (new "exact Pod namespace, name, and UID are required"))
      λ _.
        reject_if (p.container_id == "" || p.if_name == "" || p.net_ns == "")
          (new "exact sandbox container, interface, and network namespace identities are required")

pub record Resolution : Type 0 where
  pub pod_uid : String
  pub enrolled : Bool
  pub terminating : Bool

pub record Binding : Type 0 where
  pub uid : String
  pub generation : ℤ
  pub pod_uid : String
  pub gateway_uid : String

unfoldable pub binding_eq : Binding → Binding → Bool
binding_eq a b =
    a.uid == b.uid
    && eq_ℤ a.generation b.generation
    && a.pod_uid == b.pod_uid
    && a.gateway_uid == b.gateway_uid

unfoldable pub validate_binding : Binding → String → Result (Unit {0})
validate_binding b expected_pod_uid =
    and_then
      (reject_if
        (b.uid == "" || ltb_ℤ b.generation (pos 1) || b.pod_uid == "" || b.gateway_uid == "")
        (new "binding UID, generation, Pod UID, and gateway UID are required"))
      λ _.
        reject_if (not (b.pod_uid == expected_pod_uid))
          (new "binding Pod UID does not match exact CNI Pod UID")

-- `Phase` is a string; `other` is any that is neither constant.
pub data Phase : Type 0 where
  locked_down ready : Phase
  other : String → Phase

abbrev pub is_ready : Phase → Bool
is_ready ready = true
is_ready _ = false

abbrev pub is_locked_down : Phase → Bool
is_locked_down locked_down = true
is_locked_down _ = false

pub record Key : Type 0 where
  pub network : String
  pub container_id : String
  pub if_name : String

unfoldable pub key_eq : Key → Key → Bool
key_eq a b = a.network == b.network && a.container_id == b.container_id && a.if_name == b.if_name

unfoldable pub validate_key : Key → Result (Unit {0})
validate_key k =
    reject_if (k.network == "" || k.container_id == "" || k.if_name == "")
      (new "network, container ID, and interface name are required")

-- `updated_at` counts nanoseconds from Go's zero time.
pub record Attachment : Type 0 where
  pub network : String
  pub pod : PodIdentity
  pub namespace_identity : String
  pub phase : Phase
  pub binding_uid : String
  pub binding_generation : ℤ
  pub gateway_uid : String
  pub updated_at : ℕ

unfoldable pub attachment_key : Attachment → Key
attachment_key a = record {
  network = a.network;
  container_id = a.pod.container_id;
  if_name = a.pod.if_name;
}

validate_phase : Attachment → Phase → Result (Unit {0})
validate_phase a locked_down = ok tt
validate_phase a ready =
    reject_if (a.binding_uid == "" || ltb_ℤ a.binding_generation (pos 1) || a.gateway_uid == "")
      (new "ready attachment requires exact current binding identity")
validate_phase a (other text) = err (new "unknown attachment phase")

unfoldable pub validate_attachment : Attachment → Result (Unit {0})
unfolding validate_pod validate_phase
validate_attachment a =
    and_then (reject_if (a.network == "") (new "CNI network name is required")) λ _.
      and_then (validate_pod a.pod) λ _.
        and_then
          (reject_if (a.namespace_identity == "") (new "network namespace identity is required"))
          λ _. validate_phase a a.phase

pub record Request : Type 0 where
  pub network : String
  pub pod : PodIdentity

unfoldable pub request_key : Request → Key
request_key r = record {
  network = r.network;
  container_id = r.pod.container_id;
  if_name = r.pod.if_name;
}

unfoldable pub validate_request : Request → Result (Unit {0})
unfolding validate_pod
validate_request r =
    and_then (reject_if (r.network == "") (new "CNI network name is required"))
      λ _. validate_pod r.pod
