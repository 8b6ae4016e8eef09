-- ===== src/NodeAgent/Types.antt =====
-- The objects and interfaces of internal/nodeagent/service.go. Times are nanoseconds from the zero
-- time.
use waycloak.Prelude.{ℕ, String, Bool, List}
use waycloak.Prelude.Int.{ℤ}
use waycloak.Exec.{Result, Exec, Owned}
use waycloak.Cni.Types.{Key, Attachment}
use waycloak.Dataplane.{Netip, Config}
use waycloak.Scheduling.{NodeReport, ReleaseIdentity}

-- What the service reads of a Kubernetes Pod; `deleting` says that the deletion timestamp is set.
pub record Pod : Type 0 where
  pub name : String
  pub namespace : String
  pub uid : String
  pub node_name : String
  pub labels : List (String × String)
  pub deleting : Bool

-- What it reads of a VPNWorkloadBinding, the int32 fields of its network as integers.
pub record WorkloadBinding : Type 0 where
  pub name : String
  pub namespace : String
  pub uid : String
  pub generation : ℤ
  pub deleting : Bool
  pub pod_name : String
  pub pod_uid : String
  pub gateway_uid : String
  pub node_name : String
  pub address : String
  pub overlay_cidr : String
  pub gateway_address : String
  pub gateway_endpoint : String
  pub gateway_generation : ℤ
  pub gateway_health_port : ℤ
  pub vni : ℤ
  pub mtu : ℤ
  pub cluster_traffic_mode : String
  pub bypass_cidrs : List String

pub record Observation : Type 0 where
  pub binding_namespace : String
  pub binding_name : String
  pub binding_uid : String
  pub generation : ℤ
  pub pod_uid : String
  pub gateway_uid : String
  pub node_name : String
  pub node_boot_id : String
  pub instance_id : String
  pub observed_at : ℕ
  pub ready : Bool

pub record Report : Type 0 where
  pub api_version : String
  pub node : NodeReport
  pub observations : List Observation

-- The settings of a `Service`, its `Programmer`, `AttachmentStore`, readers and publisher, its clock,
-- the hash of `binding.BindingName`, and the parsers of net/netip. `*_set` says that an interface is not nil;
-- `list_bindings` asks the binding reader, or the reader where that is nil. `with_bits` is
-- `PrefixFrom(p.Addr(), bits)`.
pub record Service (n : Netip) (W : Type 0) : Type 0 where
  pub reader_set : Bool
  pub binding_reader_set : Bool
  pub programmer_set : Bool
  pub publisher_set : Bool
  pub get_pod : String → String → Exec W Pod
  pub get_binding : String → String → Exec W WorkloadBinding
  pub list_bindings : Exec W (List WorkloadBinding)
  pub identity : String → Exec W String
  pub install_lockdown : String → String → Exec W (Unit {0})
  pub configure : String → Config n → Exec W (Unit {0})
  pub verify : String → Config n → Exec W (Unit {0})
  pub cleanup : String → String → Exec W (Unit {0})
  pub list_all : Exec W (List Attachment)
  pub save : Attachment → Exec W (Unit {0})
  pub delete : Key → Exec W (Unit {0})
  pub publish : Report → Exec W (Unit {0})
  pub now : W → ℕ × W
  pub node_name : String
  pub node_boot_id : String
  pub instance_id : String
  pub require_relay : Bool
  pub capability_held : Bool
  pub transition_held : Bool
  pub capabilities : List String
  pub release_identity : ReleaseIdentity
  pub conformance_profile : String
  pub short_hash : List String → String
  pub parse_prefix : String → Result n.Prefix
  pub parse_addr : String → Result n.Addr
  pub parse_addr_port : String → Result n.AddrPort
  pub with_bits : n.Prefix → ℕ → n.Prefix

-- The calls on the interfaces.
pub data Call (n : Netip) : Type 0 where
  get_pod : String → String → Result Pod → Call n
  get_binding : String → String → Result WorkloadBinding → Call n
  list_bindings : Result (List WorkloadBinding) → Call n
  identity : String → Result String → Call n
  install_lockdown : String → String → Result (Unit {0}) → Call n
  configure : String → Config n → Result (Unit {0}) → Call n
  verify : String → Config n → Result (Unit {0}) → Call n
  cleanup : String → String → Result (Unit {0}) → Call n
  list_all : Result (List Attachment) → Call n
  save : Attachment → Result (Unit {0}) → Call n
  delete : Key → Result (Unit {0}) → Call n
  publish : Report → Result (Unit {0}) → Call n

-- The state of a service: the observations by Pod UID, and the two health flags.
pub record State : Type 0 where
  pub observations : List (String × Observation)
  pub relay_healthy : Bool
  pub backend_healthy : Bool

abbrev pub Run : Netip → Type 0 → Type 0
Run n W = Owned W (Call n) State
