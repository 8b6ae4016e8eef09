-- ===== src/Dataplane.antt =====
-- internal/dataplane/dataplane.go: the protected path of a workload. The backend and the types of
-- net/netip are parameters; the backend's calls are logged.
pub mod Lockdown
pub mod Validity
use waycloak.Prelude.{
  ℕ, String, Bool, true, false, ◌&&◌, ◌||◌, ◌==◌, not, List, [], ◌∷◌, Option, none, some,
  if◌then◌else◌, ltb, nat_eq, any, all, contains,
}
use waycloak.Prelude.Int.{ℤ, pos, negsuc}
use waycloak.Exec.{
  Err, new, sentinel, wrap, unsupported, Result, ok, err, reject_if, and_then, Exec, pure, fail,
  lift, wrapping, ◌>>=◌, ◌>>◌, Traced, perform,
}

-- What the code uses of net/netip: addresses, prefixes and endpoints.
pub record Netip : Type 1 where
  pub Addr : Type 0
  pub Prefix : Type 0
  pub AddrPort : Type 0
  pub addr_is_valid : Addr → Bool
  pub addr_eq : Addr → Addr → Bool
  pub prefix_is_valid : Prefix → Bool
  pub bits : Prefix → ℕ
  pub addr : Prefix → Addr
  pub contains : Prefix → Addr → Bool
  pub addr_port_is_valid : AddrPort → Bool
  pub port : AddrPort → ℕ

-- `ApplicationPortRedirect`
pub record Redirect : Type 0 where
  pub identity : String
  pub target_port : ℕ
  pub application_port : ℕ
  pub protocols : List String

pub record Config (n : Netip) : Type 0 where
  pub pod_uid : String
  pub allocation_generation : ℤ
  pub gateway_generation : ℤ
  pub address : n.Prefix
  pub overlay_cidr : n.Prefix
  pub gateway_address : n.Addr
  pub gateway_endpoint : n.AddrPort
  pub gateway_health_port : ℕ
  pub vni : ℕ
  pub mtu : ℤ
  pub cluster_traffic_mode : String
  pub cluster_cidrs : List n.Prefix
  pub underlay_interface : String
  pub overlay_interface_name : String
  pub redirects : List Redirect

abbrev pub is_below : ℤ → ℕ → Bool
is_below (pos m) n = ltb m n
is_below (negsuc m) n = true

abbrev pub is_cluster_traffic_mode : String → Bool
is_cluster_traffic_mode mode = mode == "Preserve" || mode == "Gateway" || mode == "Deny"

-- The keys of the map `matches`: a target port and a protocol, which the source joins by a slash.
abbrev pub Match : Type 0
Match = ℕ × String

abbrev pub seen : List Match → Match → Bool
seen matches m = any (λ x. nat_eq x.0 m.0 && x.1 == m.1) matches

-- The loop of `Validate` over the protocols of a redirect.
unfoldable pub validate_protocols : ℕ → List String → List Match → Result (List Match)
validate_protocols port [] matches = ok matches
validate_protocols port (protocol ∷ rest) matches =
    if not (protocol == "TCP") && not (protocol == "UDP")
    then err (new "application port redirect protocol is invalid")
    else if seen matches (port, protocol)
    then err (new "application port redirect target is duplicated")
    else validate_protocols port rest ((port, protocol) ∷ matches)

abbrev pub is_invalid_redirect : Redirect → Bool
is_invalid_redirect r =
    r.identity == ""
    || nat_eq r.target_port 0
    || nat_eq r.application_port 0
    || nat_eq r.target_port r.application_port
    || elim r.protocols [ [] ↦ true | _ ∷ _ ↦ false ]

-- The loop over the redirects.
unfoldable pub validate_redirects : List Redirect → List String → List Match → Result (Unit {0})
validate_redirects [] identities matches = ok tt
validate_redirects (r ∷ rest) identities matches =
    if is_invalid_redirect r
    then err (new "application port redirect is invalid")
    else if contains identities r.identity
    then err (new "application port redirect identity is duplicated")
    else and_then (validate_protocols r.target_port r.protocols matches)
        λ more. validate_redirects rest (r.identity ∷ identities) more

module _ (n : Netip) where
  unfoldable pub validate : Config n → Result (Unit {0})
  validate c =
      if c.pod_uid == ""
      then err (new "pod UID is required")
      else if not (n.prefix_is_valid c.address)
          || not (n.prefix_is_valid c.overlay_cidr)
          || not (nat_eq (n.bits c.address) (n.bits c.overlay_cidr))
          || not (n.contains c.overlay_cidr (n.addr c.address))
      then err (new "allocated address must belong to the overlay CIDR")
      else if not (n.addr_is_valid c.gateway_address)
          || not (n.contains c.overlay_cidr c.gateway_address)
          || n.addr_eq c.gateway_address (n.addr c.address)
      then err (new "gateway address must be a different address in the overlay CIDR")
      else if not (n.addr_port_is_valid c.gateway_endpoint) || nat_eq (n.port c.gateway_endpoint) 0
      then err (new "gateway underlay endpoint is required")
      else if nat_eq c.gateway_health_port 0
      then err (new "observed gateway overlay health port is required")
      else if nat_eq c.vni 0 || ltb 16777215 c.vni
      then err (new "VNI must be between 1 and 16777215")
      else if is_below c.mtu 576
      then err (new "MTU must be at least 576")
      else if not (is_cluster_traffic_mode c.cluster_traffic_mode)
      then err (new "unknown cluster traffic mode")
      else if any (λ p. not (n.prefix_is_valid p)) c.cluster_cidrs
      then err (new "cluster CIDRs must be valid")
      else validate_redirects c.redirects [] []

  -- `Backend`; `cleanup` is there where the backend implements it.
  pub record Backend (W : Type 0) : Type 0 where
    pub is_nil : Bool
    pub install_lockdown : String → Exec W (Unit {0})
    pub configure : Config n → Exec W (Unit {0})
    pub repair : Config n → Exec W (Unit {0})
    pub cleanup : Option (String → Option (Config n) → Exec W (Unit {0}))

  pub data Call : Type 0 where
    install_lockdown : String → Result (Unit {0}) → Call
    configure : Config n → Result (Unit {0}) → Call
    repair : Config n → Result (Unit {0}) → Call
    cleanup : String → Option (Config n) → Result (Unit {0}) → Call

module _ (n : Netip) {W : Type 0} (b : Backend n W) where
  unfoldable pub prepare : Config n → Exec (Traced W (Call n)) (Unit {0})
  prepare c = do
    lift (reject_if b.is_nil (new "data-plane backend is required"))
    lift (reject_if (c.pod_uid == "") (new "pod UID is required before lockdown"))
    wrapping "install fail-closed policy"
        (perform (install_lockdown c.pod_uid) (b.install_lockdown c.pod_uid))
    wrapping "validate protected-path configuration after lockdown" (lift (validate n c))
    wrapping "configure protected path with lockdown retained"
        (perform (configure c) (b.configure c))

  unfoldable pub verify : Config n → Exec (Traced W (Call n)) (Unit {0})
  verify c = do
    lift (reject_if b.is_nil (new "data-plane backend is required"))
    lift (reject_if (c.pod_uid == "") (new "pod UID is required before startup verification"))
    wrapping "install fail-closed policy before startup verification"
        (perform (install_lockdown c.pod_uid) (b.install_lockdown c.pod_uid))
    wrapping "validate current protected-path configuration after lockdown" (lift (validate n c))
    wrapping "reconcile and verify current protected path with lockdown retained"
        (perform (repair c) (b.repair c))

  -- `Repair` of the agent.
  unfoldable pub repair_path : Config n → Exec (Traced W (Call n)) (Unit {0})
  repair_path c = do
    lift (reject_if b.is_nil (new "data-plane backend is required"))
    lift (validate n c)
    perform (repair c) (b.repair c)

  unfoldable pub clean :
      String
      → Option (Config n)
      → Option (String → Option (Config n) → Exec W (Unit {0}))
      → Exec (Traced W (Call n)) (Unit {0})
  clean uid c none = fail (sentinel unsupported)
  clean uid c (some f) = perform (cleanup uid c) (f uid c)

  -- `Cleanup` of the agent.
  unfoldable pub clean_up : String → Option (Config n) → Exec (Traced W (Call n)) (Unit {0})
  clean_up uid c = do
    lift (reject_if b.is_nil (new "data-plane backend is required"))
    lift (reject_if (uid == "") (new "pod UID is required for cleanup"))
    clean uid c b.cleanup
