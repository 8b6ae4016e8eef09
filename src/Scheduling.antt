-- ===== src/Scheduling.antt =====
-- internal/scheduling/nodes.go: the Node labels that admit protected Pods to a node. The Kubernetes
-- client and `strconv` are parameters; the client's calls are logged. Times are nanoseconds.
pub mod Capability
pub mod Controller
use waycloak.Prelude.{
  ℕ, suc, ◌+◌, ◌*◌, ◌/◌, String, Bool, true, false, ◌&&◌, ◌||◌, ◌==◌, not, List, [], ◌∷◌, Option,
  none, some, if◌then◌else◌, ltb, leb, nat_eq, all, contains,
}
use waycloak.Prelude.Int.{ℤ, pos, negsuc}
use waycloak.Prelude.Assoc.{lookup, erase, insert}
use waycloak.Exec.{
  Err, new, wrap, Sentinel, not_found, errors_is, Result, ok, err, reject_if, Exec, pure, fail,
  lift, attempt, wrapping, ◌>>=◌, ◌>>◌, Traced, perform, observe,
}

abbrev pub cni_ready_label : String
cni_ready_label = "networking.waycloak.io.node-restriction.kubernetes.io/cni-ready"

abbrev pub capability_epoch_label : String
capability_epoch_label = "networking.waycloak.io.node-restriction.kubernetes.io/capability-epoch"

abbrev pub observation_epoch_label : String
observation_epoch_label = "networking.waycloak.io.node-restriction.kubernetes.io/observation-epoch"

-- One second and one minute in nanoseconds.
abbrev pub second : ℕ
second = 1000000000

abbrev pub default_clock_skew : ℕ
default_clock_skew = 60000000000

abbrev pub baseline_capabilities : List String
baseline_capabilities = "dns-udp-tcp" ∷ "ipv4" ∷ "netlink" ∷ "nftables" ∷ "vxlan" ∷ []

-- `wayv1.ReleaseIdentity`
pub record ReleaseIdentity : Type 0 where
  pub version : String
  pub manifest_digest : String

abbrev pub same_release : ReleaseIdentity → ReleaseIdentity → Bool
same_release a b = a.version == b.version && a.manifest_digest == b.manifest_digest

-- What `Apply` reads of a `nodeagent.NodeReport`; a zero time is none.
pub record NodeReport : Type 0 where
  pub node_name : String
  pub node_boot_id : String
  pub instance_id : String
  pub observed_at : Option ℕ
  pub ready : Bool
  pub release_identity : ReleaseIdentity
  pub conformance_profile : String
  pub capabilities : List String

pub record Node : Type 0 where
  pub name : String
  pub labels : List (String × String)

-- `Publisher`: its settings, its client and its clock. `get` answers with the node, `patch` takes
-- the node as it is to be, and `format` and `parse` are `strconv`'s for an int64.
pub record Publisher (W : Type 0) : Type 0 where
  pub client_set : Bool
  pub release_identity : ReleaseIdentity
  pub transition_plan_id : String
  pub transition_release_identity : ReleaseIdentity
  pub conformance_profile : String
  pub required : List String
  pub clock_skew : ℕ
  pub now : W → ℕ × W
  pub get : String → Exec W Node
  pub apply : String → List (String × String) → Exec W (Unit {0})
  pub patch : Node → Exec W (Unit {0})
  pub format : ℕ → String
  pub parse : String → Option ℤ

pub data Call : Type 0 where
  get : String → Result Node → Call
  apply : String → List (String × String) → Result (Unit {0}) → Call
  patch : Node → Result (Unit {0}) → Call

abbrev pub is_not_found : Sentinel → Bool
is_not_found not_found = true
is_not_found _ = false

-- A missing label reads as the empty string.
abbrev pub label_of : Option String → String
label_of none = ""
label_of (some v) = v

unfoldable pub label : Node → String → String
label node k = label_of (lookup k node.labels)

unfoldable pub contains_all : List String → List String → Bool
contains_all actual required = all (λ capability. contains actual capability) required

module _ {W : Type 0} (p : Publisher W) where
  unfoldable pub skew_of : ℕ
  skew_of = if ltb 0 p.clock_skew then p.clock_skew else default_clock_skew

  unfoldable pub required_of : List String
  required_of = elim p.required [ [] ↦ baseline_capabilities | c ∷ cs ↦ c ∷ cs ]

  unfoldable pub supports_release_identity : NodeReport → Bool
  supports_release_identity report =
      if same_release report.release_identity p.release_identity
      then true
      else not (p.transition_plan_id == "")
        && report.instance_id == p.transition_plan_id
        && not report.ready
        && same_release report.release_identity p.transition_release_identity

  -- Whether the observation is within the clock skew of the clock.
  unfoldable pub is_in_window : Option ℕ → ℕ → Bool
  is_in_window none now = false
  is_in_window (some t) now = not (ltb (t + skew_of) now) && not (ltb (now + skew_of) t)

  unfoldable pub is_supported : NodeReport → Bool
  is_supported report =
      supports_release_identity report
      && report.conformance_profile == p.conformance_profile
      && contains_all report.capabilities required_of

  abbrev pub without_capability : Node → Node
  without_capability node = record node {
    labels = erase capability_epoch_label (erase cni_ready_label node.labels);
  }

  unfoldable pub withdraw_found : Result Node → Exec (Traced W Call) (Unit {0})
  withdraw_found (err e) = if errors_is is_not_found e then pure tt else fail e
  withdraw_found (ok node) =
      if label node cni_ready_label == "" && label node capability_epoch_label == ""
      then pure tt
      else wrapping "withdraw authenticated node capability"
          (perform (patch (without_capability node)) (p.patch (without_capability node)))

  unfoldable pub withdraw : String → Exec (Traced W Call) (Unit {0})
  withdraw node_name = do
    lift (
        reject_if (not p.client_set || node_name == "")
          (new "node capability publisher and node name are required"))
    found ← attempt (perform (get node_name) (p.get node_name))
    withdraw_found found

  -- `_ = p.withdraw(ctx, name)` and then an error.
  unfoldable pub withdraw_and_fail : String → String → Exec (Traced W Call) (Unit {0})
  withdraw_and_fail node_name text = do ignored ← attempt (withdraw node_name); fail (new text)

  -- The labels of `Apply`, in the order of their keys' insertion.
  unfoldable pub labels_for : NodeReport → ℕ → List (String × String)
  labels_for report now =
      let observed : List (String × String) = insert observation_epoch_label (p.format now) [] in
      if report.ready
      then insert capability_epoch_label (p.format (now / second))
          (insert cni_ready_label "true" observed)
      else observed

  unfoldable pub publish : NodeReport → ℕ → Exec (Traced W Call) (Unit {0})
  publish report now = do
    node ← perform (get report.node_name) (p.get report.node_name)
    wrapping "publish authenticated node capability" (
        perform (apply report.node_name (labels_for report now))
          (p.apply report.node_name (labels_for report now)))
    if not report.ready then withdraw report.node_name else pure tt

  -- `Apply`. `agent_node` is the agent Pod's node name, none for a nil Pod.
  unfoldable pub apply_report : Option String → NodeReport → Exec (Traced W Call) (Unit {0})
  apply_report agent_node report = do
    lift (
        reject_if (not p.client_set || label_of agent_node == "")
          (new "node capability publisher and exact agent Pod are required"))
    lift (
        reject_if
          (not (report.node_name == label_of agent_node)
            || report.node_boot_id == ""
            || report.instance_id == "")
          (new "node capability report does not match the authenticated agent Pod"))
    now ← observe p.now
    if not (is_in_window report.observed_at now)
        then withdraw_and_fail report.node_name
            "node capability observation time is outside the accepted window"
        else if not (is_supported report)
        then withdraw_and_fail report.node_name
            "node capability or immutable release identity is unsupported"
        else publish report now

  -- The end of `Stale`: the epoch is in seconds.
  unfoldable pub is_stale_epoch : Option ℤ → ℕ → ℕ → Bool
  is_stale_epoch none now freshness = true
  is_stale_epoch (some (negsuc n)) now freshness = ltb freshness (now + suc n * second)
  is_stale_epoch (some (pos epoch)) now freshness =
      ltb (now + default_clock_skew) (epoch * second) || ltb (epoch * second + freshness) now

  unfoldable pub stale : Option Node → ℕ → ℕ → Bool
  stale none now freshness = false
  stale (some node) now freshness =
      if not (label node cni_ready_label == "true")
      then false
      else is_stale_epoch (p.parse (label node capability_epoch_label)) now freshness
