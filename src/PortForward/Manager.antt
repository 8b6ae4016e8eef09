-- ===== src/PortForward/Manager.antt =====
-- internal/portforward/manager.go: the gateway runtime's port-forward state machine. The provider,
-- the rule backend and the delivery backend are parameters, whose calls are logged.
use waycloak.Prelude.{
  ℕ, suc, String, Bool, false, ◌&&◌, ◌||◌, not, List, [], ◌∷◌, if◌then◌else◌, ltb, length, contains,
  Option, none, some,
}
use waycloak.Prelude.Int.{ℤ, pos, ltb_ℤ, eq_ℤ}
use waycloak.Prelude.Assoc.{insert, erase}
use waycloak.Exec.{
  new, Result, ok, err, reject_if, and_then, Exec, pure, lift, ◌>>=◌, ◌>>◌, Owned, call, read,
  own_state, set_own,
}
use waycloak.PortForward.Intent.{
  Addr, Intent, WithdrawalIntent, ProviderObservation, same_runtime_target,
}
use waycloak.PortForward.States.{
  RuntimeState, States, GatewayRule, rule_for, sort_rules, LeaseRequest, provider_request,
}

pub record Capabilities : Type 0 where
  pub protocols : List String
  pub max_leases : ℤ
  pub shared_port : Bool

pub record LeaseObservation : Type 0 where
  pub public_address : Addr
  pub public_port : ℕ
  pub renew_after : ℕ
  pub expires_at : ℕ

pub record Observation : Type 0 where
  pub api_version : String
  pub lease_uid : String
  pub gateway_uid : String
  pub handoff_generation : ℤ
  pub pod_uid : String
  pub observed_at : ℕ
  pub provider : Option ProviderObservation
  pub gateway_rules_ready : Bool
  pub delivered : Bool
  pub acknowledged : Bool
  pub withdrawn : Bool

abbrev pub zero_observation : Observation
zero_observation = record {
  api_version = "";
  lease_uid = "";
  gateway_uid = "";
  handoff_generation = pos 0;
  pod_uid = "";
  observed_at = 0;
  provider = none;
  gateway_rules_ready = false;
  delivered = false;
  acknowledged = false;
  withdrawn = false;
}

-- `return observation, err`
pub record Reply : Type 0 where
  pub observation : Observation
  pub error : Result (Unit {0})

-- What a delivery returns, the two flags beside the error.
pub record Delivery : Type 0 where
  pub delivered : Bool
  pub acknowledged : Bool
  pub error : Result (Unit {0})

-- The three backends and the clock; `*_set` says that a backend is not nil.
pub record Backends (W : Type 0) : Type 0 where
  pub observe_capabilities : Exec W Capabilities
  pub ensure_lease : LeaseRequest → Exec W LeaseObservation
  pub release_lease : LeaseRequest → Exec W (Unit {0})
  pub replace : List GatewayRule → Exec W (Unit {0})
  pub ready : GatewayRule → Exec W Bool
  pub withdrawn : String → ℤ → Exec W Bool
  pub deliver : Intent → ProviderObservation → W → Delivery × W
  pub withdraw_delivery : WithdrawalIntent → Exec W Bool
  pub port_forward_set : Bool
  pub rules_set : Bool
  pub delivery_set : Bool
  pub now : W → ℕ × W
  pub addr_string : Addr → String

pub data Call : Type 0 where
  observe_capabilities : Result Capabilities → Call
  ensure_lease : LeaseRequest → Result LeaseObservation → Call
  release_lease : LeaseRequest → Result (Unit {0}) → Call
  replace : List GatewayRule → Result (Unit {0}) → Call
  ready : GatewayRule → Result Bool → Call
  withdrawn : String → ℤ → Result Bool → Call
  deliver : Intent → ProviderObservation → Result Delivery → Call
  withdraw_delivery : WithdrawalIntent → Result Bool → Call

abbrev pub Run : Type 0 → Type 0
Run W = Owned W Call States

-- The guards of `Reconcile` against the state that it has of the lease.
unfoldable pub admit : Option RuntimeState → Intent → Result (Unit {0})
admit none i = ok tt
admit (some previous) i =
    if ltb_ℤ i.handoff_generation previous.intent.handoff_generation
    then err (new "handoff generation regressed")
    else if eq_ℤ i.handoff_generation previous.intent.handoff_generation
        && not (same_runtime_target previous.intent i)
    then err (new "target identity changed within one handoff generation")
    else if eq_ℤ i.handoff_generation previous.intent.handoff_generation
        && (previous.draining && not previous.drained)
    then err (new "target resumed before withdrawal completed")
    else if ltb_ℤ previous.intent.handoff_generation i.handoff_generation && not previous.drained
    then err (new "successor target arrived before old rules were withdrawn")
    else ok tt

unfoldable pub check_supported : List String → List String → Result (Unit {0})
check_supported supported [] = ok tt
check_supported supported (p ∷ rest) =
    if contains supported p
    then check_supported supported rest
    else err (new "provider does not support requested mapping")

unfoldable pub check_capabilities : Intent → Capabilities → Result (Unit {0})
check_capabilities i c =
    and_then
      (reject_if (ltb_ℤ c.max_leases (pos 1))
        (new "provider reports no port-forward lease capacity"))
      λ _.
        and_then
          (reject_if (ltb 1 (length i.protocols) && not c.shared_port)
            (new "provider cannot map requested protocols to one public port"))
          λ _.
            and_then (provider_request i) λ request. check_supported c.protocols request.protocols

module _ {W : Type 0} (b : Backends W) where
  unfoldable pub now : Exec (Run W) ℕ
  now = read b.now

  -- The test of `ruleSet` reads the clock only when the flags let it.
  unfoldable pub is_serving : RuntimeState → Exec (Run W) Bool
  is_serving s =
      if s.draining || s.drained || s.blocked
      then pure false
      else (do t ← now; pure (ltb t s.mapping.expires_at))

  unfoldable pub collect_rules : States → Exec (Run W) (List GatewayRule)
  collect_rules [] = pure []
  collect_rules ((uid, s) ∷ rest) = do
    serving ← is_serving s
    rules ← collect_rules rest
    pure (if serving then rule_for b.addr_string s ∷ rules else rules)

  unfoldable pub rule_set : Exec (Run W) (List GatewayRule)
  rule_set = do states ← own_state; rules ← collect_rules states; pure (sort_rules rules)

  -- `m.Rules.Replace(ctx, m.ruleSet())`
  unfoldable pub replace_rules : Exec (Run W) (Unit {0})
  replace_rules = do rules ← rule_set; call (replace rules) (b.replace rules)

  unfoldable pub store_state : String → RuntimeState → Exec (Run W) (Unit {0})
  store_state uid s = do states ← own_state; set_own (insert uid s states)

  unfoldable pub delete_state : String → Exec (Run W) (Unit {0})
  delete_state uid = do states ← own_state; set_own (erase uid states)

  -- The active leases of `validateProviderCapabilities`.
  unfoldable pub count_active : States → Exec (Run W) ℕ
  count_active [] = pure 0
  count_active ((uid, s) ∷ rest) = do
    t ← now
    active ← count_active rest
    pure (if ltb t s.mapping.expires_at then suc active else active)

  unfoldable pub validate_capabilities : Intent → Capabilities → Bool → Exec (Run W) (Unit {0})
  validate_capabilities i c known = do
    lift (check_capabilities i c)
    if known then pure tt else do
      states ← own_state
      active ← count_active states
      lift (
          reject_if (not (ltb_ℤ (pos active) c.max_leases))
            (new "provider port-forward lease capacity is exhausted"))
