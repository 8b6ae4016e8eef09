-- ===== src/PortForward/Reconcile.antt =====
-- `Reconcile` and `Withdraw` of internal/portforward/manager.go. A value and an error that are
-- returned together are a `Reply`; an error with no observation is the action's failure.
use waycloak.Prelude.{
  ℕ, Bool, true, false, ◌||◌, not, if◌then◌else◌, ltb, nat_eq, Option, none, some,
}
use waycloak.Prelude.Assoc.{lookup}
use waycloak.Exec.{
  Err, new, wrap, join, Result, ok, err, reject_if, and_then, Exec, pure, fail, lift, attempt,
  ◌>>=◌, ◌>>◌, call, own_state,
}
use waycloak.PortForward.Intent.{
  Intent, WithdrawalIntent, ProviderObservation, Gateway, runtime_api_version,
  validate_runtime_intent,
}
use waycloak.PortForward.States.{
  RuntimeState, rule_for, effective_intent, LeaseRequest, provider_request,
}
use waycloak.PortForward.Manager.{
  Capabilities, LeaseObservation, Observation, zero_observation, Reply, Backends,
  observe_capabilities, ensure_lease, ready, deliver, Run, admit, now, replace_rules, store_state,
  delete_state, validate_capabilities,
}

abbrev pub is_some : Option RuntimeState → Bool
is_some none = false
is_some (some s) = true

unfoldable pub refresh_due : Option RuntimeState → ℕ → Bool
refresh_due none t = true
refresh_due (some s) t =
    nat_eq s.renew_after 0 || not (ltb t s.renew_after) || not (ltb t s.mapping.expires_at)

-- The mapping and the renewal time of a provider lease whose schedule is sound.
unfoldable pub checked_lease : ℕ → LeaseObservation → Result (ProviderObservation × ℕ)
checked_lease t l =
    if not (ltb t l.renew_after) || not (ltb l.renew_after l.expires_at)
    then err (new "provider returned an invalid renewal schedule")
    else ok (
      record {
        public_address = l.public_address;
        public_port = l.public_port;
        expires_at = l.expires_at;
      },
      l.renew_after,
    )

-- The new state of the lease; draining, drained and blocked are cleared.
abbrev pub fresh_state : Intent → ProviderObservation → ℕ → RuntimeState
fresh_state i mapping renew_after = record {
  intent = i;
  mapping = mapping;
  renew_after = renew_after;
  draining = false;
  drained = false;
  blocked = false;
}

module _ {W : Type 0} (b : Backends W) where
  unfoldable pub observation : Intent → ProviderObservation → Exec (Run W) Observation
  observation i mapping = do
    t ← now b
    pure (record zero_observation {
      api_version = runtime_api_version;
      lease_uid = i.lease_uid;
      gateway_uid = i.gateway_uid;
      handoff_generation = i.handoff_generation;
      pod_uid = i.pod_uid;
      observed_at = t;
      provider = some mapping;
    })

  unfoldable pub withdrawal_observation : WithdrawalIntent → Bool → Exec (Run W) Observation
  withdrawal_observation i done = do
    t ← now b
    pure (record zero_observation {
      api_version = runtime_api_version;
      lease_uid = i.lease_uid;
      gateway_uid = i.gateway_uid;
      handoff_generation = i.handoff_generation;
      pod_uid = i.pod_uid;
      observed_at = t;
      withdrawn = done;
    })

  -- What `Reconcile` makes of the provider's capabilities, or of the failure to observe them.
  unfoldable pub without_capabilities : Option RuntimeState → Err → Exec (Run W) (Unit {0})
  without_capabilities none e = fail (wrap "observe provider capabilities" e)
  without_capabilities (some previous) e =
      if previous.blocked then fail (wrap "observe provider capabilities" e) else do
        t ← now b
        if ltb t previous.mapping.expires_at
            then pure tt
            else fail (wrap "observe provider capabilities" e)

  -- A lease that the provider no longer supports is blocked, and its rule withdrawn.
  unfoldable pub block_state : Intent → Option RuntimeState → Err → Exec (Run W) (Unit {0})
  block_state i none e = fail e
  block_state i (some previous) e = do
    store_state b i.lease_uid (record previous { blocked = true })
    replaced ← attempt (replace_rules b)
    elim replaced [
      | ok _ ↦ fail e
      | err r ↦ fail (join e (wrap "withdraw rules after provider capability regression" r))
    ]

  unfoldable pub accept_capabilities :
      Intent → Option RuntimeState → Result Capabilities → Exec (Run W) (Unit {0})
  accept_capabilities i previous (err e) = without_capabilities previous e
  accept_capabilities i previous (ok c) = do
    checked ← attempt (validate_capabilities b i c (is_some previous))
    elim checked [ ok _ ↦ pure tt | err e ↦ block_state i previous e ]

  -- A failed refresh falls back on an unexpired mapping, or drops the lease and its rule.
  unfoldable pub drop_lease : Intent → Err → Exec (Run W) (ProviderObservation × ℕ)
  drop_lease i e = do
    delete_state b i.lease_uid
    replaced ← attempt (replace_rules b)
    fail (wrap "ensure provider mapping" e)

  unfoldable pub refreshed :
      Intent
      → Option RuntimeState
      → ℕ
      → Result (ProviderObservation × ℕ)
      → Exec (Run W) (ProviderObservation × ℕ)
  refreshed i previous t (ok pair) = pure pair
  refreshed i none t (err e) = drop_lease i e
  refreshed i (some previous) t (err e) =
      if ltb t previous.mapping.expires_at
      then pure (previous.mapping, previous.renew_after)
      else drop_lease i e

  unfoldable pub refresh :
      Intent → Option RuntimeState → ℕ → LeaseRequest → Exec (Run W) (ProviderObservation × ℕ)
  refresh i previous t request = do
    answer ← attempt (call (ensure_lease request) (b.ensure_lease request))
    refreshed i previous t (and_then answer (checked_lease t))

  unfoldable pub current_mapping :
      Intent → Option RuntimeState → ℕ → LeaseRequest → Exec (Run W) (ProviderObservation × ℕ)
  current_mapping i none t request = refresh i none t request
  current_mapping i (some previous) t request =
      if refresh_due (some previous) t
      then refresh i (some previous) t request
      else pure (previous.mapping, previous.renew_after)

  unfoldable pub restore_state : Intent → Option RuntimeState → Exec (Run W) (Unit {0})
  restore_state i none = delete_state b i.lease_uid
  restore_state i (some previous) = store_state b i.lease_uid previous

  unfoldable pub deliver_mapping : Intent → ProviderObservation → RuntimeState → Exec (Run W) Reply
  deliver_mapping i mapping s = do
    d ←
        call (deliver (effective_intent s) mapping)
          (λ w. let (x, w') = b.deliver (effective_intent s) mapping w in (ok x, w'))
    o ← observation i mapping
    pure (record {
      observation = record o {
        gateway_rules_ready = true;
        delivered = d.delivered;
        acknowledged = d.acknowledged;
      };
      error = d.error;
    })

  unfoldable pub when_ready :
      Intent → ProviderObservation → RuntimeState → Result Bool → Exec (Run W) Reply
  when_ready i mapping s (ok true) = deliver_mapping i mapping s
  when_ready i mapping s (ok false) = do
    o ← observation i mapping
    pure (record { observation = o; error = ok tt })
  when_ready i mapping s (err e) = do
    o ← observation i mapping
    pure (record { observation = o; error = err e })

  unfoldable pub when_replaced :
      Intent
      → Option RuntimeState
      → ProviderObservation
      → RuntimeState
      → Result (Unit {0})
      → Exec (Run W) Reply
  when_replaced i previous mapping s (err e) = do
    restore_state i previous
    o ← observation i mapping
    pure (record { observation = o; error = err (wrap "replace atomic gateway rules" e) })
  when_replaced i previous mapping s (ok _) = do
    answer ← attempt (call (ready (rule_for b.addr_string s)) (b.ready (rule_for b.addr_string s)))
    when_ready i mapping s answer

  unfoldable pub install :
      Intent → Option RuntimeState → ProviderObservation × ℕ → Exec (Run W) Reply
  install i previous (mapping, renew_after) = do
    store_state b i.lease_uid (fresh_state i mapping renew_after)
    replaced ← attempt (replace_rules b)
    when_replaced i previous mapping (fresh_state i mapping renew_after) replaced

  -- `Reconcile` behind its guards, with the state that it found of the lease.
  unfoldable pub reconcile_from : Intent → Option RuntimeState → Exec (Run W) Reply
  reconcile_from i previous = do
    lift (admit previous i)
    capabilities ← attempt (call observe_capabilities b.observe_capabilities)
    accept_capabilities i previous capabilities
    request ← lift (provider_request i)
    t ← now b
    pair ← current_mapping i previous t request
    install i previous pair

  unfoldable pub reconcile : Gateway → Intent → Exec (Run W) Reply
  reconcile g i = do
    lift (validate_runtime_intent g i)
    lift (
        reject_if (not b.port_forward_set || not b.rules_set || not b.delivery_set)
          (new "engine port-forward capability, atomic rules, and delivery backends are required"))
    states ← own_state
    reconcile_from i (lookup i.lease_uid states)
