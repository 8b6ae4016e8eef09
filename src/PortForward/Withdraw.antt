-- ===== src/PortForward/Withdraw.antt =====
-- `Withdraw` of internal/portforward/manager.go.
use waycloak.Prelude.{Bool, true, false, ◌||◌, not, if◌then◌else◌, Option, none, some}
use waycloak.Prelude.Int.{pos, eq_ℤ}
use waycloak.Prelude.Assoc.{lookup}
use waycloak.Exec.{
  new, Result, ok, err, reject_if, Exec, pure, lift, attempt, ◌>>=◌, ◌>>◌, call, own_state,
}
use waycloak.PortForward.Intent.{WithdrawalIntent, Gateway, validate_withdrawal, invalid, other}
use waycloak.PortForward.States.{RuntimeState, LeaseRequest, provider_request}
use waycloak.PortForward.Manager.{
  Reply, Backends, release_lease, withdrawn, withdraw_delivery, Run, replace_rules, store_state,
  delete_state,
}
use waycloak.PortForward.Reconcile.{withdrawal_observation}

-- The state that `Withdraw` found, if any, behind the check of its generation.
unfoldable pub admit_withdrawal : Option RuntimeState → WithdrawalIntent → Result (Unit {0})
admit_withdrawal none i = ok tt
admit_withdrawal (some s) i =
    reject_if (not (eq_ℤ s.intent.handoff_generation i.handoff_generation))
      (new "withdrawal generation does not match active state")

abbrev pub draining_state : RuntimeState → RuntimeState
draining_state s = if s.draining || s.drained then s else record s { draining = true }

abbrev pub drained_state : RuntimeState → RuntimeState
drained_state s = record (draining_state s) { draining = false; drained = true }

-- The request by which the provider's lease is released.
unfoldable pub release_request : WithdrawalIntent → Option RuntimeState → Result LeaseRequest
release_request i (some s) = provider_request s.intent
release_request i none = provider_request (record {
  api_version = "";
  lease_namespace = "";
  lease_uid = i.lease_uid;
  gateway_uid = "";
  handoff_generation = pos 0;
  service_uid = "";
  endpoint_slice_uid = "";
  pod_uid = "";
  binding_uid = "";
  provider_internal_port = i.provider_internal_port;
  previous_public_port = i.previous_public_port;
  overlay_address = invalid;
  application_address = invalid;
  backend_port = 0;
  target_port = 0;
  protocols = i.protocols;
  adapter_name = "";
  application_port_mode = other "";
})

module _ {W : Type 0} (b : Backends W) where
  -- `return m.withdrawalObservation(intent, done), err`
  unfoldable pub reply : WithdrawalIntent → Bool → Result (Unit {0}) → Exec (Run W) Reply
  reply i done e = do
    o ← withdrawal_observation b i done
    pure (record { observation = o; error = e })

  unfoldable pub start_draining : WithdrawalIntent → Option RuntimeState → Exec (Run W) (Unit {0})
  start_draining i none = pure tt
  start_draining i (some s) =
      if s.draining || s.drained then pure tt else store_state b i.lease_uid (draining_state s)

  unfoldable pub stop_draining : WithdrawalIntent → Option RuntimeState → Exec (Run W) (Unit {0})
  stop_draining i none = pure tt
  stop_draining i (some s) =
      store_state b i.lease_uid (record (draining_state s) { draining = false })

  unfoldable pub finish_draining : WithdrawalIntent → Option RuntimeState → Exec (Run W) (Unit {0})
  finish_draining i none = pure tt
  finish_draining i (some s) = store_state b i.lease_uid (drained_state s)

  unfoldable pub released : WithdrawalIntent → Result (Unit {0}) → Exec (Run W) Reply
  released i (err e) = reply i false (err e)
  released i (ok _) = do delete_state b i.lease_uid; reply i true (ok tt)

  unfoldable pub release : WithdrawalIntent → Result LeaseRequest → Exec (Run W) Reply
  release i (err e) = reply i false (err e)
  release i (ok request) =
      if not b.port_forward_set
      then reply i false (err (new "engine port-forward capability is unavailable"))
      else do
        answer ← attempt (call (release_lease request) (b.release_lease request))
        released i answer

  unfoldable pub when_delivery_withdrawn :
      WithdrawalIntent → Option RuntimeState → Result Bool → Exec (Run W) Reply
  when_delivery_withdrawn i found (err e) = reply i false (err e)
  when_delivery_withdrawn i found (ok false) = reply i false (ok tt)
  when_delivery_withdrawn i found (ok true) = do
    finish_draining i found
    if i.release_provider then release i (release_request i found) else reply i true (ok tt)

  unfoldable pub when_rules_withdrawn :
      WithdrawalIntent → Option RuntimeState → Result Bool → Exec (Run W) Reply
  when_rules_withdrawn i found (err e) = reply i false (err e)
  when_rules_withdrawn i found (ok false) = reply i false (ok tt)
  when_rules_withdrawn i found (ok true) = do
    answer ← attempt (call (withdraw_delivery i) (b.withdraw_delivery i))
    when_delivery_withdrawn i found answer

  unfoldable pub when_rules_replaced :
      WithdrawalIntent → Option RuntimeState → Result (Unit {0}) → Exec (Run W) Reply
  when_rules_replaced i found (err e) = do stop_draining i found; reply i false (err e)
  when_rules_replaced i found (ok _) = do
    answer ← attempt (
        call (withdrawn i.lease_uid i.handoff_generation)
          (b.withdrawn i.lease_uid i.handoff_generation))
    when_rules_withdrawn i found answer

  unfoldable pub withdraw_from : WithdrawalIntent → Option RuntimeState → Exec (Run W) Reply
  withdraw_from i found = do
    lift (admit_withdrawal found i)
    start_draining i found
    replaced ← attempt (replace_rules b)
    when_rules_replaced i found replaced

  unfoldable pub withdraw : Gateway → WithdrawalIntent → Exec (Run W) Reply
  withdraw g i = do
    lift (validate_withdrawal g i)
    lift (
        reject_if (not b.rules_set || not b.delivery_set)
          (new "atomic rules and delivery backends are required"))
    states ← own_state
    withdraw_from i (lookup i.lease_uid states)
