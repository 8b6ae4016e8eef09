-- ===== src/Cni/Plugin.antt =====
-- internal/cni/plugin.go: ADD over the agent, the namespace enforcer and
-- the attachment store. The three interfaces are parameters: whatever they answer, the plugin's
-- calls on them are logged.
pub mod Log
mod Retry
mod Protect
pub mod Admission
use waycloak.Prelude.{
  ℕ, suc, zero, ◌+◌, ◌/◌, String, Bool, true, false, ◌&&◌, ◌||◌, ◌==◌, not, List, [], ◌∷◌, ◌++◌,
  if◌then◌else◌, ltb, any,
}
use waycloak.Prelude.Int.{pos}
use waycloak.Exec.{
  Err, new, wrap, join, Result, ok, err, is_ok, reject_if, and_then, join_all, Exec, pure, fail,
  lift, attempt, wrapping, ◌>>=◌, ◌>>◌, Traced, perform, observe,
}
use waycloak.Cni.Types.{
  PodIdentity, pod_eq, Resolution, Binding, validate_binding, locked_down, ready, is_ready, Key,
  key_eq, Attachment, attachment_key, Request, request_key, validate_request,
}
use waycloak.Exec.{errors_is}
use waycloak.Cni.Calls.{
  Plugin, Call, resolve, binding, prepare, check, withdraw, status, identity, install_lockdown,
  cleanup, load, save, delete, list, unless_is, is_identity, is_sentinel_not_exist,
  is_sentinel_pod_not_found, call_identity, call_lockdown, call_cleanup, call_load, call_save,
  call_delete, call_list, call_resolve, call_binding, call_prepare, call_check, call_withdraw,
  call_status,
}

unfoldable pub same_attachment : Attachment → Request → String → Result (Unit {0})
same_attachment a r namespace_identity =
    if not (a.network == r.network) || not (pod_eq a.pod r.pod)
    then err (new "stored attachment does not match exact CNI attachment identity")
    else reject_if (not (a.namespace_identity == namespace_identity))
        (new "network namespace identity changed for the same CNI attachment")

abbrev pub same_pod : Request → Attachment → Bool
same_pod r a =
    a.pod.namespace == r.pod.namespace && a.pod.name == r.pod.name && a.pod.uid == r.pod.uid

-- The record of the deny state.
abbrev pub locked_attachment : Request → String → ℕ → Attachment
locked_attachment r namespace_identity at = record {
  network = r.network;
  pod = r.pod;
  namespace_identity = namespace_identity;
  phase = locked_down;
  binding_uid = "";
  binding_generation = pos 0;
  gateway_uid = "";
  updated_at = at;
}

abbrev pub allocated_attachment : Attachment → Binding → ℕ → Attachment
allocated_attachment a found at = record a {
  binding_uid = found.uid;
  binding_generation = found.generation;
  gateway_uid = found.gateway_uid;
  updated_at = at;
}

abbrev pub recorded_binding : Attachment → Request → Binding
recorded_binding a r = record {
  uid = a.binding_uid;
  generation = a.binding_generation;
  pod_uid = r.pod.uid;
  gateway_uid = a.gateway_uid;
}

-- The agent's answer must be about the exact Pod UID.
unfoldable pub resolved_enrollment : Resolution → Request → Result Bool
resolved_enrollment resolution r =
    if not (resolution.pod_uid == r.pod.uid)
    then err (new "local agent resolved another Pod UID")
    else ok resolution.enrolled

module _ {W : Type 0} (p : Plugin W) where
  unfoldable pub default_resolve_timeout : ℕ
  default_resolve_timeout = if ltb 0 p.resolve_timeout then p.resolve_timeout else 2_000_000_000

  unfoldable pub default_binding_timeout : ℕ
  default_binding_timeout = if ltb 0 p.binding_timeout then p.binding_timeout else 10_000_000_000

  unfoldable pub default_retry_interval : ℕ
  default_retry_interval = if ltb 0 p.retry_interval then p.retry_interval else 100_000_000

  unfoldable pub validate : Request → Result (Unit {0})
  validate r = and_then (validate_request r) λ _.
      reject_if (not p.agent_set || not p.enforcer_set || not p.store_set)
        (new "local agent, namespace enforcer, and state store are required")

  -- The test after a failed attempt of `retryValue`, and what follows it.
  unfoldable pub retry_next :
      {A : Type 0} → Exec (Traced W Call) A → Result A → Exec (Traced W Call) A
  retry_next again (ok value) = pure value
  retry_next again (err e) = do
    done ← observe p.context_done
    if done then fail (wrap "bounded wait expired" e) else again

  unfoldable pub retry_last : {A : Type 0} → Result A → Exec (Traced W Call) A
  retry_last (ok value) = pure value
  retry_last (err e) = fail (wrap "bounded wait expired" e)

  -- The loop of `retryValue`. The fuel counts the waits that fit into the timeout: when they are
  -- used up the context is done, so the `select` has nothing left to choose.
  unfoldable pub retry_value : {A : Type 0} → ℕ → Exec (Traced W Call) A → Exec (Traced W Call) A
  retry_value zero operation = do r ← attempt operation; retry_last r
  retry_value (suc n) operation = do r ← attempt operation; retry_next (retry_value n operation) r

  unfoldable pub attempts : ℕ → ℕ
  attempts timeout = timeout / default_retry_interval + 1

  unfoldable pub has_prior_enrollment : Request → Exec (Traced W Call) Bool
  has_prior_enrollment r = do
    attachments ← call_list p r.network
    pure (any (same_pod r) attachments)

  -- The branch of ADD on a stored attachment. The result says whether ADD goes on to deny.
  unfoldable pub add_existing : Attachment → Request → String → Exec (Traced W Call) Bool
  add_existing existing r namespace_identity = do
    lift (same_attachment existing r namespace_identity)
    if is_ready existing.phase
        then (do
          checked ← attempt (call_check p r.pod (recorded_binding existing r))
          pure (not (is_ok checked)))
        else pure true

  unfoldable pub add_unrecorded : Request → Exec (Traced W Call) Bool
  add_unrecorded r = do
    sticky ← wrapping "find prior UID-bound enrollment" (has_prior_enrollment r)
    if sticky then pure true else do
      resolution ←
          wrapping "resolve exact Pod enrollment through local agent"
            (retry_value (attempts default_resolve_timeout) (call_resolve p r.pod))
      lift (resolved_enrollment resolution r)

  unfoldable pub add_loaded : Request → String → Result Attachment → Exec (Traced W Call) Bool
  add_loaded r namespace_identity (ok existing) = add_existing existing r namespace_identity
  add_loaded r namespace_identity (err e) =
      if errors_is is_sentinel_not_exist e
      then add_unrecorded r
      else fail (wrap "load prior attachment state" e)

  -- A failed record of the deny state rolls that state back.
  unfoldable pub add_recorded : Request → Result (Unit {0}) → Exec (Traced W Call) (Unit {0})
  add_recorded r (ok _) = pure tt
  add_recorded r (err e) = do
    rolled_back ← attempt (call_cleanup p r.pod.net_ns r.pod.uid)
    lift (elim rolled_back [
      | ok _ ↦ err (wrap "record deny-first attachment state" e)
      | err f ↦ err (
          join (wrap "record deny-first attachment state" e)
            (wrap "roll back unrecorded deny-first state" f))
    ])

  -- The rest of ADD, once it is decided that the Pod is protected.
  unfoldable pub add_protected : Request → String → Exec (Traced W Call) (Unit {0})
  add_protected r namespace_identity = do
    wrapping "install deny-first policy" (call_lockdown p r.pod.net_ns r.pod.uid)
    locked_at ← observe p.now
    let attachment = locked_attachment r namespace_identity locked_at
    recorded ← attempt (call_save p attachment)
    add_recorded r recorded
    found ←
        wrapping "wait for UID-bound allocation with deny retained"
          (retry_value (attempts default_binding_timeout) (call_binding p r.pod))
    wrapping "validate UID-bound protected-path configuration with deny retained"
        (lift (validate_binding found r.pod.uid))
    allocated_at ← observe p.now
    let allocated = allocated_attachment attachment found allocated_at
    wrapping "record allocated attachment state" (call_save p allocated)
    wrapping "ask local agent to program and verify protected path after deny"
        (call_prepare p r.pod found)
    ready_at ← observe p.now
    wrapping "record ready attachment state"
        (call_save p (record allocated { phase = ready; updated_at = ready_at }))

  unfoldable pub add : Request → Exec (Traced W Call) (Unit {0})
  add r = do
    lift (validate r)
    namespace_identity ←
        wrapping "resolve exact network namespace identity" (call_identity p r.pod.net_ns)
    loaded ← attempt (call_load p (request_key r))
    protected ← add_loaded r namespace_identity loaded
    if protected then add_protected r namespace_identity else pure tt
