-- ===== src/Cni/Removal.antt =====
-- internal/cni/plugin.go: CHECK, DEL, GC and STATUS.
pub mod Release
pub mod Collection
use waycloak.Prelude.{
  ℕ, suc, zero, ◌+◌, ◌/◌, String, Bool, true, false, ◌&&◌, ◌||◌, ◌==◌, not, List, [], ◌∷◌, ◌++◌,
  if◌then◌else◌, ltb, any,
}
use waycloak.Prelude.Int.{pos}
use waycloak.Exec.{
  Err, new, wrap, join, Result, ok, err, is_ok, reject_if, and_then, join_all, Exec, pure, fail,
  lift, attempt, wrapping, ◌>>=◌, ◌>>◌, Traced, perform, observe,
}
use waycloak.Cni.Types.{
  PodIdentity, pod_eq, Resolution, Binding, validate_binding, locked_down, ready, is_ready, Key,
  key_eq, Attachment, attachment_key, Request, request_key, validate_request,
}
use waycloak.Exec.{errors_is}
use waycloak.Cni.Calls.{
  Plugin, Call, resolve, binding, prepare, check, withdraw, status, identity, install_lockdown,
  cleanup, load, save, delete, list, unless_is, is_identity, is_sentinel_not_exist,
  is_sentinel_pod_not_found, call_identity, call_lockdown, call_cleanup, call_load, call_save,
  call_delete, call_list, call_resolve, call_binding, call_prepare, call_check, call_withdraw,
  call_status,
}
use waycloak.Cni.Plugin.{validate, same_attachment, recorded_binding}

-- DEL goes on only for an absent Pod, or for the exact Pod while it terminates.
unfoldable pub delete_goes_on : Attachment → Result Resolution → Result Bool
delete_goes_on attachment (ok resolution) =
    ok (resolution.pod_uid == attachment.pod.uid && resolution.terminating)
delete_goes_on attachment (err e) =
    if errors_is is_sentinel_pod_not_found e
    then ok true
    else err (wrap "resolve exact Pod for DEL with durable state retained" e)

module _ {W : Type 0} (p : Plugin W) where
  unfoldable pub check_attachment : Request → Exec (Traced W Call) (Unit {0})
  check_attachment r = do
    lift (validate p r)
    attachment ← wrapping "load attachment state for CHECK" (call_load p (request_key r))
    namespace_identity ←
        wrapping "resolve network namespace identity for CHECK" (call_identity p r.pod.net_ns)
    lift (same_attachment attachment r namespace_identity)
    lift (
        reject_if (not (is_ready attachment.phase))
          (new "attachment has not completed deny-first protected-path setup"))
    wrapping "local agent cannot confirm live attachment"
        (call_check p r.pod (recorded_binding attachment r))

  unfoldable pub delete_withdrawn : Key → String → Attachment → Exec (Traced W Call) (Unit {0})
  delete_withdrawn key netns attachment = do
    let path : String = if netns == "" then attachment.pod.net_ns else netns
    observed ← attempt (call_identity p path)
    lift (unless_is is_sentinel_not_exist "observe exact network namespace for DEL" observed)
    wrapping "confirm exact attachment withdrawal" (call_withdraw p attachment.pod)
    if is_identity observed attachment.namespace_identity
        then wrapping "remove exact Waycloak network state" (call_cleanup p path attachment.pod.uid)
        else pure tt
    wrapping "delete attachment state" (call_delete p key)

  unfoldable pub delete_loaded : Key → String → Result Attachment → Exec (Traced W Call) (Unit {0})
  delete_loaded key netns (err e) =
      if errors_is is_sentinel_not_exist e
      then pure tt
      else fail (wrap "load attachment state for DEL" e)
  delete_loaded key netns (ok attachment) = do
    resolution ← attempt (call_resolve p attachment.pod)
    goes_on ← lift (delete_goes_on attachment resolution)
    if goes_on then delete_withdrawn key netns attachment else pure tt

  unfoldable pub delete_attachment : Key → String → Exec (Traced W Call) (Unit {0})
  delete_attachment key netns = do
    lift (
        reject_if (not p.agent_set || not p.store_set || not p.enforcer_set)
          (new "local agent, CNI store, and enforcer are required"))
    loaded ← attempt (call_load p key)
    delete_loaded key netns loaded

  -- One round of GC on an attachment whose key is not valid: the errors that it adds.
  unfoldable pub gc_cleaned : Attachment → Result (Unit {0}) → Exec (Traced W Call) (List Err)
  gc_cleaned a (err e) = pure (e ∷ [])
  gc_cleaned a (ok _) = do
    deleted ← attempt (call_delete p (attachment_key a))
    pure (elim deleted [ ok _ ↦ [] | err e ↦ e ∷ [] ])

  unfoldable pub gc_attachment : Attachment → Exec (Traced W Call) (List Err)
  gc_attachment a = do
    observed ← attempt (call_identity p a.pod.net_ns)
    cleaned ←
        if is_identity observed a.namespace_identity
        then attempt (call_cleanup p a.pod.net_ns a.pod.uid)
        else pure (ok tt)
    gc_cleaned a cleaned

  unfoldable pub gc_loop : List Key → List Attachment → Exec (Traced W Call) (List Err)
  gc_loop valid [] = pure []
  gc_loop valid (a ∷ rest) = do
    errs ← if any (λ k. key_eq k (attachment_key a)) valid then pure [] else gc_attachment a
    later ← gc_loop valid rest
    pure (errs ++ later)

  unfoldable pub gc : String → List Key → Exec (Traced W Call) (Unit {0})
  gc network valid = do
    lift (
        reject_if (not p.store_set || not p.enforcer_set)
          (new "CNI store and enforcer are required"))
    attachments ← call_list p network
    errs ← gc_loop valid attachments
    lift (join_all errs)

  unfoldable pub plugin_status : Exec (Traced W Call) (Unit {0})
  plugin_status = do
    lift (reject_if (not p.agent_set) (new "local agent is required"))
    call_status p
