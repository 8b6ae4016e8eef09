-- ===== src/NodeAgent/Withdraw.antt =====
-- `LockdownAll` and `Withdraw` of internal/nodeagent/service.go.
use waycloak.Prelude.{
  String, Bool, true, false, ◌||◌, ◌==◌, not, List, [], ◌∷◌, ◌++◌, Option, none, some,
  if◌then◌else◌,
}
use waycloak.Prelude.Int.{pos, ltb_ℤ}
use waycloak.Exec.{
  Err, new, wrap, Sentinel, not_exist, errors_is, Result, ok, err, join_all, reject_if, Exec, pure,
  lift, attempt, wrapping, ◌>>=◌, ◌>>◌, call,
}
use waycloak.Cni.Types.{PodIdentity, Attachment, pod_eq, validate_pod}
use waycloak.Dataplane.{Netip}
use waycloak.NodeAgent.Types.{
  Pod, WorkloadBinding, Report, Service, get_binding, list_bindings, identity, install_lockdown,
  cleanup, list_all, publish, Run,
}
use waycloak.NodeAgent.Lookup.{
  binding_object, pod_of, raw_binding, record_observation, forget_observation, report,
  exact_pod_absent, is_not_found,
}

abbrev pub is_not_exist : Sentinel → Bool
is_not_exist not_exist = true
is_not_exist _ = false

-- `identityErr != nil && !errors.Is(identityErr, fs.ErrNotExist)`
abbrev pub unobserved : Result String → Option Err
unobserved (ok found) = none
unobserved (err e) = if errors_is is_not_exist e then none else some e

-- `identityErr == nil && identity == attachment.NamespaceIdentity`
unfoldable pub is_exact : Attachment → Result String → Bool
is_exact a (ok found) = found == a.namespace_identity
is_exact a (err e) = false

-- An error kept for `errors.Join`.
abbrev pub kept : Result (Unit {0}) → List Err
kept (ok _) = []
kept (err e) = e ∷ []

-- `s.withdrawalBinding`: none where there is no binding.
unfoldable pub checked_withdrawal :
    String → Result WorkloadBinding → Result (Option WorkloadBinding)
checked_withdrawal pod_uid (err e) =
    if errors_is is_not_found e
    then ok none
    else err (wrap "resolve exact binding for withdrawal" e)
checked_withdrawal pod_uid (ok b) =
    if not (b.pod_uid == pod_uid)
    then err (new "withdrawal binding Pod UID does not match durable attachment")
    else ok (some b)

-- `podErr == nil && pod.DeletionTimestamp.IsZero()`
unfoldable pub is_running : Result Pod → Bool
is_running (ok pod) = not pod.deleting
is_running (err e) = false

-- `podErr != nil && !podAbsent`
unfoldable pub unless_absent : Result Pod → Result (Unit {0})
unless_absent (ok pod) = ok tt
unless_absent (err e) = if exact_pod_absent e then ok tt else err e

abbrev pub observed_namespace : Option Err → Result (Unit {0})
observed_namespace none = ok tt
observed_namespace (some e) = err (wrap "observe exact attachment namespace for withdrawal" e)

-- The loop of `exactAttachment`.
unfoldable pub find_attachment : PodIdentity → List Attachment → Result Attachment
find_attachment i [] = err (new "exact durable attachment is unavailable")
find_attachment i (a ∷ rest) = if pod_eq a.pod i then ok a else find_attachment i rest

module _ {n : Netip} {W : Type 0} (s : Service n W) where
  unfoldable pub call_identity : Attachment → Exec (Run n W) String
  call_identity a = call (identity a.pod.net_ns) (s.identity a.pod.net_ns)

  unfoldable pub lock_attachment : Attachment → Exec (Run n W) (Unit {0})
  lock_attachment a =
      call (install_lockdown a.pod.net_ns a.pod.uid) (s.install_lockdown a.pod.net_ns a.pod.uid)

  unfoldable pub clean_attachment : Attachment → Exec (Run n W) (Unit {0})
  clean_attachment a = call (cleanup a.pod.net_ns a.pod.uid) (s.cleanup a.pod.net_ns a.pod.uid)

  unfoldable pub call_list_all : Exec (Run n W) (List Attachment)
  call_list_all = call list_all s.list_all

  -- `if binding, err := s.rawBinding(...); err == nil { s.observe(binding, false) }`
  unfoldable pub observe_found : Result WorkloadBinding → Exec (Run n W) (Unit {0})
  observe_found (ok b) = do o ← record_observation s b false; pure tt
  observe_found (err e) = pure tt

  unfoldable pub lockdown_answered : Attachment → Result (Unit {0}) → Exec (Run n W) (List Err)
  lockdown_answered a (err e) = pure (e ∷ [])
  lockdown_answered a (ok _) = do
    found ← attempt (raw_binding s a.pod.namespace a.pod.uid)
    observe_found found
    pure []

  unfoldable pub lockdown_identified :
      Attachment → Result String → Option Err → Exec (Run n W) (List Err)
  lockdown_identified a found (some e) = pure (wrap "observe durable attachment namespace" e ∷ [])
  lockdown_identified a found none =
      if not (is_exact a found)
      then pure []
      else do locked ← attempt (lock_attachment a); lockdown_answered a locked

  -- One attachment of the loop of `LockdownAll`, with the errors that it adds.
  unfoldable pub lockdown_one : Attachment → Exec (Run n W) (List Err)
  lockdown_one a = do
    found ← attempt (call_identity a)
    lockdown_identified a found (unobserved found)

  unfoldable pub lockdown_loop : List Attachment → Exec (Run n W) (List Err)
  lockdown_loop [] = pure []
  lockdown_loop (a ∷ rest) = do
    errs ← lockdown_one a
    more ← lockdown_loop rest
    pure (errs ++ more)

  -- The bindings that the last loop of `LockdownAll` skips.
  unfoldable pub is_foreign_binding : WorkloadBinding → Bool
  is_foreign_binding b =
      not (b.node_name == s.node_name)
      || ltb_ℤ b.generation (pos 1)
      || b.uid == ""
      || b.pod_uid == ""
      || b.gateway_uid == ""

  unfoldable pub observe_bindings : List WorkloadBinding → Exec (Run n W) (Unit {0})
  observe_bindings [] = pure tt
  observe_bindings (b ∷ rest) =
      if is_foreign_binding b
      then observe_bindings rest
      else do o ← record_observation s b false; observe_bindings rest

  unfoldable pub observe_listed : Result (List WorkloadBinding) → Exec (Run n W) (List Err)
  observe_listed (err e) = pure (wrap "list node bindings for withdrawal" e ∷ [])
  observe_listed (ok bs) = do observe_bindings bs; pure []

  unfoldable pub lockdown_bindings : Exec (Run n W) (List Err)
  lockdown_bindings =
      if not (s.binding_reader_set || s.reader_set)
      then pure (new "kubernetes binding reader is unavailable" ∷ [])
      else do found ← attempt (call list_bindings s.list_bindings); observe_listed found

  -- `LockdownAll`
  unfoldable pub lockdown_all : Exec (Run n W) (Unit {0})
  lockdown_all = do
    attachments ← call_list_all
    errs ← lockdown_loop attachments
    more ← lockdown_bindings
    lift (join_all (errs ++ more))

  unfoldable pub withdrawal_binding : String → String → Exec (Run n W) (Option WorkloadBinding)
  withdrawal_binding namespace pod_uid = do
    found ← attempt (
        call (get_binding namespace (binding_object s pod_uid))
          (s.get_binding namespace (binding_object s pod_uid)))
    lift (checked_withdrawal pod_uid found)

  -- The publication of one observation that is not ready.
  unfoldable pub publish_withdrawal : WorkloadBinding → Exec (Run n W) (Unit {0})
  publish_withdrawal b = do
    lift (reject_if (not s.publisher_set) (new "synchronous withdrawal publisher is unavailable"))
    o ← record_observation s b false
    r ← report s
    let single : Report = record r { observations = o ∷ [] }
    wrapping "publish exact attachment withdrawal" (call (publish single) (s.publish single))

  unfoldable pub finish_withdrawal :
      PodIdentity → Option WorkloadBinding → Exec (Run n W) (Unit {0})
  finish_withdrawal i none = forget_observation s i.uid
  finish_withdrawal i (some b) = do publish_withdrawal b; forget_observation s i.uid

  unfoldable pub close_namespace : Attachment → Result Pod → Bool → Exec (Run n W) (Unit {0})
  close_namespace a pod false = pure tt
  close_namespace a pod true =
      if is_running pod
      then wrapping "withdraw allow path while retaining deny" (lock_attachment a)
      else wrapping "clean terminating exact attachment" (clean_attachment a)

  -- `s.withdrawAttachment`
  unfoldable pub withdraw_attachment : Attachment → Exec (Run n W) (Unit {0})
  withdraw_attachment a = do
    pod ← attempt (pod_of s a.pod)
    lift (unless_absent pod)
    found ← attempt (call_identity a)
    lift (observed_namespace (unobserved found))
    close_namespace a pod (is_exact a found)
    b ← withdrawal_binding a.pod.namespace a.pod.uid
    finish_withdrawal a.pod b

  -- `Withdraw`
  unfoldable pub withdraw : PodIdentity → Exec (Run n W) (Unit {0})
  withdraw i = do
    lift (validate_pod i)
    attachments ← wrapping "list durable attachments for withdrawal" call_list_all
    a ← lift (find_attachment i attachments)
    withdraw_attachment a
