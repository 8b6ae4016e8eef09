-- ===== src/NodeAgent/Groups.antt =====
-- `ReconcileAll` of internal/nodeagent/service.go: the attachments of each Pod.
use waycloak.Prelude.{
  string_lt, ℕ, ◌+◌, String, Bool, false, ◌&&◌, ◌||◌, ◌==◌, not, List, [], ◌∷◌, ◌++◌, Option, none,
  some, if◌then◌else◌, ltb, nat_eq,
}
use waycloak.Exec.{
  Err, wrap, Result, join_all, Exec, pure, lift, attempt, wrapping, ◌>>=◌, ◌>>◌, call,
}
use waycloak.Cni.Types.{PodIdentity, Key, Attachment, attachment_key}
use waycloak.Dataplane.{Netip}
use waycloak.NodeAgent.Types.{WorkloadBinding, Service, delete, Run}
use waycloak.NodeAgent.Lookup.{observe_not_ready, forget_observation}
use waycloak.NodeAgent.Withdraw.{
  unobserved, is_exact, kept, call_identity, lock_attachment, clean_attachment, withdrawal_binding,
  publish_withdrawal,
}

-- `lockedDownReconcileDelay`, 45 s.
abbrev pub locked_down_reconcile_delay : ℕ
locked_down_reconcile_delay = 45000000000

-- `attachmentIsYoung`: an age below the delay, and a time that is set.
unfoldable pub attachment_is_young : Attachment → ℕ → Bool
attachment_is_young a now =
    not (nat_eq a.updated_at 0) && ltb now (a.updated_at + locked_down_reconcile_delay)

-- The order of the attachments of a group: by network, container and interface.
unfoldable pub key_lt : Key → Key → Bool
key_lt a b =
    if not (a.network == b.network)
    then string_lt a.network b.network
    else if not (a.container_id == b.container_id)
    then string_lt a.container_id b.container_id
    else string_lt a.if_name b.if_name

unfoldable pub insert_attachment : Attachment → List Attachment → List Attachment
insert_attachment a [] = a ∷ []
insert_attachment a (b ∷ rest) =
    if key_lt (attachment_key b) (attachment_key a)
    then b ∷ insert_attachment a rest
    else a ∷ b ∷ rest

-- `sort.Slice`, as an insertion sort.
unfoldable pub sort_attachments : List Attachment → List Attachment
sort_attachments [] = []
sort_attachments (a ∷ rest) = insert_attachment a (sort_attachments rest)

-- `groups[uid] = append(groups[uid], attachment)`, with the Pod UIDs in order: the map and the sorted
-- list of its keys in one.
unfoldable pub add_to_group :
    Attachment → List (String × List Attachment) → List (String × List Attachment)
add_to_group a [] = (a.pod.uid, a ∷ []) ∷ []
add_to_group a ((uid, group) ∷ rest) =
    if uid == a.pod.uid
    then (uid, group ++ a ∷ []) ∷ rest
    else if string_lt uid a.pod.uid
    then (uid, group) ∷ add_to_group a rest
    else (a.pod.uid, a ∷ []) ∷ (uid, group) ∷ rest

unfoldable pub group_attachments :
    List Attachment → List (String × List Attachment) → List (String × List Attachment)
group_attachments [] groups = groups
group_attachments (a ∷ rest) groups =
    group_attachments rest
      (if a.pod.uid == "" || a.pod.net_ns == "" then groups else add_to_group a groups)

-- Whether the attachments name another Pod than the first one's.
unfoldable pub disagree : PodIdentity → List Attachment → Bool
disagree i [] = false
disagree i (a ∷ rest) =
    not (a.pod.namespace == i.namespace) || not (a.pod.name == i.name) || disagree i rest

unfoldable pub classified : Attachment → Result String → Option Err → Bool × List Err
classified a found (some e) = (false, wrap "observe durable attachment namespace" e ∷ [])
classified a found none = (is_exact a found, [])

module _ {n : Netip} {W : Type 0} (s : Service n W) where
  -- One attachment of `liveAttachments`: whether it is live, and its error.
  unfoldable pub classify : Attachment → Exec (Run n W) (Bool × List Err)
  classify a = do found ← attempt (call_identity s a); pure (classified a found (unobserved found))

  -- `s.liveAttachments`, with the errors that it joins.
  unfoldable pub live_attachments : List Attachment → Exec (Run n W) (List Attachment × List Err)
  live_attachments [] = pure ([], [])
  live_attachments (a ∷ rest) = do
    (is_live, errs) ← classify a
    (live, more) ← live_attachments rest
    pure (if is_live then a ∷ live else live, errs ++ more)

  -- A loop over attachments that collects the errors of an action.
  unfoldable pub for_each :
      (Attachment → Exec (Run n W) (Unit {0})) → List Attachment → Exec (Run n W) (List Err)
  for_each f [] = pure []
  for_each f (a ∷ rest) = do
    answer ← attempt (f a)
    more ← for_each f rest
    pure (kept answer ++ more)

  -- `s.lockdownAttachments`
  unfoldable pub lockdown_attachments : List Attachment → Exec (Run n W) (List Err)
  lockdown_attachments = for_each (lock_attachment s)

  unfoldable pub observe_each : List Attachment → Exec (Run n W) (Unit {0})
  observe_each [] = pure tt
  observe_each (a ∷ rest) = do observe_not_ready s a.pod.namespace a.pod.uid; observe_each rest

  -- `s.quarantineAttachmentGroup`
  unfoldable pub quarantine_group : List Attachment → Err → Exec (Run n W) (Unit {0})
  quarantine_group attachments cause = do
    (live, errs) ← live_attachments attachments
    observe_each attachments
    more ← lockdown_attachments live
    lift (join_all (cause ∷ errs ++ more))

  unfoldable pub delete_attachment : String → Attachment → Exec (Run n W) (Unit {0})
  delete_attachment text a =
      wrapping text (call (delete (attachment_key a)) (s.delete (attachment_key a)))

  unfoldable pub publish_found : Option WorkloadBinding → Exec (Run n W) (Unit {0})
  publish_found none = pure tt
  publish_found (some b) = publish_withdrawal s b

  -- `s.withdrawAttachmentGroup`; `i` is the canonical Pod.
  unfoldable pub withdraw_group : PodIdentity → List Attachment → Exec (Run n W) (Unit {0})
  withdraw_group i attachments = do
    (live, errs) ← live_attachments attachments
    lift (join_all errs)
    cleanup_errs ← for_each (clean_attachment s) live
    lift (join_all cleanup_errs)
    b ← withdrawal_binding s i.namespace i.uid
    publish_found b
    delete_errs ← for_each (delete_attachment "delete withdrawn Pod attachment") attachments
    lift (join_all delete_errs)
    forget_observation s i.uid
