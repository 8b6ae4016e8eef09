-- ===== src/NodeAgent/Reconcile.antt =====
-- `reconcileAttachmentGroup` and `ReconcileAll` of internal/nodeagent/service.go.
use waycloak.Prelude.{String, Bool, false, ◌&&◌, ◌==◌, not, List, [], ◌∷◌, ◌++◌, if◌then◌else◌}
use waycloak.Prelude.Int.{eq_ℤ}
use waycloak.Exec.{
  Err, new, sentinel, wrap, sandbox_ambiguous, Result, ok, err, join_all, Exec, pure, fail, lift,
  attempt, wrapping, ◌>>=◌, ◌>>◌, call, read,
}
use waycloak.Cni.Types.{PodIdentity, Attachment, attachment_key, key_eq, is_locked_down}
use waycloak.Dataplane.{Netip}
use waycloak.NodeAgent.Types.{Pod, WorkloadBinding, Service, save, Run}
use waycloak.NodeAgent.Lookup.{
  pod_of, binding_of, binding_reference, record_observation, observe_not_ready, exact_pod_absent,
}
use waycloak.NodeAgent.Program.{prepare_pod, check_pod}
use waycloak.NodeAgent.Withdraw.{kept, lock_attachment, call_list_all, lockdown_all}
use waycloak.NodeAgent.Groups.{
  attachment_is_young, sort_attachments, group_attachments, disagree, live_attachments,
  lockdown_attachments, delete_attachment, quarantine_group, withdraw_group,
}

-- Whether the binding is still the one that the attachment was recorded under.
unfoldable pub is_recorded_binding : Attachment → WorkloadBinding → Bool
is_recorded_binding current b = b.uid == current.binding_uid && b.gateway_uid == current.gateway_uid

module _ {n : Netip} {W : Type 0} (s : Service n W) where
  -- `attachment.Phase == PhaseLockedDown && attachmentIsYoung(attachment, s.now())`
  unfoldable pub is_fresh_attempt : Attachment → Exec (Run n W) Bool
  is_fresh_attempt a =
      if not (is_locked_down a.phase)
      then pure false
      else do now ← read s.now; pure (attachment_is_young a now)

  -- One attachment of the last loop.
  unfoldable pub delete_stale : Attachment → Attachment → Exec (Run n W) (List Err)
  delete_stale current a =
      if key_eq (attachment_key a) (attachment_key current) then pure [] else do
        is_fresh ← is_fresh_attempt a
        if is_fresh then pure [] else (do
          deleted ← attempt (delete_attachment s "delete quarantined Pod attachment" a)
          pure (kept deleted))

  unfoldable pub delete_stale_loop : Attachment → List Attachment → Exec (Run n W) (List Err)
  delete_stale_loop current [] = pure []
  delete_stale_loop current (a ∷ rest) = do
    errs ← delete_stale current a
    more ← delete_stale_loop current rest
    pure (errs ++ more)

  unfoldable pub when_saved :
      Attachment → WorkloadBinding → Result (Unit {0}) → Exec (Run n W) (Unit {0})
  when_saved current b (ok _) = pure tt
  when_saved current b (err e) = do
    locked ← attempt (lock_attachment s current)
    o ← record_observation s b false
    lift (join_all (wrap "persist adopted binding generation" e ∷ kept locked))

  -- The record adopts the generation of its binding.
  unfoldable pub adopt : Attachment → WorkloadBinding → Exec (Run n W) (Unit {0})
  adopt current b = if eq_ℤ current.binding_generation b.generation then pure tt else do
    now ← read s.now
    let adopted : Attachment = record current {
      binding_generation = b.generation;
      updated_at = now;
    }
    saved ← attempt (call (save adopted) (s.save adopted))
    when_saved adopted b saved

  unfoldable pub when_programmed :
      Attachment → List Attachment → WorkloadBinding → Result (Unit {0}) → Exec (Run n W) (Unit {0})
  when_programmed current attachments b (err e) = do o ← record_observation s b false; fail e
  when_programmed current attachments b (ok _) = do
    adopt current b
    errs ← delete_stale_loop current attachments
    lift (join_all errs)

  unfoldable pub program_current : Attachment → WorkloadBinding → Exec (Run n W) (Unit {0})
  program_current current b =
      if eq_ℤ current.binding_generation b.generation
      then check_pod s current.pod (binding_reference b)
      else prepare_pod s current.pod (binding_reference b)

  abbrev pub revoked : Err
  revoked = new "durable attachment binding was revoked or replaced"

  unfoldable pub reconcile_bound :
      PodIdentity
      → Attachment
      → List Attachment
      → Result WorkloadBinding
      → Exec (Run n W) (Unit {0})
  reconcile_bound i current attachments (err e) = do
    locked ← attempt (lock_attachment s current)
    observe_not_ready s i.namespace i.uid
    lift (join_all (revoked ∷ e ∷ kept locked))
  reconcile_bound i current attachments (ok b) =
      if is_recorded_binding current b
      then (do
        programmed ← attempt (program_current current b)
        when_programmed current attachments b programmed)
      else do
        locked ← attempt (lock_attachment s current)
        o ← record_observation s b false
        lift (join_all (revoked ∷ kept locked))

  unfoldable pub reconcile_locked : PodIdentity → Attachment → Exec (Run n W) (Unit {0})
  reconcile_locked i current = do
    observe_not_ready s i.namespace i.uid
    now ← read s.now
    if attachment_is_young current now then pure tt else lock_attachment s current

  unfoldable pub reconcile_current :
      PodIdentity → Pod → Attachment → List Attachment → Exec (Run n W) (Unit {0})
  reconcile_current i pod current attachments =
      if is_locked_down current.phase
      then reconcile_locked i current
      else do found ← attempt (binding_of s pod); reconcile_bound i current attachments found

  -- After `liveAttachments`: the live attachments and the errors.
  unfoldable pub reconcile_live :
      PodIdentity → Pod → List Attachment → List Attachment → List Err → Exec (Run n W) (Unit {0})
  reconcile_live i pod attachments live (e ∷ errs) = do
    observe_not_ready s i.namespace i.uid
    more ← lockdown_attachments s live
    lift (join_all (e ∷ errs ++ more))
  reconcile_live i pod attachments [] [] = observe_not_ready s i.namespace i.uid
  reconcile_live i pod attachments (current ∷ []) [] = reconcile_current i pod current attachments
  reconcile_live i pod attachments (first ∷ second ∷ rest) [] = do
    observe_not_ready s i.namespace i.uid
    more ← lockdown_attachments s (first ∷ second ∷ rest)
    lift (join_all (sentinel sandbox_ambiguous ∷ more))

  unfoldable pub reconcile_present :
      PodIdentity → List Attachment → Result Pod → Exec (Run n W) (Unit {0})
  reconcile_present i attachments (err e) =
      if exact_pod_absent e
      then withdraw_group s i attachments
      else do observe_not_ready s i.namespace i.uid; fail e
  reconcile_present i attachments (ok pod) =
      if pod.deleting then withdraw_group s i attachments else do
        (live, errs) ← live_attachments s attachments
        reconcile_live i pod attachments live errs

  unfoldable pub reconcile_sorted : List Attachment → Exec (Run n W) (Unit {0})
  reconcile_sorted [] = pure tt
  reconcile_sorted (canonical ∷ rest) =
      if disagree canonical.pod rest
      then quarantine_group s (canonical ∷ rest)
          (new "durable attachments disagree on Pod namespace or name")
      else do
        pod ← attempt (pod_of s canonical.pod)
        reconcile_present canonical.pod (canonical ∷ rest) pod

  -- `s.reconcileAttachmentGroup`; a group is never empty.
  unfoldable pub reconcile_group : List Attachment → Exec (Run n W) (Unit {0})
  reconcile_group attachments = reconcile_sorted (sort_attachments attachments)

  unfoldable pub reconcile_groups : List (String × List Attachment) → Exec (Run n W) (List Err)
  reconcile_groups [] = pure []
  reconcile_groups ((uid, group) ∷ rest) = do
    answer ← attempt (wrapping "reconcile Pod UID" (reconcile_group group))
    more ← reconcile_groups rest
    pure (kept answer ++ more)

  -- `ReconcileAll`
  unfoldable pub reconcile_all : Exec (Run n W) (Unit {0})
  reconcile_all = if s.transition_held then lockdown_all s else do
    attachments ← wrapping "list durable CNI attachments" (call_list_all s)
    errs ← reconcile_groups (group_attachments attachments [])
    lift (join_all errs)
