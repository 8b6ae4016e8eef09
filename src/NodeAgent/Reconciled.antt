-- ===== src/NodeAgent/Reconciled.antt =====
-- `ReconcileAll` of internal/nodeagent/service.go and the guarded log.
use waycloak.Prelude.{String, false, List, [], ◌∷◌, ◌++◌, ◌≡◌, refl, sym, All, ◌∙◌}
use waycloak.Exec.{Err, Result, ok, err, lift, ◌>>=◌, join_all, sentinel, sandbox_ambiguous}
use waycloak.Exec.Triple.{
  Triple-known, Triple, Triple-pure, Triple-fail, Triple-if, Triple-bind, Triple-attempt,
  Triple-read, Triple-weaken, Triple-wrapping,
}
use waycloak.Cni.Types.{PodIdentity, Attachment, is_locked_down}
use waycloak.Dataplane.{Netip}
use waycloak.NodeAgent.Types.{Pod, WorkloadBinding, Service}
use waycloak.NodeAgent.Lookup.{observe_not_ready, exact_pod_absent}
use waycloak.NodeAgent.Groups.{
  attachment_is_young, sort_attachments, disagree, lockdown_attachments,
}
use waycloak.NodeAgent.Reconcile.{
  is_recorded_binding, reconcile_bound, reconcile_locked, reconcile_current, reconcile_live,
  reconcile_present, reconcile_sorted, reconcile_group, reconcile_groups, reconcile_all,
}
use waycloak.NodeAgent.Guard.{Guarded}
use waycloak.NodeAgent.Guarding.{
  Keeps, lift-Keeps, record_observation-Keeps, observe_not_ready-Keeps, lock_attachment-Keeps,
  binding_of-Keeps, lockdown_all-Keeps,
}
use waycloak.NodeAgent.Departure.{
  Guarded-ShutStable, pod_of-Asked, Asked, Lists, call_list_all-Listed,
}
use waycloak.NodeAgent.Grouping.{
  sort_attachments-All, OfPod, group_attachments-OfPod, Same, disagree-Same, map-All,
}
use waycloak.NodeAgent.Regroup.{
  lockdown_attachments-Keeps, live_attachments-Keeps, withdraw_group-Keeps, quarantine_group-Keeps,
}
use waycloak.NodeAgent.Adoption.{AfterProgram, program_current-Programmed, when_programmed-Keeps}

module _ {n : Netip} {W : Type 0} (s : Service n W) (K : Attachment → Type 0) where
  reconcile_bound-Keeps :
      (i : PodIdentity) (current : Attachment) (attachments : List Attachment)
      (found : Result WorkloadBinding)
      → Keeps (Guarded K) (reconcile_bound s i current attachments found)
  unfolding reconcile_bound
  reconcile_bound-Keeps i current attachments (err e) =
      Triple-bind {Q = λ _ t. Guarded K t.log} _ _
        (Triple-attempt _ (lock_attachment-Keeps s (Guarded K) (Guarded-ShutStable K) current))
        λ locked.
          Triple-bind {Q = λ _ t. Guarded K t.log} _ _
            (observe_not_ready-Keeps s (Guarded K) (Guarded-ShutStable K) i.namespace i.uid)
            λ _. lift-Keeps (Guarded K) _
  reconcile_bound-Keeps i current attachments (ok b) =
      Triple-if (is_recorded_binding current b) _ _
        (λ _.
          Triple-bind {Q = AfterProgram s K current b} _ _
            (Triple-attempt _ (program_current-Programmed s K current b))
            (when_programmed-Keeps s K current attachments b))
        (λ _.
          Triple-bind {Q = λ _ t. Guarded K t.log} _ _
            (Triple-attempt _ (lock_attachment-Keeps s (Guarded K) (Guarded-ShutStable K) current))
            λ locked.
              Triple-bind {Q = λ _ t. Guarded K t.log} _ _
                (record_observation-Keeps s (Guarded K) (Guarded-ShutStable K) b false)
                λ _. lift-Keeps (Guarded K) _)

  reconcile_current-Keeps :
      (i : PodIdentity) (pod : Pod) (current : Attachment) (attachments : List Attachment)
      → Keeps (Guarded K) (reconcile_current s i pod current attachments)
  unfolding reconcile_current reconcile_locked
  reconcile_current-Keeps i pod current attachments =
      Triple-if (is_locked_down current.phase) _ _
        (λ _.
          Triple-bind {Q = λ _ t. Guarded K t.log} _ _
            (observe_not_ready-Keeps s (Guarded K) (Guarded-ShutStable K) i.namespace i.uid)
            λ _.
              Triple-bind {Q = λ _ t. Guarded K t.log} _ _ (Triple-read _ (λ now w t h. h)) λ now.
                Triple-if (attachment_is_young current now) _ _ (λ _. Triple-pure _ (λ t h. h))
                  (λ _. lock_attachment-Keeps s (Guarded K) (Guarded-ShutStable K) current))
        (λ _.
          Triple-bind {Q = λ _ t. Guarded K t.log} _ _
            (Triple-attempt _ (binding_of-Keeps s (Guarded K) (Guarded-ShutStable K) pod))
            (reconcile_bound-Keeps i current attachments))

  locked_down :
      {A : Type 0} (i : PodIdentity) (live : List Attachment) (r : List Err → Result A)
      → Keeps (Guarded K) (
          observe_not_ready s i.namespace i.uid >>= λ _.
          lockdown_attachments s live >>= λ more. lift (r more))
  locked_down i live r =
      Triple-bind {Q = λ _ t. Guarded K t.log} _ _
        (observe_not_ready-Keeps s (Guarded K) (Guarded-ShutStable K) i.namespace i.uid)
        λ _.
          Triple-bind {Q = λ _ t. Guarded K t.log} _ _ (lockdown_attachments-Keeps s K live)
            λ more. lift-Keeps (Guarded K) (r more)

  reconcile_live-Keeps :
      (i : PodIdentity) (pod : Pod) (attachments live : List Attachment) (errs : List Err)
      → Keeps (Guarded K) (reconcile_live s i pod attachments live errs)
  unfolding reconcile_live
  reconcile_live-Keeps i pod attachments live (e ∷ errs) =
      locked_down i live (λ more. join_all (e ∷ errs ++ more))
  reconcile_live-Keeps i pod attachments [] [] =
      observe_not_ready-Keeps s (Guarded K) (Guarded-ShutStable K) i.namespace i.uid
  reconcile_live-Keeps i pod attachments (current ∷ []) [] =
      reconcile_current-Keeps i pod current attachments
  reconcile_live-Keeps i pod attachments (first ∷ second ∷ rest) [] =
      locked_down i (first ∷ second ∷ rest) (λ more. join_all (sentinel sandbox_ambiguous ∷ more))

  reconcile_present-Keeps :
      (i : PodIdentity) (attachments : List Attachment) (pod : Result Pod)
      → All (λ a. Same i a × K a) attachments
      → Triple
          (Asked K s i pod)
          (reconcile_present s i attachments pod)
          (λ _ t. Guarded K t.log)
          (λ _ t. Guarded K t.log)
  unfolding reconcile_present
  reconcile_present-Keeps i attachments (err e) same =
      Triple-if (exact_pod_absent e) _ _
        (λ q.
          Triple-weaken _ (withdraw_group-Keeps s K i attachments same) (λ t h. (h.0, h.1 q))
            (λ _ t h. h) (λ x t h. h))
        (λ _.
          Triple-bind {Q = λ _ t. Guarded K t.log} _ _
            (Triple-weaken _
              (observe_not_ready-Keeps s (Guarded K) (Guarded-ShutStable K) i.namespace i.uid)
              (λ t h. h.0) (λ _ t h. h) (λ x t h. h))
            λ _. Triple-fail e (λ t h. h))
  reconcile_present-Keeps i attachments (ok pod) same =
      Triple-if pod.deleting _ _
        (λ q.
          Triple-weaken _ (withdraw_group-Keeps s K i attachments same) (λ t h. (h.0, h.1 q))
            (λ _ t h. h) (λ x t h. h))
        (λ _.
          Triple-bind {Q = λ _ t. Guarded K t.log} _ _
            (Triple-weaken _ (live_attachments-Keeps s K attachments) (λ t h. h.0) (λ _ t h. h)
              (λ x t h. h))
            λ (live, errs). reconcile_live-Keeps i pod attachments live errs)

  reconcile_sorted-Keeps :
      (uid : String) (attachments : List Attachment)
      → All (λ a. (a.pod.uid ≡ uid) × K a) attachments
      → Keeps (Guarded K) (reconcile_sorted s attachments)
  unfolding reconcile_sorted
  reconcile_sorted-Keeps uid [] h = Triple-pure _ (λ t g. g)
  reconcile_sorted-Keeps uid (canonical ∷ rest) ((u, k), h) =
      Triple-if (disagree canonical.pod rest) _ _
        (λ _. quarantine_group-Keeps s K (canonical ∷ rest) _)
        (λ agree.
          Triple-bind {Q = Asked K s canonical.pod} _ _
            (Triple-attempt _ (pod_of-Asked K s canonical.pod))
            λ pod. reconcile_present-Keeps canonical.pod (canonical ∷ rest) pod (
              ((refl, refl, refl), k),
              disagree-Same canonical.pod rest agree K (map-All (λ a e. (e.0 ∙ sym u, e.1)) rest h),
            ))

  reconcile_groups-Keeps :
      (groups : List (String × List Attachment))
      → All (OfPod K) groups
      → Keeps (Guarded K) (reconcile_groups s groups)
  unfolding reconcile_groups reconcile_group
  reconcile_groups-Keeps [] h = Triple-pure _ (λ t g. g)
  reconcile_groups-Keeps ((uid, group) ∷ rest) (p, h) =
      Triple-bind {Q = λ _ t. Guarded K t.log} _ _
        (Triple-attempt _ (
          Triple-wrapping _ _ (
            reconcile_sorted-Keeps uid (sort_attachments group)
              (sort_attachments-All (λ a. (a.pod.uid ≡ uid) × K a) group p))))
        λ answer.
          Triple-bind {Q = λ _ t. Guarded K t.log} _ _ (reconcile_groups-Keeps rest h)
            λ more. Triple-pure _ (λ t g. g)

  pub reconcile_all-Keeps :
      Triple
        (λ t. Lists K s t.world × Guarded K t.log)
        (reconcile_all s)
        (λ _ t. Guarded K t.log)
        (λ _ t. Guarded K t.log)
  unfolding reconcile_all
  reconcile_all-Keeps =
      Triple-if s.transition_held _ _
        (λ _.
          Triple-weaken _ (lockdown_all-Keeps s (Guarded K) (Guarded-ShutStable K)) (λ t h. h.1)
            (λ _ t h. h) (λ e t h. h))
        (λ _. Triple-bind _ _ (Triple-wrapping _ _ (call_list_all-Listed K s)) λ attachments.
          Triple-known _ λ known.
            Triple-bind {Q = λ _ t. Guarded K t.log} _ _
              (reconcile_groups-Keeps _ (group_attachments-OfPod K attachments [] known tt))
              λ errs. lift-Keeps (Guarded K) _)
