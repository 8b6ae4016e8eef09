-- ===== src/NodeAgent/Adoption.antt =====
-- The programming of the one live attachment of a Pod by `reconcileAttachmentGroup` in
-- internal/nodeagent/service.go, the record that adopts a generation, and the deletion of the others.
use waycloak.Prelude.{String, false, not, List, [], ◌∷◌, refl}
use waycloak.Prelude.Int.{ℤ, eq_ℤ}
use waycloak.Exec.{Err, Result, ok, err, lift, join_all, wrap}
use waycloak.Exec.Triple.{
  Triple, Triple-pure, Triple-fail, Triple-lift, Triple-if, Triple-bind, Triple-attempt,
  Triple-call, Triple-read, Triple-weaken,
}
use waycloak.Cni.Types.{Attachment, attachment_key, key_eq, is_locked_down}
use waycloak.Dataplane.{Netip}
use waycloak.NodeAgent.Types.{WorkloadBinding, Service, Call, verify, Run}
use waycloak.NodeAgent.Lookup.{binding_reference}
use waycloak.NodeAgent.Program.{prepare_pod, check_pod}
use waycloak.NodeAgent.Withdraw.{kept}
use waycloak.NodeAgent.Reconcile.{
  is_fresh_attempt, delete_stale, delete_stale_loop, when_saved, adopt, when_programmed,
  program_current,
}
use waycloak.NodeAgent.Guard.{Guarded, Verified, Released}
use waycloak.NodeAgent.Outcome.{prepare_pod-Done, check_pod-Done}
use waycloak.NodeAgent.Guarding.{lift-Keeps, record_observation-Keeps, lock_attachment-Keeps}
use waycloak.NodeAgent.Departure.{Guarded-ShutStable}
use waycloak.NodeAgent.Regroup.{Deleting, delete_attachment-Deleting}

module _ {n : Netip} {W : Type 0} (s : Service n W) (K : Attachment → Type 0) where
  -- The path of an attachment was just verified at a generation.
  abbrev Programmed : Attachment → ℤ → Run n W → Type 0
  Programmed current generation t =
      Guarded K t.log × Verified current.pod.net_ns current.pod.uid generation t.log

  prepare_pod-Programmed :
      (current : Attachment) (b : WorkloadBinding)
      → Triple
          (λ t. Guarded K t.log)
          (prepare_pod s current.pod (binding_reference b))
          (λ _. Programmed current b.generation)
          (λ _ t. Guarded K t.log)
  prepare_pod-Programmed current b = record {
    at = λ t h.
        (Triple-weaken _ (prepare_pod-Done s K current.pod (binding_reference b) t.own _) (λ u g. g)
            (λ a u g. (g.0, g.1.0)) (λ e u g. g.0)).at
          t (h, (refl, refl));
  }

  check_pod-Programmed :
      (current : Attachment) (b : WorkloadBinding)
      → Triple
          (λ t. Guarded K t.log)
          (check_pod s current.pod (binding_reference b))
          (λ _. Programmed current b.generation)
          (λ _ t. Guarded K t.log)
  check_pod-Programmed current b = record {
    at = λ t h.
        (Triple-weaken _ (check_pod-Done s K current.pod (binding_reference b) t.own _) (λ u g. g)
            (λ a u g. (g.0, g.1.0)) (λ e u g. g.0)).at
          t (h, (refl, refl));
  }

  pub program_current-Programmed :
      (current : Attachment) (b : WorkloadBinding)
      → Triple
          (λ t. Guarded K t.log)
          (program_current s current b)
          (λ _. Programmed current b.generation)
          (λ _ t. Guarded K t.log)
  unfolding program_current
  program_current-Programmed current b =
      Triple-if (eq_ℤ current.binding_generation b.generation) _ _
        (λ _. check_pod-Programmed current b) (λ _. prepare_pod-Programmed current b)

  Verified→Released :
      (ns uid : String) (generation : ℤ) (log : List (Call n))
      → Verified ns uid generation log
      → Released log
  Verified→Released ns uid generation (verify m c (ok _) ∷ log) h = tt
  Verified→Released ns uid generation _ h = absurd h

  when_saved-Deleting :
      (current : Attachment) (b : WorkloadBinding) (e : Err)
      → Triple
          (λ t. Guarded K t.log)
          (when_saved s current b (err e))
          (λ _. Deleting s K)
          (λ _ t. Guarded K t.log)
  unfolding when_saved
  when_saved-Deleting current b e =
      Triple-bind {Q = λ _ t. Guarded K t.log} _ _
        (Triple-attempt _ (lock_attachment-Keeps s (Guarded K) (Guarded-ShutStable K) current))
        λ locked.
          Triple-bind {Q = λ _ t. Guarded K t.log} _ _
            (record_observation-Keeps s (Guarded K) (Guarded-ShutStable K) b false)
            λ _. refused locked
    where
      refused :
          (locked : Result (Unit {0}))
          → Triple
              (λ t. Guarded K t.log)
              (lift (join_all (wrap "persist adopted binding generation" e ∷ kept locked)))
              (λ _. Deleting s K)
              (λ _ t. Guarded K t.log)
      refused (ok _) = Triple-lift _ (λ t h. h)
      refused (err x) = Triple-lift _ (λ t h. h)

  -- The record was accepted, or refused.
  abbrev Saved : Result (Unit {0}) → Run n W → Type 0
  Saved (ok _) t = Deleting s K t
  Saved (err e) t = Guarded K t.log

  when_saved-Saved :
      (a : Attachment) (b : WorkloadBinding) (r : Result (Unit {0}))
      → Triple (Saved r) (when_saved s a b r) (λ _. Deleting s K) (λ _ t. Guarded K t.log)
  unfolding when_saved
  when_saved-Saved a b (ok _) = Triple-pure _ (λ t h. h)
  when_saved-Saved a b (err e) = when_saved-Deleting a b e

  adopt-Deleting :
      (current : Attachment) (b : WorkloadBinding)
      → Triple
          (Programmed current b.generation)
          (adopt s current b)
          (λ _. Deleting s K)
          (λ _ t. Guarded K t.log)
  unfolding adopt
  adopt-Deleting current b =
      Triple-if (eq_ℤ current.binding_generation b.generation) _ _
        (λ _. Triple-pure _ (λ t h. (h.0, Verified→Released _ _ _ t.log h.1)))
        (λ _.
          Triple-bind {Q = λ _. Programmed current b.generation} _ _
            (Triple-read _ (λ now w t h. h))
            λ now.
              Triple-bind {Q = Saved} _ _
                (Triple-attempt _ (
                  Triple-call _ _ (λ x w t h. ((h.1, h.0), Verified→Released _ _ _ t.log h.1))
                    (λ x w t h. (h.1, h.0))))
                (λ saved. when_saved-Saved _ b saved))

  delete_stale-Deleting :
      (current a : Attachment)
      → Triple
          (Deleting s K)
          (delete_stale s current a)
          (λ _. Deleting s K)
          (λ _ t. Guarded K t.log)
  unfolding delete_stale is_fresh_attempt
  delete_stale-Deleting current a =
      Triple-if (key_eq (attachment_key a) (attachment_key current)) _ _
        (λ _. Triple-pure _ (λ t h. h))
        (λ _.
          Triple-bind {Q = λ _. Deleting s K} _ _
            (Triple-if (not (is_locked_down a.phase)) _ _ (λ _. Triple-pure _ (λ t h. h))
              (λ _.
                Triple-bind {Q = λ _. Deleting s K} _ _ (Triple-read _ (λ now w t h. h))
                  λ now. Triple-pure _ (λ t h. h)))
            λ fresh.
              Triple-if fresh _ _ (λ _. Triple-pure _ (λ t h. h))
                (λ _.
                  Triple-bind {Q = λ _. Deleting s K} _ _
                    (Triple-attempt _ (delete_attachment-Deleting s K _ a))
                    λ deleted. Triple-pure _ (λ t h. h)))

  delete_stale_loop-Deleting :
      (current : Attachment) (attachments : List Attachment)
      → Triple
          (Deleting s K)
          (delete_stale_loop s current attachments)
          (λ _. Deleting s K)
          (λ _ t. Guarded K t.log)
  unfolding delete_stale_loop
  delete_stale_loop-Deleting current [] = Triple-pure _ (λ t h. h)
  delete_stale_loop-Deleting current (a ∷ rest) =
      Triple-bind {Q = λ _. Deleting s K} _ _ (delete_stale-Deleting current a) λ errs.
        Triple-bind {Q = λ _. Deleting s K} _ _ (delete_stale_loop-Deleting current rest)
          λ more. Triple-pure _ (λ t h. h)

  -- After the programming, whichever way it went.
  abbrev pub AfterProgram : Attachment → WorkloadBinding → Result (Unit {0}) → Run n W → Type 0
  AfterProgram current b (ok _) t = Programmed current b.generation t
  AfterProgram current b (err e) t = Guarded K t.log

  pub when_programmed-Keeps :
      (current : Attachment) (attachments : List Attachment) (b : WorkloadBinding)
      (r : Result (Unit {0}))
      → Triple
          (AfterProgram current b r)
          (when_programmed s current attachments b r)
          (λ _ t. Guarded K t.log)
          (λ _ t. Guarded K t.log)
  unfolding when_programmed
  when_programmed-Keeps current attachments b (err e) =
      Triple-bind {Q = λ _ t. Guarded K t.log} _ _
        (record_observation-Keeps s (Guarded K) (Guarded-ShutStable K) b false)
        λ _. Triple-fail _ (λ t h. h)
  when_programmed-Keeps current attachments b (ok _) =
      Triple-bind _ _ (adopt-Deleting current b) λ _.
        Triple-bind {Q = λ _. Deleting s K} _ _ (delete_stale_loop-Deleting current attachments)
          λ errs.
            Triple-weaken _ (lift-Keeps (Guarded K) (join_all errs)) (λ t h. h.0) (λ _ t h. h)
              (λ e t h. h)
