-- ===== src/Cni/Plugin/Admission.antt =====
-- ADD in internal/cni/plugin.go as a whole.
use waycloak.Prelude.{
  ℕ, String, Bool, true, false, ◌==◌, not, List, ◌∷◌, ◌≡◌, refl, ap, Bool-cases, ◌∙◌, eq_iff, ◌⊎◌,
  inl, inr, if◌then◌else◌, arith, some, any,
}
use waycloak.Exec.{Err, Result, ok, err, is_ok, Exec, pure, lift, attempt, Traced}
use waycloak.Exec.Triple.{
  Post, Triple, Triple-pure, Triple-fail, Triple-lift, Triple-if, Triple-wrapping, Triple-bind,
  Triple-attempt, Triple-weaken, Post-both, Triple-perform,
}
use waycloak.Cni.Types.{Resolution, is_ready, Attachment, Request}
use waycloak.Exec.{errors_is}
use waycloak.Cni.Calls.{Plugin, Call, resolve, is_sentinel_not_exist}
use waycloak.Cni.Plugin.{
  same_pod, validate, add_existing, add_unrecorded, add_loaded, add_protected, add, same_attachment,
  recorded_binding, has_prior_enrollment, resolved_enrollment,
}
use waycloak.Cni.Calls.{call_identity, call_load, call_list, call_resolve, call_check}
use waycloak.Cni.Plugin.Log.{
  Guarded, lockdowns, last_listed, Protected, Confirmed, Unenrolled, ResolvedLog, Refused,
}
use waycloak.Cni.Plugin.Retry.{retry_value-Tried}
use waycloak.Cni.Plugin.Protect.{Fresh, Stopped, lift-Fresh, add_protected-Protected}

module _ {W : Type 0} (p : Plugin W) (r : Request) (n : ℕ) where
  -- The part of ADD that decides: no policy is installed, and a Pod is let through only when it is
  -- confirmed or not enrolled.
  abbrev Decided : Bool → Traced W Call → Type 0
  Decided true s = Fresh p r n s
  Decided false s = Guarded s.log × (Confirmed r s.log ⊎ Unenrolled r s.log)

  abbrev Undecided : Err → Traced W Call → Type 0
  Undecided e s = Fresh p r n s

  add_existing-Decided :
      (existing : Attachment) (ns : String)
      → Triple (Fresh p r n) (add_existing p existing r ns) Decided Undecided
  unfolding add_existing call_check
  add_existing-Decided existing ns =
      Triple-bind {Q = λ _ s. Fresh p r n s} (lift (same_attachment existing r ns)) _
        (lift-Fresh p r n (same_attachment existing r ns))
        λ _.
          Triple-if (is_ready existing.phase) _ _
            (λ _.
              Triple-bind {Q = λ x s. Decided (not (is_ok x)) s}
                (attempt (call_check p r.pod (recorded_binding existing r))) _
                (Triple-attempt _ (Triple-perform _ _ (λ a w s h. (h.0, inl refl)) (λ e w s h. h)))
                (λ x. Triple-pure _ (λ s h. h)))
            (λ _. Triple-pure true (λ s h. h))

  abbrev Listed : Bool → Traced W Call → Type 0
  Listed sticky s =
      Fresh p r n s
      × ((found : List Attachment) × (last_listed s.log ≡ some found)
          × (any (same_pod r) found ≡ sticky))

  has_prior_enrollment-Listed : Triple (Fresh p r n) (has_prior_enrollment p r) Listed Undecided
  unfolding has_prior_enrollment call_list
  has_prior_enrollment-Listed =
      Triple-bind {Q = λ found s. Fresh p r n s × (last_listed s.log ≡ some found)} _ _
        (Triple-perform _ _ (λ a w s h. (h, refl)) (λ e w s h. h))
        (λ found. Triple-pure _ (λ s h. (h.0, (found, h.1, refl))))

  -- The agent has answered about the Pod, and the store has no earlier enrollment of it.
  abbrev Resolved : Resolution → Traced W Call → Type 0
  Resolved answer s = Fresh p r n s × ResolvedLog r answer s.log

  abbrev Unlisted : List Call → Type 0
  Unlisted log =
      (Guarded log × (lockdowns log ≡ n))
      × ((found : List Attachment) × (last_listed log ≡ some found)
          × (any (same_pod r) found ≡ false))

  call_resolve-Resolved : Triple (Listed false) (call_resolve p r.pod) Resolved (λ _. Listed false)
  unfolding call_resolve
  call_resolve-Resolved = Triple-perform _ _ (λ a w s h. (h.0, (refl, refl, h.1))) (λ e w s h. h)

  resolved-Decided :
      (answer : Resolution) (log : List Call)
      → not (answer.pod_uid == r.pod.uid) ≡ false
      → answer.enrolled ≡ false
      → ResolvedLog r answer log
      → Unenrolled r log
  resolved-Decided answer (resolve pod (ok given) ∷ log) u e h = (
    h.0,
    ap (λ (x : Resolution). x.pod_uid) h.1 ∙ ground (arith, eq_iff answer.pod_uid r.pod.uid),
    ap (λ (x : Resolution). x.enrolled) h.1 ∙ e,
    h.2,
  )
  resolved-Decided answer _ u e h = absurd h

  resolved_enrollment-Decided :
      (answer : Resolution)
      → Triple (Resolved answer) (lift (resolved_enrollment answer r)) Decided Undecided
  unfolding resolved_enrollment
  resolved_enrollment-Decided answer = elim (Bool-cases (not (answer.pod_uid == r.pod.uid))) [
    | inl other_uid ↦ Triple-lift _ (λ s h. rw other_uid h.0)
    | inr same_uid ↦ elim (Bool-cases answer.enrolled) [
      | inl e ↦ Triple-lift _ (λ s h. rw same_uid (rw e h.0))
      | inr e ↦
          Triple-lift _
            (λ s h. rw same_uid (rw e (h.0.0, inr (resolved-Decided answer s.log same_uid e h.1))))
    ]
  ]

  add_unrecorded-Decided : Triple (Fresh p r n) (add_unrecorded p r) Decided Undecided
  unfolding add_unrecorded
  add_unrecorded-Decided =
      Triple-bind {Q = Listed} _ _ (Triple-wrapping _ _ has_prior_enrollment-Listed) λ sticky.
        Triple-if sticky _ _ (λ e. Triple-pure true (λ s h. h.0))
          (λ e.
            Triple-bind {P = Listed sticky} {Q = Resolved} _ _
              (Triple-wrapping _ _ (
                Triple-weaken _ (retry_value-Tried p Unlisted Resolved _ _ call_resolve-Resolved)
                  (λ s h. rw e at h) (λ a s h. h) (λ x s h. h.0)))
              resolved_enrollment-Decided)

  add_loaded-Decided :
      (ns : String) (loaded : Result Attachment)
      → Triple (Fresh p r n) (add_loaded p r ns loaded) Decided Undecided
  unfolding add_loaded
  add_loaded-Decided ns (ok existing) = add_existing-Decided existing ns
  add_loaded-Decided ns (err e) =
      Triple-if (errors_is is_sentinel_not_exist e) _ _ (λ _. add_unrecorded-Decided)
        (λ _. Triple-fail _ (λ s h. h))

  abbrev Granted : Unit {0} → Traced W Call → Type 0
  Granted _ s = Guarded s.log × (Protected r s.log ⊎ (Confirmed r s.log ⊎ Unenrolled r s.log))

  if_protected-Granted :
      (ns : String) (protected : Bool)
      → Triple
          (Decided protected)
          (if protected then add_protected p r ns else pure tt)
          Granted
          (Stopped p r n)
  if_protected-Granted ns true =
      Triple-weaken _ (add_protected-Protected p r n ns) (λ s h. h) (λ a s h. (h.0, inl h.1))
        (λ e s h. h)
  if_protected-Granted ns false = Triple-pure tt (λ s h. (h.0, inr h.1))

  undecided :
      {A : Type 0} {P : Traced W Call → Type 0} {Q : A → Traced W Call → Type 0}
      (m : Exec (Traced W Call) A)
      → Triple P m Q Undecided
      → Triple P m Q (Stopped p r n)
  undecided m t = Triple-weaken m t (λ s h. h) (λ a s h. h) (λ e s h. (h.0, inr (inl h.1)))

  add-Granted : Triple (Fresh p r n) (add p r) Granted (Stopped p r n)
  unfolding add call_identity call_load
  add-Granted =
      Triple-bind {Q = λ _ s. Fresh p r n s} _ _ (undecided _ (lift-Fresh p r n (validate p r)))
        λ _.
          Triple-bind {Q = λ _ s. Fresh p r n s} _ _
            (Triple-wrapping _ _ (undecided _ (Triple-perform _ _ (λ a w s h. h) (λ e w s h. h))))
            λ ns.
              Triple-bind {Q = λ _ s. Fresh p r n s} _ _
                (Triple-attempt _ (Triple-perform _ _ (λ a w s h. h) (λ e w s h. h)))
                λ loaded.
                  Triple-bind {Q = Decided} _ _ (undecided _ (add_loaded-Decided ns loaded))
                    (if_protected-Granted ns)

-- The log stays guarded through ADD, whatever the agent, the enforcer and the store answer: it asks
-- for the programming of a path only behind the deny-first policy of that Pod, and records an
-- attachment as ready only right after its path was programmed, still behind that policy.
pub add-Guarded :
    {W : Type 0} (p : Plugin W) (r : Request) (s : Traced W Call)
    → Guarded s.log
    → Guarded (add p r s).1.log
add-Guarded p r s h =
    Post-both (Granted p r (lockdowns s.log)) (Stopped p r (lockdowns s.log)) (λ t. Guarded t.log)
      (add p r s).0 (add p r s).1 (λ a t. t.0) (λ e t. t.0)
      ((add-Granted p r (lockdowns s.log)).at s (h, refl))

-- How ADD ends on a guarded log, whatever its environment does. It succeeds only when the Pod's
-- attachment was recorded as ready behind the policy, when the agent confirmed the live attachment,
-- or when the agent said of the exact Pod UID that it is not enrolled and the store listed no
-- earlier enrollment of the Pod. It fails with the deny-first policy of the Pod standing, or before
-- it installed any, or after rolling back a policy whose record the store refused.
pub add_outcome :
    {W : Type 0} (p : Plugin W) (r : Request) (s : Traced W Call)
    → Guarded s.log
    → Post
        (λ _ t. Protected r t.log ⊎ (Confirmed r t.log ⊎ Unenrolled r t.log))
        (λ _ t. Refused r (lockdowns s.log) t.log)
        (add p r s).0
        (add p r s).1
add_outcome p r s h =
    (Triple-weaken (add p r) (add-Granted p r (lockdowns s.log)) (λ t g. g) (λ a t g. g.1)
        (λ e t g. g.1)).at
      s (h, refl)
