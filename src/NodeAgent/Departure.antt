-- ===== src/NodeAgent/Departure.antt =====
-- `Withdraw` of internal/nodeagent/service.go and the guarded log.
use waycloak.Prelude.{
  String, Bool, true, false, ◌==◌, eq_iff, not, ◌||◌, ◌≡◌, refl, sym, ap, arith, List, [], ◌∷◌, All,
  Bool-cases, inl, inr, Option, none, some,
}
use waycloak.Exec.{
  Err, Result, ok, err, lift, attempt, reject_if, errors_is, sentinel, wrap, call,
  pod_identity_invalid,
}
use waycloak.Exec.Triple.{
  Post, Triple-known, Triple, Triple-pure, Triple-lift, Triple-if, Triple-bind, Triple-bind-lift,
  Triple-attempt, Triple-call, Triple-read, Triple-own_state, Triple-weaken, Triple-wrapping,
}
use waycloak.Cni.Types.{PodIdentity, Attachment, pod_eq}
use waycloak.Dataplane.{Netip}
use waycloak.NodeAgent.Types.{
  Pod, WorkloadBinding, Service, get_pod, get_binding, list_bindings, identity, install_lockdown,
  list_all, configure, verify, cleanup, save, delete, publish, Run,
}
use waycloak.NodeAgent.Lookup.{
  valid_identity, looked_up, pod_of, report, exact_pod_absent, is_not_found,
}
use waycloak.NodeAgent.Withdraw.{
  is_exact, unobserved, observed_namespace, is_running, close_namespace, unless_absent,
  call_identity, call_list_all, clean_attachment, checked_withdrawal, withdrawal_binding,
  publish_withdrawal, finish_withdrawal, withdraw_attachment, find_attachment, withdraw,
}
use waycloak.NodeAgent.Guard.{Guarded, Departed, has_departed, Identified, Released}
use waycloak.NodeAgent.Path.{record_observation-Shown}
use waycloak.NodeAgent.Guarding.{
  Keeps, lift-Keeps, ShutStable, lock_attachment-Keeps, forget_observation-Keeps,
}

reject_if-err : (b : Bool) (x e : Err) → reject_if b x ≡ err e → (b ≡ true) × (x ≡ e)
reject_if-err true x e h = (refl, cc)
reject_if-err false x e h = cc

reject_if-present :
    (b : Bool) (x e : Err)
    → reject_if b x ≡ err e
    → exact_pod_absent x ≡ false
    → exact_pod_absent e ≡ false
reject_if-present b x e h p = rw (sym (reject_if-err b x e h).1) p

or_true : (a b : Bool) → a ≡ true → (a || b) ≡ true
or_true a b h = ground arith

valid_identity-present :
    (r : Result (Unit {0})) (e : Err) → valid_identity r ≡ err e → exact_pod_absent e ≡ false
unfolding valid_identity errors_is
valid_identity-present (ok _) e h = cc
valid_identity-present (err x) e h = rw (sym q) refl
  where
    q : wrap "validate Pod identity" (sentinel pod_identity_invalid) ≡ e
    q = cc

module _ {n : Netip} (K : Attachment → Type 0) where
  pub Guarded-ShutStable : ShutStable {n = n} (Guarded K)
  Guarded-ShutStable (get_pod ns name x) log e h = h
  Guarded-ShutStable (get_binding ns name x) log e h = h
  Guarded-ShutStable (list_bindings x) log e h = h
  Guarded-ShutStable (identity ns x) log e h = h
  Guarded-ShutStable (install_lockdown ns uid x) log e h = h
  Guarded-ShutStable (list_all x) log e h = h
  Guarded-ShutStable (configure ns c x) log e h = cc
  Guarded-ShutStable (verify ns c x) log e h = cc
  Guarded-ShutStable (cleanup ns uid x) log e h = cc
  Guarded-ShutStable (save a x) log e h = cc
  Guarded-ShutStable (delete k x) log e h = cc
  Guarded-ShutStable (publish r x) log e h = cc

  module _ {W : Type 0} (s : Service n W) (i : PodIdentity) where
    -- The Pod has departed where the answer allows a cleanup.
    abbrev pub Asked : Result Pod → Run n W → Type 0
    Asked (ok pod) t = Guarded K t.log × (pod.deleting ≡ true → Departed i t.log)
    Asked (err e) t = Guarded K t.log × (exact_pod_absent e ≡ true → Departed i t.log)

    -- The newest call is the answer of the reader about the Pod.
    abbrev Read : Result Pod → Run n W → Type 0
    Read found t = Guarded K t.log × (has_departed i.uid found ≡ true → Departed i t.log)

    present :
        (e : Err) (t : Run n W) → exact_pod_absent e ≡ false → Guarded K t.log → Asked (err e) t
    present e t p h = (h, λ a. absurd cc)

    looked_up-Read :
        (found : Result Pod)
        → Triple (Read found) (lift (looked_up found)) (λ pod. Read (ok pod)) (λ e. Asked (err e))
    unfolding looked_up errors_is
    looked_up-Read (ok pod) = Triple-lift _ (λ t h. h)
    looked_up-Read (err e) = Triple-lift _ (λ t h. h)

    pub pod_of-Asked :
        Triple (λ t. Guarded K t.log) (pod_of s i) (λ pod. Asked (ok pod)) (λ e. Asked (err e))
    unfolding pod_of errors_is
    pod_of-Asked =
        Triple-bind-lift _ _ (λ e q t h. present e t (valid_identity-present _ e q) h)
          λ _ _.
            Triple-bind-lift _ _ (λ e q t h. present e t (reject_if-present _ _ e q refl) h)
              λ _ _.
                Triple-bind {Q = Read} _ _
                  (Triple-attempt _ (
                    Triple-call _ _ (λ pod w t h. (h, λ d. (refl, refl, d)))
                      (λ e w t h. (h, λ d. (refl, refl, d)))))
                  λ found. Triple-bind _ _ (looked_up-Read found) λ pod.
                    Triple-bind-lift _ _
                      (λ e q t h. (h.0, λ _. h.1 (or_true _ _ (reject_if-err _ _ e q).0)))
                      λ _ _.
                        Triple-bind-lift _ _
                          (λ e q t h. present e t (reject_if-present _ _ e q refl) h.0)
                          λ _ _. Triple-pure pod (λ t h. (h.0, λ d. h.1 (ground arith)))

  module _ {W : Type 0} (s : Service n W) where
    pub publish_withdrawal-Released :
        (b : WorkloadBinding)
        → Triple
            (λ t. Guarded K t.log)
            (publish_withdrawal s b)
            (λ _ t. Guarded K t.log × Released t.log)
            (λ _ t. Guarded K t.log)
    unfolding publish_withdrawal report
    publish_withdrawal-Released b =
        Triple-bind {Q = λ _ t. Guarded K t.log} _ _ (lift-Keeps (Guarded K) _) λ _.
          Triple-bind _ _ (record_observation-Shown s (Guarded K) b false) λ o.
            Triple-bind {Q = λ _ t. Guarded K t.log × (o.ready ≡ false)} _ _
              (Triple-bind {Q = λ _ t. Guarded K t.log × (o.ready ≡ false)} _ _
                (Triple-read _ (λ now w t h. (h.0, h.1)))
                λ now.
                  Triple-bind {Q = λ _ t. Guarded K t.log × (o.ready ≡ false)} _ _
                    (Triple-own_state (λ t h. h)) λ own. Triple-pure _ (λ t h. h))
              λ r. Triple-wrapping _ _ (
                Triple-call _ _ (λ a w t h. ((ground arith, h.0), tt))
                  (λ e w t h. (ground arith, h.0)))

    -- The reader's answer: there is no binding, or nothing is released yet.
    abbrev pub Absent : Option WorkloadBinding → Run n W → Type 0
    Absent none t = Guarded K t.log × Released t.log
    Absent (some b) t = Guarded K t.log

    abbrev Sought : Result WorkloadBinding → Run n W → Type 0
    Sought (ok b) t = Guarded K t.log
    Sought (err e) t = Guarded K t.log × (errors_is is_not_found e ≡ true → Released t.log)

    checked_withdrawal-Absent :
        (uid : String) (found : Result WorkloadBinding)
        → Triple
            (Sought found)
            (lift (checked_withdrawal uid found))
            Absent
            (λ _ t. Guarded K t.log)
    unfolding checked_withdrawal
    checked_withdrawal-Absent uid (ok b) = elim (Bool-cases (not (b.pod_uid == uid))) [
      | inl e ↦ Triple-lift _ (λ t h. rw e h)
      | inr e ↦ Triple-lift _ (λ t h. rw e h)
    ]
    checked_withdrawal-Absent uid (err x) = elim (Bool-cases (errors_is is_not_found x)) [
      | inl e ↦ Triple-lift _ (λ t h. rw e (h.0, h.1 e))
      | inr e ↦ Triple-lift _ (λ t h. rw e h.0)
    ]

    pub withdrawal_binding-Absent :
        (namespace uid : String)
        → Triple
            (λ t. Guarded K t.log)
            (withdrawal_binding s namespace uid)
            Absent
            (λ _ t. Guarded K t.log)
    unfolding withdrawal_binding
    withdrawal_binding-Absent namespace uid =
        Triple-bind {Q = Sought} _ _
          (Triple-attempt _ (Triple-call _ _ (λ b w t h. h) (λ e w t h. (h, λ d. d))))
          (checked_withdrawal-Absent uid)

    Absent-Guarded : (b : Option WorkloadBinding) (t : Run n W) → Absent b t → Guarded K t.log
    Absent-Guarded none t h = h.0
    Absent-Guarded (some b) t h = h

    finish_withdrawal-Keeps :
        (i : PodIdentity) (b : Option WorkloadBinding) → Keeps (Guarded K) (finish_withdrawal s i b)
    unfolding finish_withdrawal
    finish_withdrawal-Keeps i none = forget_observation-Keeps s (Guarded K) Guarded-ShutStable i.uid
    finish_withdrawal-Keeps i (some b) =
        Triple-bind {Q = λ _ t. Guarded K t.log} _ _
          (Triple-weaken _ (publish_withdrawal-Released b) (λ t h. h) (λ a t h. h.0) (λ e t h. h))
          λ _. forget_observation-Keeps s (Guarded K) Guarded-ShutStable i.uid

    module _ (a : Attachment) (known : K a) where
      -- The Pod is running, or has departed.
      abbrev Judged : Result Pod → Run n W → Type 0
      Judged pod t = Guarded K t.log × (is_running pod ≡ false → Departed a.pod t.log)

      unless_absent-Judged :
          (pod : Result Pod)
          → Triple
              (Asked s a.pod pod)
              (lift (unless_absent pod))
              (λ _. Judged pod)
              (λ _ t. Guarded K t.log)
      unfolding unless_absent is_running
      unless_absent-Judged (ok pod) = Triple-lift _ (λ t h. (h.0, λ e. h.1 (ground arith)))
      unless_absent-Judged (err x) = elim (Bool-cases (exact_pod_absent x)) [
        | inl e ↦ Triple-lift _ (λ t h. rw e (h.0, λ _. h.1 e))
        | inr e ↦ Triple-lift _ (λ t h. rw e h.0)
      ]

      -- The namespace was identified too.
      abbrev Placed : Result Pod → Result String → Run n W → Type 0
      Placed pod found t =
          Guarded K t.log
          × ((is_running pod ≡ false → Departed a.pod t.log)
              × (is_exact a found ≡ true → Identified a t.log))

      call_identity-Placed :
          {E : Err → Run n W → Type 0} (pod : Result Pod)
          → Triple (Judged pod) (attempt (call_identity s a)) (Placed pod) E
      unfolding call_identity is_exact
      call_identity-Placed pod = Triple-attempt _ (
          Triple-call _ _
            (λ x w t h. (h.0, (h.1, λ e. inl (refl, ap ok ((eq_iff x a.namespace_identity).0 e)))))
            (λ x w t h. (h.0, (h.1, λ e. cc))))

      close_namespace-Keeps :
          (pod : Result Pod) (exact : Bool)
          → Triple
              (λ t.
                Guarded K t.log
                × ((is_running pod ≡ false → Departed a.pod t.log)
                    × (exact ≡ true → Identified a t.log)))
              (close_namespace s a pod exact)
              (λ _ t. Guarded K t.log)
              (λ _ t. Guarded K t.log)
      unfolding close_namespace clean_attachment
      close_namespace-Keeps pod false = Triple-pure _ (λ t h. h.0)
      close_namespace-Keeps pod true =
          Triple-if (is_running pod) _ _
            (λ _. Triple-wrapping _ _ (
              Triple-weaken _ (lock_attachment-Keeps s (Guarded K) Guarded-ShutStable a)
                (λ t h. h.0) (λ x t h. h) (λ e t h. h)))
            (λ e. Triple-wrapping _ _ (
              Triple-call _ _ (λ x w t h. ((a, known, refl, refl, h.1.0 e, h.1.1 refl), h.0))
                (λ x w t h. ((a, known, refl, refl, h.1.0 e, h.1.1 refl), h.0))))

      withdraw_attachment-Keeps : Keeps (Guarded K) (withdraw_attachment s a)
      unfolding withdraw_attachment
      withdraw_attachment-Keeps =
          Triple-bind {Q = Asked s a.pod} _ _ (Triple-attempt _ (pod_of-Asked s a.pod)) λ pod.
            Triple-bind _ _ (unless_absent-Judged pod) λ _.
              Triple-bind _ _ (call_identity-Placed pod) λ found.
                Triple-bind {Q = λ _. Placed pod found} _ _
                  (observed (observed_namespace (unobserved found)))
                  λ _.
                    Triple-bind {Q = λ _ t. Guarded K t.log} _ _
                      (close_namespace-Keeps pod (is_exact a found))
                      λ _.
                        Triple-bind {Q = λ _ t. Guarded K t.log} _ _
                          (Triple-weaken _ (withdrawal_binding-Absent a.pod.namespace a.pod.uid)
                            (λ t h. h) Absent-Guarded (λ e t h. h))
                          (finish_withdrawal-Keeps a.pod)
        where
          observed :
              {P : Run n W → Type 0} (r : Result (Unit {0}))
              → Triple
                  (λ t. Guarded K t.log × P t)
                  (lift r)
                  (λ _ t. Guarded K t.log × P t)
                  (λ _ t. Guarded K t.log)
          observed (ok _) = Triple-lift _ (λ t h. h)
          observed (err e) = Triple-lift _ (λ t h. h.0)

    -- What the store lists in this world is in `K`.
    abbrev pub Lists : W → Type 0
    Lists w =
        (attachments : List Attachment) → (s.list_all w).0 ≡ ok attachments → All K attachments

    pub call_list_all-Listed :
        Triple
          (λ t. Lists t.world × Guarded K t.log)
          (call_list_all s)
          (λ attachments t. All K attachments × Guarded K t.log)
          (λ _ t. Guarded K t.log)
    unfolding call_list_all call
    call_list_all-Listed = record { at = λ t h. answered (s.list_all t.world).0 _ h.0 h.1 }
      where
        answered :
            (r : Result (List Attachment)) (u : Run n W)
            → ((attachments : List Attachment) → r ≡ ok attachments → All K attachments)
            → Guarded K u.log
            → Post
                (λ attachments (t : Run n W). All K attachments × Guarded K t.log)
                (λ _ t. Guarded K t.log)
                r
                u
        answered (ok attachments) u l g = (l attachments refl, g)
        answered (err e) u l g = g

    find_attachment-known :
        (i : PodIdentity) (attachments : List Attachment) (a : Attachment)
        → find_attachment i attachments ≡ ok a
        → All K attachments
        → K a
    unfolding find_attachment
    find_attachment-known i [] a e h = absurd cc
    find_attachment-known i (b ∷ rest) a e (k, h) = elim (Bool-cases (pod_eq b.pod i)) [
      | inl q ↦ chosen b a (rw q at e) k
      | inr q ↦ find_attachment-known i rest a (rw q at e) h
    ]
      where
        chosen : (b a : Attachment) → ok b ≡ ok a → K b → K a
        chosen b a e k = rw (sym (same b a e)) k
          where
            same : (b a : Attachment) → ok b ≡ ok a → b ≡ a
            same b a e = cc

    pub withdraw-Keeps :
        (i : PodIdentity)
        → Triple
            (λ t. Lists t.world × Guarded K t.log)
            (withdraw s i)
            (λ _ t. Guarded K t.log)
            (λ _ t. Guarded K t.log)
    unfolding withdraw
    withdraw-Keeps i =
        Triple-bind-lift _ _ (λ e q t h. h.1)
          λ _ _. Triple-bind _ _ (Triple-wrapping _ _ call_list_all-Listed) λ attachments.
            Triple-known _ λ known.
              Triple-bind-lift _ _ (λ e q t h. h)
                λ a e. withdraw_attachment-Keeps a (find_attachment-known i attachments a e known)
